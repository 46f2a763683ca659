-- ===== src/Flash/Driver/Ideal.antt =====
-- A flash module that always does what it is asked, to test driver.rs with.
use tock_on_titan.Common.{
  ℕ, ◌+◌, ◌-◌, ◌≤◌, ◌<◌, ◌≡◌, arith, true, [], none, leb, ltb, ◌&&◌, ◌==◌, if◌then◌else◌, inl, inr,
}
use tock_on_titan.NvCounter.Device.{erased_word, words_per_page}
use tock_on_titan.Flash.SmartProgram.{Bank, Reading}
use tock_on_titan.Flash.SmartProgram.Outcome.{failure}
use tock_on_titan.Flash.Driver.{erase_opcode, write_opcode, new_driver}
use tock_on_titan.Flash.Driver.Hardware.{
  Registers, first_word, word_count, Outside, FlashModule, World,
}

abbrev pub obeys : Reading → ℕ → Bank → Registers → (ℕ → ℕ) → ℕ → ℕ
obeys r opcode bank regs words i =
    if leb (first_word bank regs) i && ltb i (first_word bank regs + word_count opcode regs)
    then (if opcode == erase_opcode
        then erased_word
        else regs.write_data (i - first_word bank regs))
    else words i

pub obeys-Outside :
    (opcode : ℕ) (bank : Bank) (regs : Registers) (words : ℕ → ℕ) (i : ℕ)
    → Outside (first_word bank regs) (word_count opcode regs) i
    → obeys (failure 0 0) opcode bank regs words i ≡ words i
obeys-Outside opcode bank regs words i (inl o) = ground arith
obeys-Outside opcode bank regs words i (inr o) = ground arith

pub obeys_erase :
    (bank : Bank) (regs : Registers) (words : ℕ → ℕ) (i : ℕ)
    → first_word bank regs ≤ i
    → i < first_word bank regs + words_per_page
    → obeys (failure 0 0) erase_opcode bank regs words i ≡ erased_word
obeys_erase bank regs words i a b = ground arith

pub obeys_write :
    (bank : Bank) (regs : Registers) (words : ℕ → ℕ) (i : ℕ)
    → first_word bank regs ≤ i
    → i < first_word bank regs + (regs.size + 1)
    → obeys (failure 0 0) write_opcode bank regs words i
      ≡ regs.write_data (i - first_word bank regs)
obeys_write bank regs words i a b = ground arith

abbrev pub ideal : FlashModule
ideal = record {
  after = obeys;
  after_outside = λ r opcode bank regs words i fits o. obeys-Outside opcode bank regs words i o;
  after_erase = λ r bank regs words i c fits a b. obeys_erase bank regs words i a b;
  after_write = λ r bank regs words i c fits a b. obeys_write bank regs words i a b;
}

abbrev pub erased_world : World
erased_world = record {
  driver = record new_driver { client = true };
  registers = record { offset = 0; size = 0; write_data = λ i. 7 };
  triggered = none;
  words = λ i. erased_word;
  told = [];
}
