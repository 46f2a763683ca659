-- ===== src/Flash/Driver/Hardware.antt =====
-- kernel/h1/src/hil/flash/h1_hw.rs: the registers that the driver writes, and the flash module
-- behind them, which is silicon and a parameter.
pub mod Progress
use tock_on_titan.Common.{
  ℕ, ◌+◌, ◌-◌, ◌*◌, ◌%◌, ◌^◌, ◌≤◌, ◌<◌, Bool, true, false, not, ◌&&◌, ◌⊎◌, List, [], ◌∷◌, Option,
  none, some, ◌==◌, ◌≡◌, if◌then◌else◌, get_or,
}
use tock_on_titan.ReturnCode.{ReturnCode}
use tock_on_titan.NvCounter.Device.{words_per_page, words_per_bank, erased_word}
use tock_on_titan.Flash.SmartProgram.{
  Bank, bank_zero, bank_one, Call, trigger, set_alarm, disarm, Reading,
}
use tock_on_titan.Flash.Driver.{
  FlashImpl, Effect, set_transaction, set_write_data, called, erase_done, write_done, erase_opcode,
  write_opcode, erase, write, alarm,
}

-- `offset` and `size` are the fields of `transaction_parameters`, of 16 and 5 bits.
pub record Registers : Type 0 where
  pub offset : ℕ
  pub size : ℕ
  pub write_data : ℕ → ℕ

-- The first word that an operation changes, and how many it changes.
abbrev pub first_word : Bank → Registers → ℕ
first_word bank_zero regs = regs.offset
first_word bank_one regs = words_per_bank + regs.offset

abbrev pub word_count : ℕ → Registers → ℕ
word_count opcode regs = if opcode == erase_opcode then words_per_page else regs.size + 1

abbrev pub Outside : ℕ → ℕ → ℕ → Type 0
Outside first count i = (i < first) ⊎ (first + count ≤ i)

-- The hardware answers that no operation is running any more, and flags no error.
abbrev pub Confirms : Reading → Type 0
Confirms r = (r.is_programming ≡ false) × ((r.read_error == 0) ≡ true)

-- What the words of memory are after an operation that was triggered, by what the hardware answers
-- then. An operation that stays inside its bank changes no other words than its own, and does so
-- as asked where the answer confirms it; otherwise its own words may be anything.
pub record FlashModule : Type 0 where
  pub after : Reading → ℕ → Bank → Registers → (ℕ → ℕ) → ℕ → ℕ
  pub after_outside :
      (r : Reading) (opcode : ℕ) (bank : Bank) (regs : Registers) (words : ℕ → ℕ) (i : ℕ)
      → regs.offset + word_count opcode regs ≤ words_per_bank
      → Outside (first_word bank regs) (word_count opcode regs) i
      → after r opcode bank regs words i ≡ words i
  pub after_erase :
      (r : Reading) (bank : Bank) (regs : Registers) (words : ℕ → ℕ) (i : ℕ)
      → Confirms r
      → regs.offset + words_per_page ≤ words_per_bank
      → first_word bank regs ≤ i
      → i < first_word bank regs + words_per_page
      → after r erase_opcode bank regs words i ≡ erased_word
  pub after_write :
      (r : Reading) (bank : Bank) (regs : Registers) (words : ℕ → ℕ) (i : ℕ)
      → Confirms r
      → regs.offset + (regs.size + 1) ≤ words_per_bank
      → first_word bank regs ≤ i
      → i < first_word bank regs + (regs.size + 1)
      → after r write_opcode bank regs words i ≡ regs.write_data (i - first_word bank regs)

-- What the client has been told.
pub data Told : Type 0 where
  erase_ended : ReturnCode → Told
  write_ended : List ℕ → ReturnCode → Told

-- The driver with the hardware under it; the newest callback comes first.
pub record World : Type 0 where
  pub driver : FlashImpl
  pub registers : Registers
  pub triggered : Option (ℕ × Bank)
  pub words : ℕ → ℕ
  pub told : List Told

-- `H1bHw::set_transaction`, `set_write_data` and `trigger`, and the callbacks.
abbrev pub perform : Effect → World → World
perform (set_transaction bank_offset size) w = record w {
  registers = record w.registers { offset = bank_offset % 2 ^ 16; size = size % 2 ^ 5 };
}
perform (set_write_data buffer) w = record w {
  registers = record w.registers { write_data = λ i. get_or buffer i (w.registers.write_data i) };
}
perform (called (trigger opcode bank)) w = record w { triggered = some (opcode, bank) }
perform (called (set_alarm now ticks)) w = w
perform (called disarm) w = w
perform (erase_done code) w = record w { told = erase_ended code ∷ w.told }
perform (write_done buffer code) w = record w { told = write_ended buffer code ∷ w.told }

abbrev pub perform_all : List Effect → World → World
perform_all [] w = w
perform_all (e ∷ es) w = perform_all es (perform e w)

module _ (frequency : ℕ) (hw : FlashModule) where
  unfoldable pub erase_in : ℕ → Reading → World → ReturnCode × World
  erase_in page r w =
      let (code, d, effects) = erase frequency page r w.driver in
      (code, perform_all effects (record w { driver = d }))

  unfoldable pub write_in : ℕ → List ℕ → Reading → World → ReturnCode × Option (List ℕ) × World
  write_in target buffer r w =
      let (code, back, d, effects) = write frequency target buffer r w.driver in
      (code, back, perform_all effects (record w { driver = d }))

  acts : Option (ℕ × Bank) → Reading → World → World
  acts none r w = w
  acts (some (opcode, bank)) r w = record w {
    words = hw.after r opcode bank w.registers w.words;
    triggered = none;
  }

  -- The hardware does what it was triggered to do, and the alarm fires.
  unfoldable pub alarm_in : Reading → World → Option World
  unfolding acts
  alarm_in r w =
      let w' = acts w.triggered r w in
      elim (alarm frequency r w'.driver) [
        | none ↦ none
        | some (d, effects) ↦ some (perform_all effects (record w' { driver = d }))
      ]

  continue : List Reading → Option World → Option World
  continue rs none = none
  continue [] (some w) = some w
  continue (r ∷ rs) (some w) = continue rs (alarm_in r w)

  -- The alarm fires once for each reading; `none` is a panic.
  unfoldable pub alarms : List Reading → World → Option World
  unfolding continue
  alarms rs w = continue rs (some w)
