-- ===== src/Flash/Driver.antt =====
-- kernel/h1/src/hil/flash/driver.rs: `FlashImpl`, the driver of the flash module. The hardware, the
-- alarm and the client are the calls made to them, in order.
pub mod Hardware
mod Tests
pub mod Ideal
pub mod CarriesOut
pub mod Answers
pub mod Write
pub mod Erase
use tock_on_titan.Common.{
  ℕ, ◌+◌, ◌-◌, ◌*◌, ◌%◌, ◌^◌, min, Bool, true, false, not, ◌||◌, List, [], ◌∷◌, ◌++◌, map, Option,
  none, some, ltb, leb, ◌==◌, if◌then◌else◌, length, take, drop,
}
use tock_on_titan.ReturnCode.{
  ReturnCode, success, ebusy, esize, einval, success_with_value, is_success,
}
use tock_on_titan.NvCounter.Device.{words_per_page, words_per_bank, max_write_size}
use tock_on_titan.Flash.SmartProgram.{
  Bank, bank_zero, bank_one, SmartProgramState, Call, Reading, init, return_code, step,
}

abbrev pub erase_opcode : ℕ
erase_opcode = 0x31415927

abbrev pub write_opcode : ℕ
write_opcode = 0x27182818

-- `client` is whether the driver has one.
pub record FlashImpl : Type 0 where
  pub client : Bool
  pub write_data : Option (List ℕ)
  pub write_pos : ℕ
  pub write_len : ℕ
  pub write_bank : Bank
  pub write_bank_target : ℕ
  pub smart_program_state : Option SmartProgramState
  pub opcode : ℕ

-- Calls of the hardware, of it and the alarm by the state machine, and of the client.
pub data Effect : Type 0 where
  set_transaction : ℕ → ℕ → Effect
  set_write_data : List ℕ → Effect
  called : Call → Effect
  erase_done : ReturnCode → Effect
  write_done : List ℕ → ReturnCode → Effect

unfoldable pub new_driver : FlashImpl
new_driver = record {
  client = false;
  write_data = none;
  write_pos = 0;
  write_len = 0;
  write_bank = bank_zero;
  write_bank_target = 0;
  smart_program_state = none;
  opcode = 0;
}

unfoldable pub set_client : FlashImpl → FlashImpl
set_client d = record d { client = true }

unfoldable pub get_bank_from_target : ℕ → Option Bank
get_bank_from_target target =
    if ltb target words_per_bank
    then some bank_zero
    else if ltb target (2 * words_per_bank)
    then some bank_one
    else none

unfoldable pub program_in_progress : FlashImpl → Bool
program_in_progress d = elim d.smart_program_state [ none ↦ false | some state ↦ true ]

-- `frequency` is that of the alarm. A `usize` has 32 bits, and wraps in a release build.
module _ (frequency : ℕ) where
  unfoldable pub smart_program :
      ℕ → ℕ → Bool → ℕ → Bank → ℕ → ℕ → Reading → FlashImpl → FlashImpl × List Effect
  smart_program opcode max_attempts final_pulse_needed timeout bank bank_target size r d =
      let (state, calls) =
        step frequency opcode bank (init max_attempts final_pulse_needed timeout) r in
      (
        record d { smart_program_state = some state; opcode = opcode },
        set_transaction bank_target ((size + (2 ^ 32 - 1)) % 2 ^ 32) ∷ map called calls,
      )

  begin_erase : Option Bank → ℕ → Reading → FlashImpl → ReturnCode × FlashImpl × List Effect
  begin_erase none target r d = (einval, d, [])
  begin_erase (some bank) target r d =
      let bank_target = target % words_per_bank in
      let (d', effects) =
        smart_program erase_opcode 45 false 3353267 bank bank_target 1 r
          (record d { write_bank = bank; write_bank_target = bank_target }) in
      (success, d', effects)

  unfoldable pub erase : ℕ → Reading → FlashImpl → ReturnCode × FlashImpl × List Effect
  unfolding begin_erase program_in_progress
  erase page r d =
      if program_in_progress d
      then (ebusy, d, [])
      else (let target = page * words_per_page % 2 ^ 32 in
          begin_erase (get_bank_from_target target) target r d)

  begin_write :
      Option Bank
      → ℕ
      → List ℕ
      → Reading
      → FlashImpl
      → ReturnCode × Option (List ℕ) × FlashImpl × List Effect
  begin_write none target buffer r d = (einval, some buffer, d, [])
  begin_write (some bank) target buffer r d =
      let write_len = min (length buffer) max_write_size in
      let bank_target = target % words_per_bank in
      let (d', effects) =
        smart_program write_opcode 8 true (48734 + write_len * 3734) bank bank_target write_len r
          (record d {
            write_pos = 0;
            write_bank = bank;
            write_bank_target = bank_target;
            write_len = write_len;
            write_data = some buffer;
          }) in
      (success, none, d', set_write_data (take write_len buffer) ∷ effects)

  -- With the answer the buffer, where it is not kept.
  unfoldable pub write :
      ℕ → List ℕ → Reading → FlashImpl → ReturnCode × Option (List ℕ) × FlashImpl × List Effect
  unfolding begin_write program_in_progress
  write target buffer r d =
      if ltb max_write_size (length buffer)
      then (esize, some buffer, d, [])
      else if program_in_progress d
      then (ebusy, some buffer, d, [])
      else begin_write (get_bank_from_target target) target buffer r d

  -- `client.write_done(self.write_data.take().unwrap(), code)`; `none` is a panic.
  give_back : ReturnCode → Option (List ℕ) → FlashImpl → Option (FlashImpl × List Effect)
  give_back code none d = none
  give_back code (some buffer) d =
      some (record d { write_data = none }, write_done buffer code ∷ [])

  abbrev data_of : Option (List ℕ) → List ℕ
  data_of none = []
  data_of (some buffer) = buffer

  -- The next part of a write whose buffer is longer than one operation takes.
  continue_write : ℕ → Reading → FlashImpl → FlashImpl × List Effect
  continue_write subwrite_end r d =
      let buffer = data_of d.write_data in
      let next_len = min max_write_size (length buffer - subwrite_end) in
      let target = d.write_bank_target + subwrite_end in
      let (d', effects) =
        smart_program write_opcode 8 true (48734 + next_len * 3734) d.write_bank target next_len r
          (record d { write_pos = subwrite_end }) in
      (d', set_write_data (take next_len (drop subwrite_end buffer)) ∷ effects)

  finish_write : ReturnCode → Reading → FlashImpl → Option (FlashImpl × List Effect)
  unfolding give_back continue_write
  finish_write code r d =
      let subwrite_end = d.write_pos + d.write_len in
      if leb (length (data_of d.write_data)) subwrite_end || not (is_success code)
      then give_back code d.write_data d
      else some (continue_write subwrite_end r d)

  -- An operation has ended with this code.
  unfoldable pub finish : ReturnCode → Reading → FlashImpl → Option (FlashImpl × List Effect)
  unfolding finish_write
  finish code r d =
      if d.client
      then (if d.opcode == write_opcode
          then finish_write code r d
          else some (d, erase_done code ∷ []))
      else some (d, [])

  after_step :
      Option ReturnCode
      → SmartProgramState
      → List Call
      → Reading
      → FlashImpl
      → Option (FlashImpl × List Effect)
  after_step none state calls r d =
      some (record d { smart_program_state = some state }, map called calls)
  after_step (some code) state calls r d = elim (finish code r d) [
    | none ↦ none
    | some (d', effects) ↦ some (d', map called calls ++ effects)
  ]

  step_program : Option SmartProgramState → Reading → FlashImpl → Option (FlashImpl × List Effect)
  unfolding finish after_step
  step_program none r d = some (d, [])
  step_program (some state) r d =
      let (state', calls) = step frequency d.opcode d.write_bank state r in
      after_step (return_code state') state' calls r (record d { smart_program_state = none })

  -- The alarm fires, and the hardware answers `r`; `none` is a panic.
  unfoldable pub alarm : Reading → FlashImpl → Option (FlashImpl × List Effect)
  unfolding step_program
  alarm r d = step_program d.smart_program_state r d
