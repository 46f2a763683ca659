-- ===== src/Flash/Driver/Write.antt =====
-- driver.rs: a write, from the call to the callback, against the flash as the counter sees it.
use tock_on_titan.Common.{
  ℕ, ◌+◌, ◌-◌, ◌*◌, ◌%◌, ◌^◌, ◌≤◌, ◌<◌, min, arith, true, List, [], ◌∷◌, Option, none, some, ltb,
  leb, inl, inr, length, get_or, take, ◌≡◌, refl, sym, ap, ◌∙◌, subst, get_or_inside, take-length,
}
use tock_on_titan.ReturnCode.{ReturnCode, success}
use tock_on_titan.NvCounter.Device.{
  Device, Operation, erasing, writing, effect, erased_word, words_per_page, words_per_bank,
  max_write_size,
}
use tock_on_titan.Flash.SmartProgram.{
  Bank, bank_zero, bank_one, running, Reading, init, set_program_timeout, begin_pulse, step,
}
use tock_on_titan.Flash.Driver.{
  FlashImpl, write_done, write_opcode, get_bank_from_target, program_in_progress, smart_program,
  begin_write, write, give_back, finish_write, finish,
}
use tock_on_titan.Flash.Driver.Hardware.{
  first_word, Outside, FlashModule, write_ended, World, perform_all, write_in, alarms,
}
use tock_on_titan.Flash.Driver.Hardware.Progress.{continue-HasEnded}
use tock_on_titan.Flash.Driver.CarriesOut.{CarriesOut, everywhere, bank-of_target}
use tock_on_titan.NvCounter.Device

leave_write :
    (frequency : ℕ) (code : ReturnCode) (r : Reading) (d : FlashImpl) (buffer : List ℕ)
    → d.client ≡ true
    → d.opcode ≡ write_opcode
    → d.write_data ≡ some buffer
    → length buffer ≤ d.write_pos + d.write_len
    → finish frequency code r d ≡ some (record d { write_data = none }, write_done buffer code ∷ [])
unfolding finish finish_write give_back
leave_write frequency code r d buffer c o e h = ground arith

write_words-Outside :
    (target : ℕ) (buffer : List ℕ) (words : ℕ → ℕ) (i : ℕ)
    → Outside target (length buffer) i
    → effect (writing target buffer) words i ≡ words i
write_words-Outside target buffer words i (inl o) = ground arith
write_words-Outside target buffer words i (inr o) = ground arith

-- The driver has accepted a write, and triggered one of 32 words of the registers as in `w`.
abbrev pub Writes32 : World → ReturnCode × Option (List ℕ) × World → Type 0
Writes32 w (code, back, w') =
    (code ≡ success)
    × (w'.registers.size + 1 ≡ 32)
    × (w'.registers.write_data ≡ w.registers.write_data)
    × (bank : Bank) × (w'.triggered ≡ some (write_opcode, bank))

module _ (frequency : ℕ) (hw : FlashModule) where
  -- The world in which the operation has been started, but for the state machine and the trigger.
  abbrev write_world : Bank → ℕ → List ℕ → World → World
  write_world bank target buffer w =
      let write_len = min (length buffer) max_write_size in
      record w {
        driver = record w.driver {
          write_pos = 0;
          write_len = write_len;
          write_bank = bank;
          write_bank_target = target % words_per_bank;
          write_data = some buffer;
          opcode = write_opcode;
        };
        registers = record {
          offset = target % words_per_bank % 2 ^ 16;
          size = (write_len + (2 ^ 32 - 1)) % 2 ^ 32 % 2 ^ 5;
          write_data = λ i. get_or (take write_len buffer) i (w.registers.write_data i);
        };
      }

  write-begin_write :
      (target : ℕ) (buffer : List ℕ) (r : Reading) (d : FlashImpl) (bank : Bank)
      → length buffer ≤ max_write_size
      → d.smart_program_state ≡ none
      → get_bank_from_target target ≡ some bank
      → write frequency target buffer r d ≡ begin_write frequency (some bank) target buffer r d
  unfolding write program_in_progress
  write-begin_write target buffer r d bank h s e = ground arith

  begin_write_in :
      (target : ℕ) (buffer : List ℕ) (r : Reading) (w : World) (bank : Bank)
      → length buffer ≤ max_write_size
      → w.driver.smart_program_state ≡ none
      → get_bank_from_target target ≡ some bank
      → write_in frequency hw target buffer r w ≡ (
        success,
        none,
        record (write_world bank target buffer w) {
          driver = record (write_world bank target buffer w).driver {
            smart_program_state =
                some (running 7 true (48734 + min (length buffer) max_write_size * 3734));
          };
          triggered = some (write_opcode, bank);
        },
      )
  unfolding write_in begin_write smart_program init step begin_pulse set_program_timeout
  begin_write_in target buffer r w bank h s e =
      ap (λ x. (x.0, x.1, perform_all x.3 (record w { driver = x.2 })))
        (write-begin_write target buffer r w.driver bank h s e)

  -- Where the hardware is told to write, and how much.
  write_place :
      (target : ℕ) (buffer : List ℕ) (w : World) (bank : Bank)
      → 0 < length buffer
      → length buffer ≤ max_write_size
      → get_bank_from_target target ≡ some bank
      → (first_word bank (write_world bank target buffer w).registers ≡ target)
        × ((write_world bank target buffer w).registers.size + 1 ≡ length buffer)
        × ((write_world bank target buffer w).registers.offset ≡ target % words_per_bank)
  unfolding get_bank_from_target
  write_place target buffer w bank_zero a h e = (ground arith, ground arith, ground arith)
  write_place target buffer w bank_one a h e = (ground arith, ground arith, ground arith)

  written_word :
      (target : ℕ) (buffer : List ℕ) (w : World) (i : ℕ)
      → length buffer ≤ max_write_size
      → target ≤ i
      → i < target + length buffer
      → get_or
          (take (min (length buffer) max_write_size) buffer)
          (i - target)
          (w.registers.write_data (i - target))
        ≡ effect (writing target buffer) w.words i
  written_word target buffer w i h above below =
      let m : min (length buffer) max_write_size ≡ length buffer = omega arith in
      let a : leb target i ≡ true = ground arith in
      let b : ltb i (target + length buffer) ≡ true = ground arith in
      rw (m, take-length buffer, a, b) (get_or_inside buffer (i - target) _ _ (omega arith))

  write-CarriesOut :
      (target : ℕ) (buffer : List ℕ) (rs : List Reading) (w : World) (bank : Bank)
      → w.driver.client ≡ true
      → 0 < length buffer
      → length buffer ≤ max_write_size
      → target % words_per_bank + length buffer ≤ words_per_bank
      → get_bank_from_target target ≡ some bank
      → 9 ≤ length rs
      → CarriesOut (writing target buffer) (write_ended buffer) target (length buffer) w (
          alarms frequency hw rs (record (write_world bank target buffer w) {
            driver = record (write_world bank target buffer w).driver {
              smart_program_state =
                  some (running 7 true (48734 + min (length buffer) max_write_size * 3734));
            };
            triggered = some (write_opcode, bank);
          }))
  write-CarriesOut target buffer rs w bank client some_words few fits e long =
      let b : World = write_world bank target buffer w in
      let (place, count, offset) = write_place target buffer w bank some_words few e in
      let (code, words, ends, outside, inside) =
        continue-HasEnded frequency hw b
          (record b.driver { smart_program_state = none; write_data = none }) (write_done buffer)
          (write_ended buffer)
          (λ code r.
            leave_write frequency code r (record b.driver { smart_program_state = none }) buffer
              client refl refl (omega arith))
          refl (λ code w'. refl) rs 7 true (48734 + min (length buffer) max_write_size * 3734)
          w.words w.words (effect (writing target buffer) w.words) (omega arith) (omega arith)
          (λ i o. refl)
          (λ r words i c above below.
            hw.after_write r bank b.registers words i c (omega arith) above below
            ∙ subst
                (λ x.
                  get_or (take (min (length buffer) max_write_size) buffer) (i - x)
                    (w.registers.write_data (i - x))
                  ≡ effect (writing target buffer) w.words i)
                (sym place) (written_word target buffer w i few (omega arith) (omega arith))) in
      (
        code,
        _,
        ends,
        refl,
        refl,
        λ i o. outside i (rw (place, count) o),
        λ s.
            everywhere target (length buffer) words w.words (effect (writing target buffer) w.words)
              (λ i o. outside i (rw (place, count) o)) (write_words-Outside target buffer w.words)
              (λ i above below. inside s i (omega arith) (omega arith)),
      )

  -- A write that the flash of the counter accepts, of 1 to 32 words inside one bank, is accepted by
  -- an idle driver with a client. After 9 alarms or more, whatever the hardware answers, the client
  -- has been told once, with the buffer, and the driver is idle; only the words of the write have
  -- changed, and with SUCCESS the flash holds what that flash would hold.
  pub write_refines :
      (target : ℕ) (buffer : List ℕ) (r : Reading) (rs : List Reading) (w : World)
      → w.driver.client ≡ true
      → w.driver.smart_program_state ≡ none
      → 0 < length buffer
      → length buffer ≤ max_write_size
      → target < 2 * words_per_bank
      → target % words_per_bank + length buffer ≤ words_per_bank
      → 9 ≤ length rs
      → (Device.write (record { words = w.words; ongoing = none }) target buffer
          ≡ (success, none, record { words = w.words; ongoing = some (writing target buffer) }))
        × (w' : World) × (write_in frequency hw target buffer r w ≡ (success, none, w'))
        × CarriesOut
            (writing target buffer)
            (write_ended buffer)
            target
            (length buffer)
            w
            (alarms frequency hw rs w')
  unfolding Device.write
  write_refines target buffer r rs w client idle some_words few low fits long =
      let (bank, e) = bank-of_target target low in
      (
        ground arith,
        _,
        begin_write_in target buffer r w bank few idle e,
        write-CarriesOut target buffer rs w bank client some_words few fits e long,
      )

  -- An empty write to a word of the flash is accepted by an idle driver, and triggers a write of 32
  -- words, of what the registers hold from before.
  pub write_empty :
      (target : ℕ) (r : Reading) (w : World)
      → w.driver.smart_program_state ≡ none
      → target < 2 * words_per_bank
      → Writes32 w (write_in frequency hw target [] r w)
  write_empty target r w idle low =
      let (bank, e) = bank-of_target target low in
      subst (Writes32 w) (sym (begin_write_in target [] r w bank (omega arith) idle e))
        (refl, omega arith, refl, bank, refl)
