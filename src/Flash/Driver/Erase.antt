-- ===== src/Flash/Driver/Erase.antt =====
-- driver.rs: an erase, from the call to the callback, against the flash as the counter sees it.
use tock_on_titan.Common.{
  ℕ, ◌+◌, ◌-◌, ◌*◌, ◌%◌, ◌^◌, ◌≤◌, ◌<◌, arith, true, false, List, [], ◌∷◌, none, some, inl, inr,
  length, ◌≡◌, refl, sym, ap, ◌∙◌,
}
use tock_on_titan.ReturnCode.{ReturnCode, success}
use tock_on_titan.NvCounter.Device.{
  Device, Operation, erasing, writing, effect, erased_word, words_per_page, words_per_bank,
  max_write_size,
}
use tock_on_titan.Flash.SmartProgram.{
  Bank, bank_zero, bank_one, running, Reading, init, set_program_timeout, begin_pulse, step,
}
use tock_on_titan.Flash.Driver.{
  FlashImpl, erase_done, erase_opcode, get_bank_from_target, program_in_progress, smart_program,
  begin_erase, erase, finish,
}
use tock_on_titan.Flash.Driver.Hardware.{
  first_word, Outside, FlashModule, erase_ended, World, perform_all, erase_in, alarms,
}
use tock_on_titan.Flash.Driver.Hardware.Progress.{continue-HasEnded}
use tock_on_titan.Flash.Driver.CarriesOut.{CarriesOut, everywhere, bank-of_target}
use tock_on_titan.NvCounter.Device

leave_erase :
    (frequency : ℕ) (code : ReturnCode) (r : Reading) (d : FlashImpl)
    → d.client ≡ true
    → d.opcode ≡ erase_opcode
    → finish frequency code r d ≡ some (d, erase_done code ∷ [])
unfolding finish
leave_erase frequency code r d c o = ground arith

erase_words-Outside :
    (page : ℕ) (words : ℕ → ℕ) (i : ℕ)
    → Outside (page * words_per_page) words_per_page i
    → effect (erasing page) words i ≡ words i
erase_words-Outside page words i (inl o) = ground arith
erase_words-Outside page words i (inr o) = ground arith

erased_inside :
    (page : ℕ) (words : ℕ → ℕ) (i : ℕ)
    → page * words_per_page ≤ i
    → i < page * words_per_page + words_per_page
    → effect (erasing page) words i ≡ erased_word
erased_inside page words i a b = ground arith

module _ (frequency : ℕ) (hw : FlashModule) where
  abbrev erase_world : Bank → ℕ → World → World
  erase_world bank target w = record w {
    driver = record w.driver {
      write_bank = bank;
      write_bank_target = target % words_per_bank;
      opcode = erase_opcode;
    };
    registers = record w.registers {
      offset = target % words_per_bank % 2 ^ 16;
      size = (1 + (2 ^ 32 - 1)) % 2 ^ 32 % 2 ^ 5;
    };
  }

  erase-begin_erase :
      (page : ℕ) (r : Reading) (d : FlashImpl) (bank : Bank)
      → d.smart_program_state ≡ none
      → get_bank_from_target (page * words_per_page % 2 ^ 32) ≡ some bank
      → erase frequency page r d
        ≡ begin_erase frequency (some bank) (page * words_per_page % 2 ^ 32) r d
  unfolding erase program_in_progress
  erase-begin_erase page r d bank s e = ground arith

  begin_erase_in :
      (page : ℕ) (r : Reading) (w : World) (bank : Bank)
      → w.driver.smart_program_state ≡ none
      → get_bank_from_target (page * words_per_page % 2 ^ 32) ≡ some bank
      → erase_in frequency hw page r w ≡ (
        success,
        record (erase_world bank (page * words_per_page % 2 ^ 32) w) {
          driver = record (erase_world bank (page * words_per_page % 2 ^ 32) w).driver {
            smart_program_state = some (running 44 false 3353267);
          };
          triggered = some (erase_opcode, bank);
        },
      )
  unfolding erase_in begin_erase smart_program init step begin_pulse set_program_timeout
  begin_erase_in page r w bank s e =
      ap (λ x. (x.0, perform_all x.2 (record w { driver = x.1 })))
        (erase-begin_erase page r w.driver bank s e)

  -- Pages are numbered modulo 2 ^ 23.
  erase_place :
      (page : ℕ) (w : World) (bank : Bank)
      → page % 2 ^ 23 < 256
      → get_bank_from_target (page * words_per_page % 2 ^ 32) ≡ some bank
      → (first_word bank (erase_world bank (page * words_per_page % 2 ^ 32) w).registers
          ≡ page % 2 ^ 23 * words_per_page)
        × ((erase_world bank (page * words_per_page % 2 ^ 32) w).registers.offset + words_per_page
            ≤ words_per_bank)
  unfolding get_bank_from_target
  erase_place page w bank_zero h e = (ground arith, ground arith)
  erase_place page w bank_one h e = (ground arith, ground arith)

  erase-CarriesOut :
      (page : ℕ) (rs : List Reading) (w : World) (bank : Bank)
      → w.driver.client ≡ true
      → page % 2 ^ 23 < 256
      → get_bank_from_target (page * words_per_page % 2 ^ 32) ≡ some bank
      → 45 ≤ length rs
      → CarriesOut
          (erasing (page % 2 ^ 23))
          erase_ended
          (page % 2 ^ 23 * words_per_page)
          words_per_page
          w
          (alarms frequency hw rs (record (erase_world bank (page * words_per_page % 2 ^ 32) w) {
            driver = record (erase_world bank (page * words_per_page % 2 ^ 32) w).driver {
              smart_program_state = some (running 44 false 3353267);
            };
            triggered = some (erase_opcode, bank);
          }))
  erase-CarriesOut page rs w bank client low e long =
      let b : World = erase_world bank (page * words_per_page % 2 ^ 32) w in
      let (place, fits) = erase_place page w bank low e in
      let (code, words, ends, outside, inside) =
        continue-HasEnded frequency hw b (record b.driver { smart_program_state = none }) erase_done
          erase_ended
          (λ code r.
            leave_erase frequency code r (record b.driver { smart_program_state = none }) client
              refl)
          refl (λ code w'. refl) rs 44 false 3353267 w.words w.words
          (effect (erasing (page % 2 ^ 23)) w.words) (omega arith) fits (λ i o. refl)
          (λ r words i c above below.
            hw.after_erase r bank b.registers words i c fits above below
            ∙ sym (erased_inside (page % 2 ^ 23) w.words i (omega arith) (omega arith))) in
      (
        code,
        _,
        ends,
        refl,
        refl,
        λ i o. outside i (rw place o),
        λ s.
            everywhere (page % 2 ^ 23 * words_per_page) words_per_page words w.words
              (effect (erasing (page % 2 ^ 23)) w.words) (λ i o. outside i (rw place o))
              (erase_words-Outside (page % 2 ^ 23) w.words)
              (λ i above below. inside s i (omega arith) (omega arith)),
      )

  -- An erase of a page is accepted by an idle driver with a client where the page's number modulo
  -- 2 ^ 23 is one of the 256 pages. After 45 alarms or more, whatever the hardware answers, the
  -- client has been told once and the driver is idle; only words of the page of that remainder have
  -- changed, and with SUCCESS the flash holds what an erase of that page leaves in the flash of the
  -- counter, which accepts it.
  pub erase_refines :
      (page : ℕ) (r : Reading) (rs : List Reading) (w : World)
      → w.driver.client ≡ true
      → w.driver.smart_program_state ≡ none
      → page % 2 ^ 23 < 256
      → 45 ≤ length rs
      → (Device.erase (record { words = w.words; ongoing = none }) (page % 2 ^ 23)
          ≡ (success, record { words = w.words; ongoing = some (erasing (page % 2 ^ 23)) }))
        × (w' : World) × (erase_in frequency hw page r w ≡ (success, w'))
        × CarriesOut
            (erasing (page % 2 ^ 23))
            erase_ended
            (page % 2 ^ 23 * words_per_page)
            words_per_page
            w
            (alarms frequency hw rs w')
  unfolding Device.erase
  erase_refines page r rs w client idle low long =
      let (bank, e) = bank-of_target (page * words_per_page % 2 ^ 32) (omega arith) in
      (
        ground arith,
        _,
        begin_erase_in page r w bank idle e,
        erase-CarriesOut page rs w bank client low e long,
      )
