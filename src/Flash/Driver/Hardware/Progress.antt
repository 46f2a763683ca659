-- ===== src/Flash/Driver/Hardware/Progress.antt =====
-- driver.rs: an operation of the driver, from alarm to alarm, until its callback.
use tock_on_titan.Common.{
  ℕ, ◌+◌, ◌-◌, ◌≤◌, ◌<◌, arith, Bool, true, false, List, [], ◌∷◌, Option, none, some, ltb, ◌==◌,
  Bool-cases, ◌⊎◌, inl, inr, length, ◌≡◌, refl, sym, ap, ◌∙◌, subst,
}
use tock_on_titan.ReturnCode.{ReturnCode, success, fail, is_success}
use tock_on_titan.NvCounter.Device.{words_per_bank}
use tock_on_titan.Flash.SmartProgram.{
  Bank, SmartProgramState, running, finished, Call, disarm, Reading, decode_error, return_code,
  set_program_timeout, begin_pulse, step,
}
use tock_on_titan.Flash.SmartProgram.Attempts.{pulses}
use tock_on_titan.Flash.SmartProgram.Outcome.{decode_error_fails}
use tock_on_titan.Flash.Driver.{FlashImpl, Effect, called, finish, after_step, step_program, alarm}
use tock_on_titan.Flash.Driver.Hardware.{
  first_word, word_count, Outside, Confirms, FlashModule, Told, World, perform, perform_all, acts,
  alarm_in, continue, alarms,
}

module _ (frequency : ℕ) where
  -- An alarm either triggers the hardware once more, with one pulse less to come, or ends.
  abbrev Again : ℕ → Bank → ℕ → Bool → ℕ → Reading → Type 0
  Again opcode bank n p t r =
      (n' : ℕ) × (p' : Bool) × (step frequency opcode bank (running n p t) r
        ≡ (running n' p' t, begin_pulse frequency opcode bank r.now t))
      × (n' + pulses p' < n + pulses p)

  abbrev Ends : ℕ → Bank → ℕ → Bool → ℕ → Reading → Type 0
  Ends opcode bank n p t r =
      (code : ReturnCode) × (step frequency opcode bank (running n p t) r
        ≡ (finished code, disarm ∷ []))
      × (is_success code ≡ true → Confirms r)

  step_once_more :
      (opcode : ℕ) (bank : Bank) (n : ℕ) (p : Bool) (t : ℕ) (r : Reading)
      → r.is_programming ≡ false
      → (r.read_error == 0) ≡ false
      → Again opcode bank n p t r ⊎ Ends opcode bank n p t r
  unfolding step
  step_once_more opcode bank n p t r a b = elim (Bool-cases (ltb 0 n)) [
    | inl m ↦ inl (n - 1, p, rw (a, b, m), ground arith)
    | inr z ↦ inr (
      decode_error r.read_error,
      rw (a, b, z),
      λ e. let f = decode_error_fails r.read_error in cc,
    )
  ]

  step_confirmed :
      (opcode : ℕ) (bank : Bank) (n : ℕ) (p : Bool) (t : ℕ) (r : Reading)
      → r.is_programming ≡ false
      → (r.read_error == 0) ≡ true
      → Again opcode bank n p t r ⊎ Ends opcode bank n p t r
  unfolding step
  step_confirmed opcode bank n true t r a b = inl (0, false, rw (a, b), omega arith)
  step_confirmed opcode bank n false t r a b = inr (success, rw (a, b), λ e. (a, b))

  step_cases :
      (opcode : ℕ) (bank : Bank) (n : ℕ) (p : Bool) (t : ℕ) (r : Reading)
      → Again opcode bank n p t r ⊎ Ends opcode bank n p t r
  unfolding step
  step_cases opcode bank n p t r = elim (Bool-cases r.is_programming) [
    | inl a ↦ inr (fail, rw a, λ e. absurd cc)
    | inr a ↦ elim (Bool-cases (r.read_error == 0)) [
      | inl b ↦ step_confirmed opcode bank n p t r a b
      | inr b ↦ step_once_more opcode bank n p t r a b
    ]
  ]

module _ (frequency : ℕ) (hw : FlashModule) where
  acts-none :
      (t : Option (ℕ × Bank)) (r : Reading) (w : World) → t ≡ none → acts frequency hw t r w ≡ w
  unfolding acts
  acts-none none r w e = refl
  acts-none (some x) r w e = absurd cc

  step_program-none :
      (s : Option SmartProgramState) (r : Reading) (d : FlashImpl)
      → s ≡ none
      → step_program frequency s r d ≡ some (d, [])
  unfolding step_program
  step_program-none none r d e = refl
  step_program-none (some x) r d e = absurd cc

  -- What the alarm's result does to the world.
  abbrev performed : World → Option (FlashImpl × List Effect) → Option World
  performed w x = elim x [
    | none ↦ none
    | some (d, effects) ↦ some (perform_all effects (record w { driver = d }))
  ]

  alarm_in-idle :
      (r : Reading) (w : World)
      → w.driver.smart_program_state ≡ none
      → w.triggered ≡ none
      → alarm_in frequency hw r w ≡ some w
  unfolding alarm_in alarm
  alarm_in-idle r w s t =
      ap (λ w'. performed w' (alarm frequency r w'.driver)) (acts-none w.triggered r w t)
      ∙ ap (performed w) (step_program-none w.driver.smart_program_state r w.driver s)

  continue-idle :
      (rs : List Reading) (w : World)
      → w.driver.smart_program_state ≡ none
      → w.triggered ≡ none
      → continue frequency hw rs (some w) ≡ some w
  unfolding continue
  continue-idle [] w s t = refl
  continue-idle (r ∷ rs) w s t =
      ap (continue frequency hw rs) (alarm_in-idle r w s t) ∙ continue-idle rs w s t

  -- Nothing happens while the driver and the hardware are idle.
  pub alarms-idle :
      (rs : List Reading) (w : World)
      → w.driver.smart_program_state ≡ none
      → w.triggered ≡ none
      → alarms frequency hw rs w ≡ some w
  unfolding alarms
  alarms-idle rs w s t = continue-idle rs w s t

  -- The operation that the driver of the world `b` has started; `d` is the driver after its end,
  -- and `told code` what the client is told then.
  module _ (b : World) (d : FlashImpl) (effect : ReturnCode → Effect) (told : ReturnCode → Told)
      (finishes : (code : ReturnCode) (r : Reading)
        → finish frequency code r (record b.driver { smart_program_state = none })
          ≡ some (d, effect code ∷ []))
      (idle : d.smart_program_state ≡ none)
      (tells : (code : ReturnCode) (w : World)
        → perform (effect code) w ≡ record w { told = told code ∷ w.told }) where
    abbrev busy : ℕ → Bool → ℕ → (ℕ → ℕ) → World
    busy n p t words = record b {
      driver = record b.driver { smart_program_state = some (running n p t) };
      triggered = some (b.driver.opcode, b.driver.write_bank);
      words = words;
    }

    abbrev ended : ReturnCode → (ℕ → ℕ) → World
    ended code words = record b {
      driver = d;
      triggered = none;
      words = words;
      told = told code ∷ b.told;
    }

    abbrev next_words : Reading → (ℕ → ℕ) → ℕ → ℕ
    next_words r words = hw.after r b.driver.opcode b.driver.write_bank b.registers words

    -- What `alarm` makes of the state machine's step.
    abbrev stepped : Reading → (ℕ → ℕ) → SmartProgramState × List Call → Option World
    stepped r words x =
        performed (record b { triggered = none; words = next_words r words })
          (after_step frequency (return_code x.0) x.0 x.1 r
            (record b.driver { smart_program_state = none }))

    alarm_in-again :
        (r : Reading) (n n' : ℕ) (p p' : Bool) (t : ℕ) (words : ℕ → ℕ)
        → step frequency b.driver.opcode b.driver.write_bank (running n p t) r
          ≡ (running n' p' t, begin_pulse frequency b.driver.opcode b.driver.write_bank r.now t)
        → alarm_in frequency hw r (busy n p t words) ≡ some (busy n' p' t (next_words r words))
    unfolding alarm_in alarm step_program acts after_step return_code begin_pulse
        set_program_timeout
    alarm_in-again r n n' p p' t words e = ap (stepped r words) e

    alarm_in-ends :
        (r : Reading) (n : ℕ) (p : Bool) (t : ℕ) (words : ℕ → ℕ) (code : ReturnCode)
        → step frequency b.driver.opcode b.driver.write_bank (running n p t) r
          ≡ (finished code, disarm ∷ [])
        → alarm_in frequency hw r (busy n p t words) ≡ some (ended code (next_words r words))
    unfolding alarm_in alarm step_program acts after_step return_code
    alarm_in-ends r n p t words code e =
        ap (stepped r words) e
        ∙ ap
            (λ x.
              performed (record b { triggered = none; words = next_words r words })
                (elim x [ none ↦ none | some (d', effects) ↦ some (d', called disarm ∷ effects) ]))
            (finishes code r)
        ∙ ap some (tells code _)

    -- The operation has ended in the world `w'`: the client has been told so, once, and the driver
    -- is idle; the words outside are as in `before`, and a success has made those inside `wanted`.
    abbrev HasEnded : (ℕ → ℕ) → (ℕ → ℕ) → Option World → Type 0
    HasEnded before wanted result =
        (code : ReturnCode) × (words : ℕ → ℕ) × (result ≡ some (ended code words))
        × ((i : ℕ)
            → Outside (first_word b.driver.write_bank b.registers)
                (word_count b.driver.opcode b.registers) i
            → words i ≡ before i)
        × (is_success code ≡ true
            → (i : ℕ) → first_word b.driver.write_bank b.registers ≤ i
            → i
              < first_word b.driver.write_bank b.registers + word_count b.driver.opcode b.registers
            → words i ≡ wanted i)

    -- A confirmed operation has the wanted effect.
    abbrev Works : (ℕ → ℕ) → Type 0
    Works wanted =
        (r : Reading) (words : ℕ → ℕ) (i : ℕ)
        → Confirms r
        → first_word b.driver.write_bank b.registers ≤ i
        → i < first_word b.driver.write_bank b.registers + word_count b.driver.opcode b.registers
        → next_words r words i ≡ wanted i

    pub continue-HasEnded :
        (rs : List Reading) (n : ℕ) (p : Bool) (t : ℕ) (words before wanted : ℕ → ℕ)
        → n + pulses p < length rs
        → b.registers.offset + word_count b.driver.opcode b.registers ≤ words_per_bank
        → ((i : ℕ)
            → Outside
                (first_word b.driver.write_bank b.registers)
                (word_count b.driver.opcode b.registers)
                i
            → words i ≡ before i)
        → Works wanted
        → HasEnded before wanted (alarms frequency hw rs (busy n p t words))
    unfolding continue alarms
    continue-HasEnded [] n p t words before wanted h fits kept works = absurd (omega arith)
    continue-HasEnded (r ∷ rs) n p t words before wanted h fits kept works =
        let kept' =
          λ (i : ℕ)
              (o : Outside (first_word b.driver.write_bank b.registers)
                (word_count b.driver.opcode b.registers) i).
            hw.after_outside r b.driver.opcode b.driver.write_bank b.registers words i fits o
            ∙ kept i o in
        elim (step_cases frequency b.driver.opcode b.driver.write_bank n p t r) [
          | inl (n', p', e, less) ↦
              subst (HasEnded before wanted)
                (sym (ap (continue frequency hw rs) (alarm_in-again r n n' p p' t words e)))
                (continue-HasEnded rs n' p' t (next_words r words) before wanted (omega arith) fits
                  kept' works)
          | inr (code, e, confirms) ↦ (
            code,
            next_words r words,
            ap (continue frequency hw rs) (alarm_in-ends r n p t words code e)
                ∙ continue-idle rs (ended code (next_words r words)) idle refl,
            kept',
            λ s i above below. works r words i (confirms s) above below,
          )
        ]
