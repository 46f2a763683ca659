-- ===== src/Flash/SmartProgram/Outcome.antt =====
-- smart_program.rs: the result of an operation and what the hardware answered.
use tock_on_titan.Common.{
  ℕ, zero, suc, ◌+◌, ◌-◌, ◌%◌, ap, subst, sym, ◌≤◌, ◌<◌, ◌≡◌, refl, arith, Bool, true, false, List,
  [], ◌∷◌, ◌++◌, ltb, ◌==◌, Bool-cases, inl, inr, if◌then◌else◌, bit_and,
}
use tock_on_titan.ReturnCode.{success, is_success}
use tock_on_titan.Flash.SmartProgram.{
  Bank, SmartProgramState, init_state, running, finished, Call, disarm, Reading, init, decode_error,
  set_program_timeout, begin_pulse, step, run,
}
use tock_on_titan.Flash.SmartProgram.Attempts.{pulses, triggers}

-- The readings that confirm a pulse: it is over, and no error is flagged.
abbrev confirms : Reading → ℕ
confirms r = if r.is_programming then 0 else if r.read_error == 0 then 1 else 0

abbrev pub confirmations : List Reading → ℕ
confirmations [] = 0
confirmations (r ∷ rs) = confirms r + confirmations rs

-- The confirmations that success still needs; 2 where it is out of reach.
abbrev needed : SmartProgramState → ℕ
needed (init_state n p t) = 1 + pulses p
needed (running n p t) = 1 + pulses p
needed (finished code) = if is_success code then 0 else 2

pub decode_error_fails : (error : ℕ) → is_success (decode_error error) ≡ false
unfolding decode_error
decode_error_fails error = elim (Bool-cases (bit_and error 2 == 0)) [
  | inl e ↦ rw e refl
  | inr e ↦ rw e refl
]

module _ (frequency opcode : ℕ) (bank : Bank) where
  step-needed :
      (s : SmartProgramState) (r : Reading)
      → needed s ≤ confirms r + needed (step frequency opcode bank s r).0
  unfolding step
  step-needed (init_state n p t) r = omega arith
  step-needed (running n true t) r = ground (arith, decode_error_fails r.read_error)
  step-needed (running n false t) r = ground (arith, decode_error_fails r.read_error)
  step-needed (finished code) r = omega arith

  run-needed :
      (s : SmartProgramState) (rs : List Reading)
      → needed s ≤ confirmations rs + needed (run frequency opcode bank s rs).0
  unfolding run
  run-needed s [] = omega arith
  run-needed s (r ∷ rs) =
      omega (arith, step-needed s r, run-needed (step frequency opcode bank s r).0 rs)

  -- An operation that ends with SUCCESS has been confirmed, with no error flagged and nothing being
  -- programmed, at least once, or twice where a final pulse is needed.
  pub run-success :
      (n : ℕ) (p : Bool) (t : ℕ) (rs : List Reading)
      → (run frequency opcode bank (init n p t) rs).0 ≡ finished success
      → 1 + pulses p ≤ confirmations rs
  unfolding init
  run-success n p t rs e =
      let z : needed (run frequency opcode bank (init_state n p t) rs).0 ≡ 0 = rw e refl in
      omega (arith, run-needed (init_state n p t) rs, z)

-- The error flags `error` as the answer to a step.
abbrev pub failure : ℕ → ℕ → Reading
failure error now = record { is_programming = false; read_error = error; now = now }

-- The same answer at every one of `n` steps.
abbrev pub failing : ℕ → ℕ → ℕ → List Reading
failing zero error now = []
failing (suc n) error now = failure error now ∷ failing n error now

-- The operation ended with the code of the error, after `n` triggers.
abbrev pub GivesUp : ℕ → ℕ → SmartProgramState × List Call → Type 0
GivesUp error n (s, calls) = (s ≡ finished (decode_error error)) × (triggers calls ≡ n)

module _ (frequency opcode : ℕ) (bank : Bank) where
  step_retries :
      (n : ℕ) (p : Bool) (t error now : ℕ)
      → (error == 0) ≡ false
      → step frequency opcode bank (running (suc n) p t) (failure error now)
        ≡ (running n p t, begin_pulse frequency opcode bank now t)
  unfolding step
  step_retries n p t error now e =
      let m : suc n - 1 ≡ n = omega arith in
      let k : ltb 0 (suc n) ≡ true = ground arith in rw (e, k, m)

  step_gives_up :
      (p : Bool) (t error now : ℕ)
      → (error == 0) ≡ false
      → step frequency opcode bank (running 0 p t) (failure error now)
        ≡ (finished (decode_error error), disarm ∷ [])
  unfolding step
  step_gives_up p t error now e = rw e

  run-step :
      (s s' : SmartProgramState) (calls : List Call) (r : Reading) (rs : List Reading)
      → step frequency opcode bank s r ≡ (s', calls)
      → run frequency opcode bank s (r ∷ rs)
        ≡ ((run frequency opcode bank s' rs).0, calls ++ (run frequency opcode bank s' rs).1)
  unfolding run
  run-step s s' calls r rs e =
      ap (λ x. ((run frequency opcode bank x.0 rs).0, x.1 ++ (run frequency opcode bank x.0 rs).1))
        e

  running-failing :
      (n : ℕ) (p : Bool) (t error now : ℕ)
      → (error == 0) ≡ false
      → GivesUp error n (run frequency opcode bank (running n p t) (failing (suc n) error now))
  unfolding run begin_pulse set_program_timeout
  running-failing zero p t error now e =
      subst (GivesUp error zero)
        (sym (run-step _ _ _ (failure error now) [] (step_gives_up p t error now e))) (refl, refl)
  running-failing (suc n) p t error now e =
      let (a, b) = running-failing n p t error now e in
      subst (GivesUp error (suc n))
        (sym (
          run-step _ _ _ (failure error now) (failing (suc n) error now)
            (step_retries n p t error now e)))
        (a, omega (arith, b))

  -- An operation whose every attempt, of 1 to 255, fails with the same error is attempted exactly
  -- that often, without a final pulse, and ends with the code of that error.
  pub run-failing :
      (n : ℕ) (p : Bool) (t error now : ℕ)
      → n < 255
      → (error == 0) ≡ false
      → GivesUp error
          (suc n)
          (run frequency opcode bank (init (suc n) p t) (failing (suc (suc n)) error now))
  unfolding init step begin_pulse set_program_timeout
  run-failing n p t error now h e =
      let k : (suc n + 255) % 256 ≡ n = omega arith in
      let (a, b) = running-failing n p t error now e in
      subst (GivesUp error (suc n))
        (sym (
          run-step _ _ _ (failure error now) (failing (suc n) error now)
            (ap (λ m. (running m p t, begin_pulse frequency opcode bank now t)) k)))
        (a, omega (arith, b))
