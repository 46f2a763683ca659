-- ===== src/Flash/SmartProgram/Attempts.antt =====
-- smart_program.rs: the attempts and the steps of an operation.
use tock_on_titan.Common.{
  ℕ, suc, ◌+◌, ◌-◌, ◌≤◌, ◌<◌, ◌≡◌, refl, arith, Bool, true, false, List, [], ◌∷◌, ◌++◌, length,
}
use tock_on_titan.ReturnCode.{ReturnCode}
use tock_on_titan.Flash.SmartProgram.{
  Bank, SmartProgramState, init_state, running, finished, Call, trigger, set_alarm, disarm, Reading,
  init, set_program_timeout, begin_pulse, step, run,
}

abbrev pub pulses : Bool → ℕ
pulses true = 1
pulses false = 0

-- The pulses that may still come, and the steps until the end.
abbrev pulses_left : SmartProgramState → ℕ
pulses_left (init_state n p t) = n + pulses p
pulses_left (running n p t) = n + pulses p
pulses_left (finished code) = 0

abbrev steps_left : SmartProgramState → ℕ
steps_left (init_state n p t) = n + pulses p + 1
steps_left (running n p t) = n + pulses p + 1
steps_left (finished code) = 0

abbrev pub triggers : List Call → ℕ
triggers [] = 0
triggers (trigger opcode bank ∷ cs) = suc (triggers cs)
triggers (set_alarm now ticks ∷ cs) = triggers cs
triggers (disarm ∷ cs) = triggers cs

triggers-append : (cs ds : List Call) → triggers (cs ++ ds) ≡ triggers cs + triggers ds
triggers-append [] ds = omega arith
triggers-append (trigger opcode bank ∷ cs) ds = omega (arith, triggers-append cs ds)
triggers-append (set_alarm now ticks ∷ cs) ds = triggers-append cs ds
triggers-append (disarm ∷ cs) ds = triggers-append cs ds

abbrev IsValid : SmartProgramState → Type 0
IsValid (init_state n p t) = (0 < n) × (n < 256)
IsValid _ = Unit {0}

module _ (frequency opcode : ℕ) (bank : Bank) where
  step-steps_left :
      (s : SmartProgramState) (r : Reading)
      → IsValid s
      → steps_left (step frequency opcode bank s r).0 ≤ steps_left s - 1
  unfolding step
  step-steps_left (init_state n p t) r (a, b) = omega arith
  step-steps_left (running n true t) r v = ground arith
  step-steps_left (running n false t) r v = ground arith
  step-steps_left (finished code) r v = omega arith

  step-pulses_left :
      (s : SmartProgramState) (r : Reading)
      → IsValid s
      → triggers (step frequency opcode bank s r).1 + pulses_left (step frequency opcode bank s r).0
        ≤ pulses_left s
  unfolding step begin_pulse set_program_timeout
  step-pulses_left (init_state n p t) r (a, b) = omega arith
  step-pulses_left (running n true t) r v = ground arith
  step-pulses_left (running n false t) r v = ground arith
  step-pulses_left (finished code) r v = omega arith

  step-IsValid : (s : SmartProgramState) (r : Reading) → IsValid (step frequency opcode bank s r).0
  unfolding step
  step-IsValid (init_state n p t) r = tt
  step-IsValid (running n true t) r = ground arith
  step-IsValid (running n false t) r = ground arith
  step-IsValid (finished code) r = tt

  run_finished :
      (s : SmartProgramState) (rs : List Reading)
      → IsValid s
      → steps_left s ≤ length rs
      → (code : ReturnCode) × ((run frequency opcode bank s rs).0 ≡ finished code)
  unfolding run
  run_finished (init_state n p t) [] v h = absurd (omega arith)
  run_finished (running n p t) [] v h = absurd (omega arith)
  run_finished (finished code) [] v h = (code, refl)
  run_finished s (r ∷ rs) v h =
      run_finished (step frequency opcode bank s r).0 rs (step-IsValid s r)
        (omega (arith, step-steps_left s r v))

  run-pulses_left :
      (s : SmartProgramState) (rs : List Reading)
      → IsValid s
      → triggers (run frequency opcode bank s rs).1 + pulses_left (run frequency opcode bank s rs).0
        ≤ pulses_left s
  unfolding run
  run-pulses_left s [] v = omega arith
  run-pulses_left s (r ∷ rs) v = omega (
    arith,
    step-pulses_left s r v,
    run-pulses_left (step frequency opcode bank s r).0 rs (step-IsValid s r),
    triggers-append (step frequency opcode bank s r).1
        (run frequency opcode bank (step frequency opcode bank s r).0 rs).1,
  )

  -- Whatever the hardware answers, an operation with 1 to 255 attempts has ended after one step more
  -- than its attempts and its final pulse.
  pub run_ends :
      (n : ℕ) (p : Bool) (t : ℕ) (rs : List Reading)
      → 0 < n
      → n < 256
      → n + pulses p + 1 ≤ length rs
      → (code : ReturnCode) × ((run frequency opcode bank (init n p t) rs).0 ≡ finished code)
  unfolding init
  run_ends n p t rs a b h = run_finished (init_state n p t) rs (a, b) h

  -- However often it is stepped, and whatever the hardware answers, an operation with 1 to 255
  -- attempts triggers the hardware at most once per attempt and once for the final pulse.
  pub triggers-run :
      (n : ℕ) (p : Bool) (t : ℕ) (rs : List Reading)
      → 0 < n
      → n < 256
      → triggers (run frequency opcode bank (init n p t) rs).1 ≤ n + pulses p
  unfolding init
  triggers-run n p t rs a b = omega (arith, run-pulses_left (init_state n p t) rs (a, b))
