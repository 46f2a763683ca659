-- ===== src/Flash/SmartProgram.antt =====
-- kernel/h1/src/hil/flash/smart_program.rs: the state machine that runs one flash operation. The
-- hardware and the alarm are the calls made to them, in order, and what they answer.
pub mod Attempts
pub mod Outcome
pub mod Timeout
use tock_on_titan.Common.{
  ℕ, ◌+◌, ◌-◌, ◌*◌, ◌/◌, ◌%◌, ◌^◌, bit_and, Bool, true, false, List, [], ◌∷◌, ◌++◌, Option, none,
  some, ltb, ◌==◌, if◌then◌else◌,
}
use tock_on_titan.ReturnCode.{ReturnCode, success, fail, esize}

-- `Bank` of hardware.rs.
pub data Bank : Type 0 where
  bank_zero bank_one : Bank

-- The arguments of `Init` and `Running` are the attempts that remain, whether a final pulse is
-- needed, and the timeout in nanoseconds.
pub data SmartProgramState : Type 0 where
  init_state running : ℕ → Bool → ℕ → SmartProgramState
  finished : ReturnCode → SmartProgramState

-- `hw.trigger`, `alarm.set_alarm` and `alarm.disarm`.
pub data Call : Type 0 where
  trigger : ℕ → Bank → Call
  set_alarm : ℕ → ℕ → Call
  disarm : Call

-- What `hw.is_programming()`, `hw.read_error()` and `alarm.now()` answer during one step.
pub record Reading : Type 0 where
  pub is_programming : Bool
  pub read_error : ℕ
  pub now : ℕ

unfoldable pub init : ℕ → Bool → ℕ → SmartProgramState
init max_attempts final_pulse_needed timeout_nanoseconds =
    init_state max_attempts final_pulse_needed timeout_nanoseconds

unfoldable pub return_code : SmartProgramState → Option ReturnCode
return_code (finished code) = some code
return_code _ = none

unfoldable pub decode_error : ℕ → ReturnCode
decode_error error_flags = if bit_and error_flags 2 == 0 then fail else esize

unfoldable pub div_round_up : ℕ → ℕ → ℕ
div_round_up numerator denominator =
    numerator / denominator + (if numerator % denominator == 0 then 0 else 1)

-- `frequency` is that of the alarm.
unfoldable pub set_program_timeout : ℕ → ℕ → ℕ → Call
set_program_timeout frequency now timeout_nanoseconds =
    set_alarm now (div_round_up (frequency * timeout_nanoseconds) 1000000000 % 2 ^ 32)

module _ (frequency opcode : ℕ) (bank : Bank) where
  unfoldable pub begin_pulse : ℕ → ℕ → List Call
  begin_pulse now timeout = trigger opcode bank ∷ set_program_timeout frequency now timeout ∷ []

  -- The attempts are of type u8, and `attempts_remaining - 1` wraps.
  unfoldable pub step : SmartProgramState → Reading → SmartProgramState × List Call
  step (init_state attempts_remaining final_pulse timeout) r =
      (running ((attempts_remaining + 255) % 256) final_pulse timeout, begin_pulse r.now timeout)
  step (running attempts_remaining final_pulse timeout) r =
      if r.is_programming
      then (finished fail, disarm ∷ [])
      else if r.read_error == 0
      then (if final_pulse
          then (running 0 false timeout, begin_pulse r.now timeout)
          else (finished success, disarm ∷ []))
      else if ltb 0 attempts_remaining
      then (running (attempts_remaining - 1) final_pulse timeout, begin_pulse r.now timeout)
      else (finished (decode_error r.read_error), disarm ∷ [])
  step (finished code) r = (finished code, [])

  -- A step at each alarm, with what the hardware answers then.
  unfoldable pub run : SmartProgramState → List Reading → SmartProgramState × List Call
  run s [] = (s, [])
  run s (r ∷ rs) = let (s', calls) = step s r in let (s'', more) = run s' rs in (s'', calls ++ more)
