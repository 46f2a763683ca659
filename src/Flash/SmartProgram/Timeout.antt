-- ===== src/Flash/SmartProgram/Timeout.antt =====
-- smart_program.rs: the alarm of an attempt.
use tock_on_titan.Common.{ℕ, ◌+◌, ◌*◌, ◌^◌, ◌≤◌, ◌<◌, ◌≡◌, ◌-◌, refl, arith}
use tock_on_titan.Flash.SmartProgram.{set_alarm, div_round_up, set_program_timeout}

-- Where the ticks of a timeout fit in 32 bits, the alarm is set to the least number of ticks that
-- lasts, at the frequency of the alarm, at least the nanoseconds of the timeout.
pub set_program_timeout_lem :
    (frequency now nanoseconds : ℕ)
    → frequency * nanoseconds ≤ (2 ^ 32 - 1) * 1000000000
    → (ticks : ℕ) × (set_program_timeout frequency now nanoseconds ≡ set_alarm now ticks)
      × (frequency * nanoseconds ≤ ticks * 1000000000)
      × (ticks * 1000000000 < frequency * nanoseconds + 1000000000)
unfolding set_program_timeout div_round_up
set_program_timeout_lem frequency now nanoseconds h = (_, refl, ground arith, ground arith)
