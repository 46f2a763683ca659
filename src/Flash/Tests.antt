-- ===== src/Flash/Tests.antt =====
-- The theorems of the flash driver at concrete answers of the hardware.
use tock_on_titan.Common.{◌≤◌, ◌≡◌, refl, arith, true, List, [], ◌∷◌}
use tock_on_titan.ReturnCode.{ReturnCode}
use tock_on_titan.Flash.SmartProgram.{bank_zero, finished, Reading, init, run, step}
use tock_on_titan.Flash.SmartProgram.Attempts.{triggers, run_ends, triggers-run}
use tock_on_titan.Flash.SmartProgram.Outcome.{
  confirmations, failure, failing, GivesUp, run-success, run-failing,
}

-- A write: the first attempt fails, the second succeeds, and the final pulse follows.
abbrev answers : List Reading
answers = failure 0 0 ∷ failure 8 1 ∷ failure 0 2 ∷ failure 0 3 ∷ []

run_ends_example :
    (code : ReturnCode) × ((run 256000 0x27182818 bank_zero (init 2 true 52468) answers).0
      ≡ finished code)
run_ends_example =
    run_ends 256000 0x27182818 bank_zero 2 true 52468 answers (omega arith) (omega arith)
      (omega arith)

triggers-run_example : triggers (run 256000 0x27182818 bank_zero (init 2 true 52468) answers).1 ≤ 3
triggers-run_example =
    triggers-run 256000 0x27182818 bank_zero 2 true 52468 answers (omega arith) (omega arith)

run-success_example : 2 ≤ confirmations answers
unfolding run init step
run-success_example = run-success 256000 0x27182818 bank_zero 2 true 52468 answers refl

run-failing_example :
    GivesUp 2 8 (run 256000 0x27182818 bank_zero (init 8 true 52468) (failing 9 2 0))
run-failing_example = run-failing 256000 0x27182818 bank_zero 7 true 52468 2 0 (omega arith) refl
