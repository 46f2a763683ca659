-- ===== src/H1Syscalls/Tests.antt =====
-- nvcounter_syscall.rs on concrete calls.
use tock_on_titan.Common.{ℕ, List, [], ◌∷◌, true, false, ◌≡◌, refl, if◌then◌else◌, ltb, ◌+◌}
use tock_on_titan.H1Syscalls.Grant.{Grant}
use tock_on_titan.H1Syscalls.ListGrant.{in_list, opened_in_list}
use tock_on_titan.ReturnCode.{ReturnCode, success, ebusy, success_with_value}
use tock_on_titan.H1Syscalls.NvCounterSyscall.{
  new_app, NvCounterSyscall, new_syscall, initialize, command, subscribe, read_and_increment,
  initialize_done, increment_done, do_next_op,
}
use tock_on_titan.H1Syscalls.NvCounterSyscall.Events.{
  Event, initialized, commanded, subscribed, told_initialize_done, told_increment_done, step_event,
  steps,
}
use tock_on_titan.H1Syscalls.NvCounterSyscall.Told.{is_told, increment_done_told}
use tock_on_titan.H1Syscalls.NvCounterSyscall.Waiting.{IsServed, steps-IsServed}

-- The first three requests start at 7, 8 and 9; the counter is busy after that.
abbrev counting : ℕ → ReturnCode
counting n = if ltb n 3 then success_with_value (7 + n) else ebusy

abbrev with_memory : Grant new_app
with_memory = in_list (λ app. app.appid) new_app

-- Processes 1 and 2 ask for a callback and both ask for an increment; the counter then finishes.
abbrev two_processes : List Event
two_processes =
    initialized success
    ∷ told_initialize_done success
    ∷ subscribed 0 true 1
    ∷ subscribed 0 true 2
    ∷ commanded 1 1
    ∷ commanded 1 2
    ∷ told_increment_done success
    ∷ []

-- Process 1 is told that its increment gave 8.
served_in_turn :
    (steps counting with_memory two_processes new_syscall).cells.scheduled
    ≡ record { process = 1; code = 2; result = 8 } ∷ []
unfolding steps step_event new_syscall opened_in_list initialize subscribe command
    read_and_increment initialize_done increment_done do_next_op
served_in_turn = refl

-- The increment of process 2 has been started then.
next_is_started : (steps counting with_memory two_processes new_syscall).cells.current_app ≡ 2
unfolding steps step_event new_syscall opened_in_list initialize subscribe command
    read_and_increment initialize_done increment_done do_next_op
next_is_started = refl

abbrev first_ongoing : NvCounterSyscall
first_ongoing = steps counting with_memory (commanded 1 1 ∷ []) new_syscall

-- A process whose increment is ongoing may ask for a second one, and is refused the third.
second_accepted : (command counting with_memory 1 1 first_ongoing).0 ≡ success
unfolding steps step_event new_syscall opened_in_list command read_and_increment
second_accepted = refl

third_refused :
    (command counting with_memory 1 1 (command counting with_memory 1 1 first_ongoing).1).0 ≡ ebusy
unfolding steps step_event new_syscall opened_in_list command read_and_increment
third_refused = refl

steps-IsServed_example : IsServed (steps counting with_memory two_processes new_syscall)
steps-IsServed_example = steps-IsServed counting with_memory two_processes

-- The increment of process 1 is ongoing, and process 2, which comes before it, waits.
abbrev second_waits : NvCounterSyscall
second_waits = record {
  cells = record {
    op_ongoing = true;
    current_app = 1;
    init_failed = false;
    value = 7;
    requests = 1;
    scheduled = [];
  };
  grant =
      record { appid = 2; wants_increment = true; callback = true }
      ∷ record { appid = 1; wants_increment = false; callback = true }
      ∷ [];
}

increment_done_told_example :
    is_told 1 2 (increment_done counting with_memory success second_waits).cells.scheduled ≡ true
increment_done_told_example =
    increment_done_told counting with_memory success second_waits
      (record { appid = 2; wants_increment = true; callback = true } ∷ []) []
      (record { appid = 1; wants_increment = false; callback = true }) refl refl refl
