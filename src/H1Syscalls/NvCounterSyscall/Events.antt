-- ===== src/H1Syscalls/NvCounterSyscall/Events.antt =====
-- nvcounter_syscall.rs: its entry points, called one after the other.
use tock_on_titan.Common.{ℕ, List, [], ◌∷◌, Bool}
use tock_on_titan.H1Syscalls.Grant.{Grant}
use tock_on_titan.ReturnCode.{ReturnCode}
use tock_on_titan.H1Syscalls.NvCounterSyscall.{
  new_app, NvCounterSyscall, initialize, command, subscribe, initialize_done, increment_done,
}

-- A call by the board (`initialize`), a process or the counter.
pub data Event : Type 0 where
  initialized : ReturnCode → Event
  commanded : ℕ → ℕ → Event
  subscribed : ℕ → Bool → ℕ → Event
  told_initialize_done told_increment_done : ReturnCode → Event

module _ (counter : ℕ → ReturnCode) (grant : Grant new_app) where
  unfoldable pub step_event : Event → NvCounterSyscall → NvCounterSyscall
  step_event (initialized answer) s = initialize answer s
  step_event (commanded n app) s = (command counter grant n app s).1
  step_event (subscribed n callback app) s = (subscribe counter grant n callback app s).1
  step_event (told_initialize_done status) s = initialize_done counter grant status s
  step_event (told_increment_done status) s = increment_done counter grant status s

  unfoldable pub steps : List Event → NvCounterSyscall → NvCounterSyscall
  steps [] s = s
  steps (e ∷ es) s = steps es (step_event e s)
