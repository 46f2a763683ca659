-- ===== src/H1Syscalls/NvCounterSyscall/Waiting.antt =====
-- nvcounter_syscall.rs: no process waits while nothing is ongoing.
use tock_on_titan.Common.{
  some, ℕ, zero, suc, List, [], ◌∷◌, Bool, true, false, not, ◌&&◌, Option, none, ◌≡◌, refl, sym,
  ◌∙◌, if-Holds, Bool-cases, inl, inr, All, All-append, All-split, subst, ap, if◌then◌else◌,
}
use tock_on_titan.H1Syscalls.Grant.{Grant, entered, enter}
use tock_on_titan.ReturnCode.{
  ReturnCode, success, fail, ebusy, esize, einval, enomem, enosupport, success_with_value, other,
  is_success,
}
use tock_on_titan.H1Syscalls.NvCounterSyscall.{
  AppData, Cells, new_app, NvCounterSyscall, new_syscall, schedule, each, fail_app,
  handle_failed_init, initialize, asked, started, start_next, visit, do_next_op, check_waiting,
  increment_now, read_and_increment, set_increment_callback, command, subscribe, initialize_done,
  increment_done,
}
use tock_on_titan.H1Syscalls.NvCounterSyscall.Events.{
  Event, initialized, commanded, subscribed, told_initialize_done, told_increment_done, step_event,
  steps,
}

abbrev Idle : AppData → Type 0
Idle app = app.wants_increment ≡ false

abbrev NoneWaits : List AppData → Type 0
NoneWaits = All Idle

pub record IsServed (s : NvCounterSyscall) : Type 0 where
  pub served : s.cells.op_ongoing ≡ false → NoneWaits s.grant

schedule-ongoing :
    (app : AppData) (code value : ℕ) (c : Cells)
    → (schedule app code value c).op_ongoing ≡ c.op_ongoing
schedule-ongoing app code value c = elim (Bool-cases app.callback) [
  | inl b ↦ rw b refl
  | inr b ↦ rw b refl
]

-- By the value of a flag.
failed_or_not :
    (app : AppData) (c d : Cells) (b : Bool)
    → app.wants_increment ≡ b
    → (let r : AppData × Cells =
          if b then (record app { wants_increment = false }, d) else (app, c) in
        r.0.wants_increment ≡ false)
failed_or_not app c d true e = refl
failed_or_not app c d false e = e

fail_app-waits : (app : AppData) (c : Cells) → (fail_app app c).0.wants_increment ≡ false
unfolding fail_app
fail_app-waits app c = failed_or_not app c _ app.wants_increment refl

each-fail_app : (apps : List AppData) (c : Cells) → NoneWaits (each fail_app apps c).0
each-fail_app [] c = tt
each-fail_app (app ∷ apps) c = (fail_app-waits app c, each-fail_app apps (fail_app app c).1)

handle_failed_init-IsServed : (s : NvCounterSyscall) → IsServed (handle_failed_init s)
unfolding handle_failed_init
handle_failed_init-IsServed s = record { served = λ e. each-fail_app s.grant _ }

initialize-IsServed :
    (answer : ReturnCode) (s : NvCounterSyscall) → IsServed s → IsServed (initialize answer s)
unfolding initialize
initialize-IsServed answer s p =
    if-Holds IsServed (is_success answer) _ _ p (handle_failed_init-IsServed s)

-- What a visit leaves where nothing is ongoing after it: the process does not wait, and nothing was
-- ongoing before.
abbrev Visited : Cells → AppData × Cells → Type 0
Visited c r = r.1.op_ongoing ≡ false → (r.0.wants_increment ≡ false) × (c.op_ongoing ≡ false)

module _ (counter : ℕ → ReturnCode) (grant : Grant new_app) where
  started-Visited :
      (code : ReturnCode) (app : AppData) (c d : Cells)
      → app.wants_increment ≡ false
      → c.op_ongoing ≡ false
      → Visited c (started counter grant code app d)
  unfolding started
  started-Visited (success_with_value v) app c d w o e = (w, o)
  started-Visited success app c d w o e = (w, o)
  started-Visited fail app c d w o e = (w, o)
  started-Visited ebusy app c d w o e = (w, o)
  started-Visited esize app c d w o e = (w, o)
  started-Visited einval app c d w o e = (w, o)
  started-Visited enomem app c d w o e = (w, o)
  started-Visited enosupport app c d w o e = (w, o)
  started-Visited (other n) app c d w o e = (w, o)

  start_or_not :
      (app : AppData) (c : Cells) (o w : Bool)
      → c.op_ongoing ≡ o
      → app.wants_increment ≡ w
      → Visited c (
          if not o && w
          then started counter grant
              (counter c.requests)
              (record app { wants_increment = false })
              (asked counter grant c)
          else (app, c))
  start_or_not app c true w eo ew e = absurd cc
  start_or_not app c false true eo ew e = started-Visited (counter c.requests) _ c _ refl eo e
  start_or_not app c false false eo ew e = (ew, eo)

  start_next-Visited : (app : AppData) (c : Cells) → Visited c (start_next counter grant app c)
  unfolding start_next
  start_next-Visited app c = start_or_not app c c.op_ongoing app.wants_increment refl refl

  told_or_not :
      (b : Bool) (app : AppData) (code : ℕ) (c d : Cells)
      → d.op_ongoing ≡ c.op_ongoing
      → (if b then d else c).op_ongoing ≡ c.op_ongoing
  told_or_not true app code c d e = e
  told_or_not false app code c d e = refl

  visit-Visited :
      (id : Option ℕ) (code : ℕ) (app : AppData) (c : Cells)
      → Visited c (visit counter grant id code app c)
  unfolding visit
  visit-Visited id code app c e = start_next-Visited app c (
      sym
        (told_or_not _ app code _ _ (schedule-ongoing (start_next counter grant app c).0 code _ _))
      ∙ e)

  each-visit :
      (id : Option ℕ) (code : ℕ) (apps : List AppData) (c : Cells)
      → (each (visit counter grant id code) apps c).1.op_ongoing ≡ false
      → NoneWaits (each (visit counter grant id code) apps c).0 × (c.op_ongoing ≡ false)
  each-visit id code [] c e = (tt, e)
  each-visit id code (app ∷ apps) c e =
      let (rest, o) = each-visit id code apps (visit counter grant id code app c).1 e in
      let (w, o') = visit-Visited id code app c o in ((w, rest), o')

  do_next_op-IsServed :
      (id : Option ℕ) (code : ℕ) (s : NvCounterSyscall)
      → IsServed (do_next_op counter grant id code s)
  unfolding do_next_op
  do_next_op-IsServed id code s = record { served = λ e. (each-visit id code s.grant s.cells e).0 }

  initialize_done-IsServed :
      (status : ReturnCode) (s : NvCounterSyscall)
      → IsServed (initialize_done counter grant status s)
  unfolding initialize_done
  initialize_done-IsServed status s =
      if-Holds IsServed (is_success status) _ _ (do_next_op-IsServed none 0 _)
        (handle_failed_init-IsServed s)

  increment_done-IsServed :
      (status : ReturnCode) (s : NvCounterSyscall)
      → IsServed (increment_done counter grant status s)
  unfolding increment_done
  increment_done-IsServed status s =
      if-Holds IsServed (is_success status) _ _ (do_next_op-IsServed _ 2 _)
        (do_next_op-IsServed _ 1 _)

  -- A closure that leaves the flag of a process as it finds it.
  abbrev KeepsWaiting : (AppData → ReturnCode × AppData) → Type 0
  KeepsWaiting f = (app : AppData) → (f app).1.wants_increment ≡ app.wants_increment

  entered-NoneWaits :
      (app : ℕ) (f : AppData → ReturnCode × AppData) (apps : List AppData)
      (o : Option (List AppData × AppData × List AppData))
      → grant.opened app apps ≡ o
      → KeepsWaiting f
      → NoneWaits apps
      → NoneWaits (entered enomem f apps o).1
  unfolding entered
  entered-NoneWaits app f apps none e k p = p
  entered-NoneWaits app f apps (some (before, entry, after)) e k p =
      elim (grant.opened_lem app apps before after entry e) [
        | inl q ↦
            let (b, (w, a)) = All-split Idle before (entry ∷ after) (subst NoneWaits q p) in
            All-append Idle before _ b (k entry ∙ w, a)
        | inr (q, d) ↦
            let (b, a) = All-split Idle before after (subst NoneWaits q p) in
            All-append Idle before _ b (k entry ∙ ap (λ x. x.wants_increment) d, a)
      ]

  enter-NoneWaits :
      (app : ℕ) (f : AppData → ReturnCode × AppData) (apps : List AppData)
      → KeepsWaiting f
      → NoneWaits apps
      → NoneWaits (enter grant enomem app f apps).1
  unfolding enter
  enter-NoneWaits app f apps k p = entered-NoneWaits app f apps (grant.opened app apps) refl k p

  increment_now-IsServed :
      (code : ReturnCode) (app : ℕ) (s : NvCounterSyscall)
      → IsServed s
      → IsServed (increment_now counter grant code app s).1
  unfolding increment_now
  increment_now-IsServed (success_with_value v) app s p = record { served = λ e. absurd cc }
  increment_now-IsServed success app s p = p
  increment_now-IsServed fail app s p = p
  increment_now-IsServed ebusy app s p = p
  increment_now-IsServed esize app s p = p
  increment_now-IsServed einval app s p = p
  increment_now-IsServed enomem app s p = p
  increment_now-IsServed enosupport app s p = p
  increment_now-IsServed (other n) app s p = p

  -- By whether an increment is ongoing: then any process may wait.
  waiting_or_now :
      (o : Bool) (s : NvCounterSyscall) (w r : ReturnCode × NvCounterSyscall)
      → (o ≡ true → w.1.cells.op_ongoing ≡ true)
      → IsServed r.1
      → (let x : ReturnCode × NvCounterSyscall = if o then w else r in IsServed x.1)
  waiting_or_now true s w r k p = let e' = k refl in record { served = λ e. absurd cc }
  waiting_or_now false s w r k p = p

  read_and_increment-IsServed :
      (app : ℕ) (s : NvCounterSyscall)
      → IsServed s
      → IsServed (read_and_increment counter grant app s).1
  unfolding read_and_increment check_waiting asked
  read_and_increment-IsServed app s p =
      if-Holds (λ (r : ReturnCode × NvCounterSyscall). IsServed r.1) s.cells.init_failed _ _ p
        (if-Holds (λ (r : ReturnCode × NvCounterSyscall). IsServed r.1) _ _ _
          (waiting_or_now s.cells.op_ongoing s _ _ (λ o. o)
            (increment_now-IsServed _ app _ (record { served = λ e. checked (p.served e) })))
          (record { served = λ e. checked (p.served e) }))
    where
      checked :
          NoneWaits s.grant
          → NoneWaits (enter grant enomem app (check_waiting counter grant) s.grant).1
      checked w = enter-NoneWaits app (check_waiting counter grant) s.grant (λ entry. refl) w

  set_increment_callback-IsServed :
      (callback : Bool) (app : ℕ) (s : NvCounterSyscall)
      → IsServed s
      → IsServed (set_increment_callback counter grant callback app s).1
  unfolding set_increment_callback
  set_increment_callback-IsServed callback app s p = record {
    served = λ e.
        enter-NoneWaits app (λ entry. (success, record entry { callback = callback })) s.grant
          (λ entry. refl) (p.served e);
  }

  command-IsServed :
      (n app : ℕ) (s : NvCounterSyscall) → IsServed s → IsServed (command counter grant n app s).1
  unfolding command
  command-IsServed zero app s p = p
  command-IsServed (suc zero) app s p = read_and_increment-IsServed app s p
  command-IsServed (suc (suc n)) app s p = p

  subscribe-IsServed :
      (n : ℕ) (callback : Bool) (app : ℕ) (s : NvCounterSyscall)
      → IsServed s
      → IsServed (subscribe counter grant n callback app s).1
  unfolding subscribe
  subscribe-IsServed zero callback app s p = set_increment_callback-IsServed callback app s p
  subscribe-IsServed (suc n) callback app s p = p

  step_event-IsServed :
      (e : Event) (s : NvCounterSyscall) → IsServed s → IsServed (step_event counter grant e s)
  unfolding step_event
  step_event-IsServed (initialized answer) s p = initialize-IsServed answer s p
  step_event-IsServed (commanded n app) s p = command-IsServed n app s p
  step_event-IsServed (subscribed n callback app) s p = subscribe-IsServed n callback app s p
  step_event-IsServed (told_initialize_done status) s p = initialize_done-IsServed status s
  step_event-IsServed (told_increment_done status) s p = increment_done-IsServed status s

  steps-keeps :
      (es : List Event) (s : NvCounterSyscall) → IsServed s → IsServed (steps counter grant es s)
  unfolding steps
  steps-keeps [] s p = p
  steps-keeps (e ∷ es) s p = steps-keeps es _ (step_event-IsServed e s p)

-- After any sequence of calls of the driver, by the board, by processes and by the counter, in
-- whatever order and whatever the counter answers: while no increment is ongoing, no process
-- waits for one.
pub steps-IsServed :
    (counter : ℕ → ReturnCode) (grant : Grant new_app) (es : List Event)
    → IsServed (steps counter grant es new_syscall)
unfolding new_syscall
steps-IsServed counter grant es =
    steps-keeps counter grant es new_syscall (record { served = λ e. tt })
