-- ===== src/H1Syscalls/NvCounterSyscall/Told.antt =====
-- nvcounter_syscall.rs: a process is told how its increment ended.
use tock_on_titan.Common.{
  ℕ, ◌+◌, ◌%◌, ◌^◌, not, List, [], ◌∷◌, ◌++◌, Bool, true, false, ◌&&◌, ◌||◌, some, ◌==◌, ==_iff,
  ◌≡◌, refl, sym, ◌∙◌, subst, if-Holds, if-chosen, if◌then◌else◌,
}
use tock_on_titan.H1Syscalls.Grant.{Grant}
use tock_on_titan.ReturnCode.{
  ReturnCode, success, fail, ebusy, esize, einval, enomem, enosupport, success_with_value, other,
  is_success,
}
use tock_on_titan.H1Syscalls.NvCounterSyscall.{
  AppData, Cells, Scheduled, new_app, NvCounterSyscall, schedule, each, asked, started, start_next,
  is_process, visit, do_next_op, increment_done,
}

-- Whether a callback with this code has been scheduled for this process.
abbrev pub is_told : ℕ → ℕ → List Scheduled → Bool
is_told process code [] = false
is_told process code (x ∷ xs) = (x.process == process && x.code == code) || is_told process code xs

or_later : (a b : Bool) → b ≡ true → (a || b) ≡ true
or_later true b h = refl
or_later false b h = h

or_now : (a b : Bool) → a ≡ true → (a || b) ≡ true
or_now true b h = refl
or_now false b h = cc

both : (a b : Bool) → a ≡ true → b ≡ true → (a && b) ≡ true
both true b h k = k
both false b h k = h

module _ (counter : ℕ → ReturnCode) (grant : Grant new_app) (process code : ℕ) where
  abbrev Tells : Cells → Type 0
  Tells c = is_told process code c.scheduled ≡ true

  schedule-Tells :
      (app : AppData) (k value : ℕ) (c : Cells) → Tells c → Tells (schedule app k value c)
  schedule-Tells app k value c h = if-Holds Tells app.callback _ c (or_later _ _ h) h

  started-Tells :
      (answer : ReturnCode) (app : AppData) (c : Cells)
      → Tells c
      → Tells (started counter grant answer app c).1
  unfolding started
  started-Tells (success_with_value v) app c h = h
  started-Tells success app c h = schedule-Tells app 0 0 c h
  started-Tells fail app c h = schedule-Tells app 0 0 c h
  started-Tells ebusy app c h = schedule-Tells app 0 0 c h
  started-Tells esize app c h = schedule-Tells app 0 0 c h
  started-Tells einval app c h = schedule-Tells app 0 0 c h
  started-Tells enomem app c h = schedule-Tells app 0 0 c h
  started-Tells enosupport app c h = schedule-Tells app 0 0 c h
  started-Tells (other n) app c h = schedule-Tells app 0 0 c h

  started-app :
      (answer : ReturnCode) (app : AppData) (c : Cells)
      → (started counter grant answer app c).0 ≡ app
  unfolding started
  started-app (success_with_value v) app c = refl
  started-app success app c = refl
  started-app fail app c = refl
  started-app ebusy app c = refl
  started-app esize app c = refl
  started-app einval app c = refl
  started-app enomem app c = refl
  started-app enosupport app c = refl
  started-app (other n) app c = refl

  start_next-Tells :
      (app : AppData) (c : Cells) → Tells c → Tells (start_next counter grant app c).1
  unfolding start_next asked
  start_next-Tells app c h =
      if-Holds (λ (r : AppData × Cells). Tells r.1) (not c.op_ongoing && app.wants_increment)
        (started counter grant (counter c.requests) (record app { wants_increment = false })
          (asked counter grant c))
        (app, c) (started-Tells (counter c.requests) _ (asked counter grant c) h) h

  -- Only whether the process waits is changed.
  abbrev Same : AppData → AppData → Type 0
  Same app app' = (app'.appid ≡ app.appid) × (app'.callback ≡ app.callback)

  start_next-Same : (app : AppData) (c : Cells) → Same app (start_next counter grant app c).0
  unfolding start_next
  start_next-Same app c =
      if-Holds (λ (r : AppData × Cells). Same app r.0) _ _ (app, c)
        (subst (Same app) (sym (started-app _ _ _)) (refl, refl)) (refl, refl)

  visit-Tells :
      (app : AppData) (c : Cells)
      → Tells c
      → Tells (visit counter grant (some process) code app c).1
  unfolding visit
  visit-Tells app c h =
      let (app', c') : AppData × Cells = start_next counter grant app c in
      let h' : Tells c' = start_next-Tells app c h in
      if-Holds Tells (is_process counter grant app'.appid (some process))
        (schedule app' code c'.value c') c' (schedule-Tells app' code c'.value c' h') h'

  each-Tells :
      (apps : List AppData) (c : Cells)
      → Tells c
      → Tells (each (visit counter grant (some process) code) apps c).1
  each-Tells [] c h = h
  each-Tells (app ∷ apps) c h = each-Tells apps _ (visit-Tells app c h)

  schedule_told :
      (app : AppData) (value : ℕ) (c : Cells)
      → app.appid ≡ process
      → app.callback ≡ true
      → Tells (schedule app code value c)
  schedule_told app value c p h =
      if-chosen Tells app.callback _ c h
        (or_now _ _ (both _ _ ((==_iff app.appid process).1 p) ((==_iff code code).1 refl)))

  visit_told :
      (app : AppData) (c : Cells)
      → app.appid ≡ process
      → app.callback ≡ true
      → Tells (visit counter grant (some process) code app c).1
  unfolding visit is_process
  visit_told app c p h =
      let (same, called) = start_next-Same app c in
      if-chosen Tells _ _ (start_next counter grant app c).1
        ((==_iff (start_next counter grant app c).0.appid process).1 (same ∙ p))
        (schedule_told (start_next counter grant app c).0 _ _ (same ∙ p) (called ∙ h))

  each_told :
      (before after : List AppData) (app : AppData) (c : Cells)
      → app.appid ≡ process
      → app.callback ≡ true
      → Tells (each (visit counter grant (some process) code) (before ++ (app ∷ after)) c).1
  each_told [] after app c p h = each-Tells after _ (visit_told app c p h)
  each_told (x ∷ before) after app c p h = each_told before after app _ p h

do_next_op_told :
    (counter : ℕ → ReturnCode) (grant : Grant new_app) (process code : ℕ) (s : NvCounterSyscall)
    (before after : List AppData) (app : AppData)
    → s.grant ≡ before ++ (app ∷ after)
    → app.appid ≡ process
    → app.callback ≡ true
    → is_told process code (do_next_op counter grant (some process) code s).cells.scheduled ≡ true
unfolding do_next_op
do_next_op_told counter grant process code s before after app e p h =
    subst
      (λ apps.
        is_told process code
          (each (visit counter grant (some process) code) apps s.cells).1.scheduled
        ≡ true)
      (sym e) (each_told counter grant process code before after app s.cells p h)

-- When the counter says that an increment has ended, and the process whose increment was ongoing
-- has a callback, a callback is scheduled for that process, with code 2 where the increment
-- succeeded and with code 1 where it failed, whatever the counter answers to the requests that are
-- made next.
pub increment_done_told :
    (counter : ℕ → ReturnCode) (grant : Grant new_app) (status : ReturnCode) (s : NvCounterSyscall)
    (before after : List AppData) (app : AppData)
    → s.grant ≡ before ++ (app ∷ after)
    → app.appid ≡ s.cells.current_app
    → app.callback ≡ true
    → is_told s.cells.current_app
        (if is_success status then 2 else 1)
        (increment_done counter grant status s).cells.scheduled
      ≡ true
unfolding increment_done
increment_done_told counter grant status s before after app e p h = go (is_success status)
  where
    go :
        (b : Bool)
        → is_told s.cells.current_app (if b then 2 else 1) (
            let r : NvCounterSyscall =
              if b
              then do_next_op counter grant (some s.cells.current_app) 2 (record s {
                cells = record s.cells { op_ongoing = false; value = (s.cells.value + 1) % 2 ^ 32 };
              })
              else do_next_op counter grant
                  (some s.cells.current_app)
                  1
                  (record s { cells = record s.cells { op_ongoing = false } }) in
            r.cells.scheduled)
          ≡ true
    go true = do_next_op_told counter grant _ 2 _ before after app e p h
    go false = do_next_op_told counter grant _ 1 _ before after app e p h
