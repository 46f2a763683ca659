-- ===== src/H1Syscalls/NvCounterSyscall.antt =====
-- kernel/h1_syscalls/src/nvcounter_syscall.rs: the counter, offered to processes.
-- A process is its identifier. The data of the processes that have some are a list, in the order in
-- which the kernel visits them.
pub mod Events
pub mod Told
pub mod Waiting
use tock_on_titan.Common.{
  ℕ, zero, suc, ◌+◌, ◌%◌, ◌^◌, List, [], ◌∷◌, ◌++◌, Bool, true, false, not, ◌&&◌, Option, none,
  some, ◌==◌, ◌≡◌, ◌⊎◌, if◌then◌else◌,
}
use tock_on_titan.H1Syscalls.Grant.{Grant, entered, enter}
use tock_on_titan.ReturnCode.{
  ReturnCode, success, fail, ebusy, enomem, enosupport, success_with_value, is_success,
}

-- `callback` is whether the process has one.
pub record AppData : Type 0 where
  pub appid : ℕ
  pub wants_increment : Bool
  pub callback : Bool

-- A callback that has been scheduled: the process and the first two arguments; the third is 0.
pub record Scheduled : Type 0 where
  pub process : ℕ
  pub code : ℕ
  pub result : ℕ

-- The cells of the driver, the number of calls of `read_and_increment` that it has made to the
-- counter, and the callbacks scheduled, newest first.
pub record Cells : Type 0 where
  pub op_ongoing : Bool
  pub current_app : ℕ
  pub init_failed : Bool
  pub value : ℕ
  pub requests : ℕ
  pub scheduled : List Scheduled

pub record NvCounterSyscall : Type 0 where
  pub cells : Cells
  pub grant : List AppData

unfoldable pub new_syscall : NvCounterSyscall
new_syscall = record {
  cells = record {
    op_ongoing = false;
    current_app = 0;
    init_failed = false;
    value = 0;
    requests = 0;
    scheduled = [];
  };
  grant = [];
}

-- `if let Some(mut callback) = app_data.callback { callback.schedule(code, value, 0); }`
abbrev pub schedule : AppData → ℕ → ℕ → Cells → Cells
schedule app code value c =
    if app.callback
    then record c {
      scheduled = record { process = app.appid; code = code; result = value } ∷ c.scheduled;
    }
    else c

-- `self.grant.each(..)`
abbrev pub each : (AppData → Cells → AppData × Cells) → List AppData → Cells → List AppData × Cells
each visit [] c = ([], c)
each visit (app ∷ apps) c =
    let (app', c') = visit app c in let (apps', c'') = each visit apps c' in (app' ∷ apps', c'')

abbrev pub each_app : (AppData → Cells → AppData × Cells) → NvCounterSyscall → NvCounterSyscall
each_app visit s = let (apps, c) = each visit s.grant s.cells in record { cells = c; grant = apps }

fail_app : AppData → Cells → AppData × Cells
fail_app app c =
    if app.wants_increment
    then (record app { wants_increment = false }, schedule app 0 0 c)
    else (app, c)

unfoldable pub handle_failed_init : NvCounterSyscall → NvCounterSyscall
unfolding fail_app
handle_failed_init s =
    each_app fail_app (record s { cells = record s.cells { init_failed = true } })

-- `initialize`, by what the counter answers.
unfoldable pub initialize : ReturnCode → NvCounterSyscall → NvCounterSyscall
initialize answer s = if is_success answer then s else handle_failed_init s

-- The data of a process that is entered for the first time.
abbrev pub new_app : ℕ → AppData
new_app app = record { appid = app; wants_increment = false; callback = false }

-- What `counter` answers may depend on how often it has been asked.
module _ (counter : ℕ → ReturnCode) (grant : Grant new_app) where
  -- `self.nvcounter.read_and_increment()`
  asked : Cells → Cells
  asked c = record c { requests = c.requests + 1 }

  started : ReturnCode → AppData → Cells → AppData × Cells
  started (success_with_value value) app c =
      (app, record c { value = value; op_ongoing = true; current_app = app.appid })
  started _ app c = (app, schedule app 0 0 c)

  -- Starts the increment that this process waits for, where nothing is ongoing.
  start_next : AppData → Cells → AppData × Cells
  unfolding asked started
  start_next app c =
      if not c.op_ongoing && app.wants_increment
      then started (counter c.requests) (record app { wants_increment = false }) (asked c)
      else (app, c)

  is_process : ℕ → Option ℕ → Bool
  is_process appid none = false
  is_process appid (some callback_id) = appid == callback_id

  visit : Option ℕ → ℕ → AppData → Cells → AppData × Cells
  unfolding start_next is_process
  visit callback_id callback_code app c =
      let (app', c') = start_next app c in
      (
        app',
        if is_process app'.appid callback_id then schedule app' callback_code c'.value c' else c',
      )

  unfoldable pub do_next_op : Option ℕ → ℕ → NvCounterSyscall → NvCounterSyscall
  unfolding visit
  do_next_op callback_id callback_code s = each_app (visit callback_id callback_code) s

  check_waiting : AppData → ReturnCode × AppData
  check_waiting entry = (if entry.wants_increment then ebusy else success, entry)

  mark_waiting : AppData → ReturnCode × AppData
  mark_waiting entry = (success, record entry { wants_increment = true })

  -- Nothing is ongoing, so the counter is asked.
  increment_now : ReturnCode → ℕ → NvCounterSyscall → ReturnCode × NvCounterSyscall
  increment_now (success_with_value value) app s = (
    success,
    record s { cells = record s.cells { value = value; op_ongoing = true; current_app = app } },
  )
  increment_now _ app s = (fail, s)

  unfoldable pub read_and_increment : ℕ → NvCounterSyscall → ReturnCode × NvCounterSyscall
  unfolding enter entered check_waiting mark_waiting increment_now asked
  read_and_increment app s =
      if s.cells.init_failed
      then (fail, s)
      else (let (result, apps) = enter grant enomem app check_waiting s.grant in
          let s' : NvCounterSyscall = record s { grant = apps } in
          if is_success result
          then (if s.cells.op_ongoing
              then (let (code, waiting) = enter grant enomem app mark_waiting apps in
                  (code, record s { grant = waiting }))
              else increment_now (counter s.cells.requests) app
                  (record s' { cells = asked s.cells }))
          else (result, s'))

  set_increment_callback : Bool → ℕ → NvCounterSyscall → ReturnCode × NvCounterSyscall
  unfolding enter entered
  set_increment_callback callback app s =
      let (code, apps) =
        enter grant enomem app (λ entry. (success, record entry { callback = callback })) s.grant in
      (code, record s { grant = apps })

  unfoldable pub command : ℕ → ℕ → NvCounterSyscall → ReturnCode × NvCounterSyscall
  command zero app s = (success, s)
  command (suc zero) app s = read_and_increment app s
  command (suc (suc n)) app s = (enosupport, s)

  unfoldable pub subscribe : ℕ → Bool → ℕ → NvCounterSyscall → ReturnCode × NvCounterSyscall
  unfolding set_increment_callback
  subscribe zero callback app s = set_increment_callback callback app s
  subscribe (suc n) callback app s = (enosupport, s)

  -- `Client` of the counter.
  unfoldable pub initialize_done : ReturnCode → NvCounterSyscall → NvCounterSyscall
  initialize_done status s =
      if is_success status
      then do_next_op none 0
          (record s { cells = record s.cells { init_failed = false; value = 0 } })
      else handle_failed_init s

  unfoldable pub increment_done : ReturnCode → NvCounterSyscall → NvCounterSyscall
  increment_done status s =
      let callback_app = s.cells.current_app in
      if is_success status
      then do_next_op (some callback_app) 2 (record s {
        cells = record s.cells { op_ongoing = false; value = (s.cells.value + 1) % 2 ^ 32 };
      })
      else do_next_op (some callback_app) 1
          (record s { cells = record s.cells { op_ongoing = false } })
