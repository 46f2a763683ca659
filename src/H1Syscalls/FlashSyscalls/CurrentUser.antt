-- ===== src/H1Syscalls/FlashSyscalls/CurrentUser.antt =====
-- flash.rs: which process is told that an operation is done.
use tock_on_titan.Common.{
  ℕ, zero, suc, Bool, not, ◌||◌, List, [], ◌∷◌, Option, none, some, ◌%◌, ◌==◌, if-Holds, All, ◌≡◌,
  refl, subst, sym,
}
use tock_on_titan.ReturnCode.{ReturnCode, enomem}
use tock_on_titan.Flash.VirtualFlash.{Flash}
use tock_on_titan.H1Syscalls.Grant.{Grant, enter-Holds}
use tock_on_titan.H1Syscalls.FlashSyscalls.{
  AppData, new_app, Cells, FlashSyscalls, Scheduled, erase, read, read_aligned, write_from, write,
  write_aligned, tell_user, erase_done, write_done, change_app, subscribe, dispatch, user_or,
  command, allow,
}

-- A call of a process, or a callback of the device.
pub data Event : Type 0 where
  commanded : ℕ → ℕ → ℕ → ℕ → Event
  subscribed : ℕ → Bool → ℕ → Event
  allowed : ℕ → ℕ → Option (List ℕ) → Event
  erased : ReturnCode → Event
  written : List ℕ → ReturnCode → Event

-- The current user is the process `u`, and no other has been told anything.
abbrev pub OnlyCells : {D : Type 0} → ℕ → Cells D → Type 0
OnlyCells u c = (c.current_user ≡ some u) × All (λ (x : Scheduled). x.process ≡ u) c.scheduled

pub record TellsOnly {D : Type 0} (u : ℕ) (s : FlashSyscalls D) : Type 0 where
  pub only : OnlyCells u s.cells

module _ {D : Type 0} (flash : Flash D) (grant : Grant new_app) where
  unfoldable pub step_event : Event → FlashSyscalls D → FlashSyscalls D
  step_event (commanded n arg1 arg2 caller) s = (command flash grant n arg1 arg2 caller s).1
  step_event (subscribed n callback app) s = (subscribe flash grant n callback app s).1
  step_event (allowed app n slice) s = (allow flash grant app n slice s).1
  step_event (erased code) s = erase_done flash grant code s
  step_event (written buffer code) s = write_done flash grant buffer code s

  unfoldable pub steps : List Event → FlashSyscalls D → FlashSyscalls D
  steps [] s = s
  steps (e ∷ es) s = steps es (step_event e s)

  tell_user-TellsOnly :
      (o : Option ℕ) (u : ℕ) (code : ReturnCode) (s : FlashSyscalls D)
      → o ≡ some u
      → TellsOnly u s
      → TellsOnly u (tell_user flash grant o code s)
  unfolding tell_user
  tell_user-TellsOnly none u code s e p = absurd cc
  tell_user-TellsOnly (some user) u code s e p = record {
    only = enter-Holds grant (OnlyCells u) s.cells user _ s.apps p.only (λ app.
        if-Holds (OnlyCells u) app.operation_done_callback _ s.cells (p.only.0, (cc, p.only.1))
          p.only);
  }

  erase-TellsOnly :
      (u caller page : ℕ) (s : FlashSyscalls D)
      → TellsOnly u s
      → TellsOnly u (erase flash grant caller page s).1
  unfolding erase
  erase-TellsOnly u caller page s p = record { only = p.only }

  read-TellsOnly :
      (u caller offset read_len : ℕ) (s : FlashSyscalls D)
      → TellsOnly u s
      → TellsOnly u (read flash grant caller offset read_len s).1
  unfolding read read_aligned
  read-TellsOnly u caller offset read_len s p =
      if-Holds (λ (x : ReturnCode × FlashSyscalls D). TellsOnly u x.1) (not (offset % 4 == 0)) _
        (read_aligned flash grant caller offset read_len s) p (record { only = p.only })

  write_from-OnlyCells :
      (u target write_len : ℕ) (o q : Option (List ℕ)) (c : Cells D)
      → OnlyCells u c
      → OnlyCells u (write_from flash grant target write_len o q c).1
  unfolding write_from
  write_from-OnlyCells u target write_len none q c p = p
  write_from-OnlyCells u target write_len (some bytes) none c p = p
  write_from-OnlyCells u target write_len (some bytes) (some buffer) c p = p

  write-TellsOnly :
      (u caller target write_len : ℕ) (s : FlashSyscalls D)
      → TellsOnly u s
      → TellsOnly u (write flash grant caller target write_len s).1
  unfolding write write_aligned
  write-TellsOnly u caller target write_len s p =
      if-Holds (λ (x : ReturnCode × FlashSyscalls D). TellsOnly u x.1)
        (not (target % 4 == 0) || not (write_len % 4 == 0)) _
        (write_aligned flash grant caller target write_len s) p
        (record {
          only =
              enter-Holds grant (λ (x : ReturnCode × Cells D). OnlyCells u x.1) (enomem, s.cells)
                caller
                (λ (app : AppData). (
                  write_from flash grant target write_len app.write_buffer s.cells.write_buffer
                      s.cells,
                  app,
                ))
                s.apps p.only
                (λ app.
                  write_from-OnlyCells u target write_len app.write_buffer s.cells.write_buffer
                    s.cells p.only);
        })

  dispatch-TellsOnly :
      (u n arg1 arg2 caller : ℕ) (s : FlashSyscalls D)
      → TellsOnly u s
      → TellsOnly u (dispatch flash grant n arg1 arg2 caller s).1
  unfolding dispatch
  dispatch-TellsOnly u zero arg1 arg2 caller s p = p
  dispatch-TellsOnly u (suc zero) arg1 arg2 caller s p = erase-TellsOnly u caller arg1 s p
  dispatch-TellsOnly u (suc (suc zero)) arg1 arg2 caller s p =
      write-TellsOnly u caller arg1 arg2 s p
  dispatch-TellsOnly u (suc (suc (suc zero))) arg1 arg2 caller s p =
      read-TellsOnly u caller arg1 arg2 s p
  dispatch-TellsOnly u (suc (suc (suc (suc n)))) arg1 arg2 caller s p = p

  user_or-some : (u caller : ℕ) (o : Option ℕ) → o ≡ some u → user_or flash grant caller o ≡ some u
  unfolding user_or
  user_or-some u caller none e = absurd cc
  user_or-some u caller (some v) e = e

  command-TellsOnly :
      (u n arg1 arg2 caller : ℕ) (s : FlashSyscalls D)
      → TellsOnly u s
      → TellsOnly u (command flash grant n arg1 arg2 caller s).1
  unfolding command
  command-TellsOnly u n arg1 arg2 caller s p =
      dispatch-TellsOnly u n arg1 arg2 caller _
        (record { only = (user_or-some u caller s.cells.current_user p.only.0, p.only.1) })

  subscribe-TellsOnly :
      (u n : ℕ) (callback : Bool) (app : ℕ) (s : FlashSyscalls D)
      → TellsOnly u s
      → TellsOnly u (subscribe flash grant n callback app s).1
  unfolding subscribe change_app
  subscribe-TellsOnly u zero callback app s p = record { only = p.only }
  subscribe-TellsOnly u (suc n) callback app s p = p

  allow-TellsOnly :
      (u app n : ℕ) (slice : Option (List ℕ)) (s : FlashSyscalls D)
      → TellsOnly u s
      → TellsOnly u (allow flash grant app n slice s).1
  unfolding allow change_app
  allow-TellsOnly u app zero slice s p = record { only = p.only }
  allow-TellsOnly u app (suc zero) slice s p = record { only = p.only }
  allow-TellsOnly u app (suc (suc n)) slice s p = p

  step_event-TellsOnly :
      (u : ℕ) (e : Event) (s : FlashSyscalls D) → TellsOnly u s → TellsOnly u (step_event e s)
  unfolding step_event erase_done write_done
  step_event-TellsOnly u (commanded n arg1 arg2 caller) s p =
      command-TellsOnly u n arg1 arg2 caller s p
  step_event-TellsOnly u (subscribed n callback app) s p = subscribe-TellsOnly u n callback app s p
  step_event-TellsOnly u (allowed app n slice) s p = allow-TellsOnly u app n slice s p
  step_event-TellsOnly u (erased code) s p =
      tell_user-TellsOnly s.cells.current_user u code s p.only.0 p
  step_event-TellsOnly u (written buffer code) s p =
      tell_user-TellsOnly s.cells.current_user u code _ p.only.0 (record { only = p.only })

  user_or-none : (caller : ℕ) (o : Option ℕ) → o ≡ none → user_or flash grant caller o ≡ some caller
  unfolding user_or
  user_or-none caller none e = refl
  user_or-none caller (some v) e = absurd cc

  steps-keeps :
      (u : ℕ) (es : List Event) (s : FlashSyscalls D) → TellsOnly u s → TellsOnly u (steps es s)
  unfolding steps
  steps-keeps u [] s p = p
  steps-keeps u (e ∷ es) s p = steps-keeps u es _ (step_event-TellsOnly u e s p)

  -- The process whose command is the first after the start of the driver stays the current user:
  -- after any calls of any processes and any callbacks of the device that follow, it alone has been
  -- told that an operation is done, whichever process asked for it.
  pub steps-TellsOnly :
      (n arg1 arg2 caller : ℕ) (es : List Event) (s : FlashSyscalls D)
      → s.cells.current_user ≡ none
      → s.cells.scheduled ≡ []
      → TellsOnly caller (steps es (command flash grant n arg1 arg2 caller s).1)
  unfolding command
  steps-TellsOnly n arg1 arg2 caller es s e f = steps-keeps caller es _ (
      dispatch-TellsOnly caller n arg1 arg2 caller _ (record {
        only = (
          user_or-none caller s.cells.current_user e,
          subst (All λ (x : Scheduled). x.process ≡ caller) (sym f) tt,
        );
      }))
