-- ===== src/Flash/VirtualFlash/Serves.antt =====
-- virtual_flash.rs: who waits, and who is in flight.
use tock_on_titan.Common.{
  ℕ, Bool, true, false, List, [], ◌∷◌, Option, none, some, ◌==◌, if◌then◌else◌, if-Holds, All, ◌≡◌,
  refl, subst, sym,
}
use tock_on_titan.ReturnCode.{ReturnCode}
use tock_on_titan.Flash.VirtualFlash.{
  Flash, FlashUser, MuxFlash, is_idle, Told, find_user, start_user, next_unless, do_next_op,
  user_erase, user_write, user_done, take_in_flight, mux_erase_done, mux_write_done,
}
use tock_on_titan.Flash.VirtualFlash.Requests.{
  Request, asks_erase, asks_write, Event, requested, erase_ended, write_ended, request, requests,
  step_event, steps,
}

abbrev pub IsIdle : (ℕ → FlashUser) → ℕ → Type 0
IsIdle user u = is_idle (user u).operation ≡ true

-- The user whose operation is in flight still has it.
abbrev pub Holds : (ℕ → FlashUser) → Option ℕ → Type 0
Holds user none = Unit {0}
Holds user (some u) = is_idle (user u).operation ≡ false

-- While nothing is in flight, no linked user waits.
abbrev pub Waits : (ℕ → FlashUser) → List ℕ → Option ℕ → Type 0
Waits user users none = All (IsIdle user) users
Waits user users (some u) = Unit {0}

pub record IsServed {D : Type 0} (s : MuxFlash D) : Type 0 where
  pub waits : Waits s.user s.users s.in_flight
  pub holds : Holds s.user s.in_flight

-- `find_user` finds nobody where all are idle, and otherwise one that is not.
abbrev Found : (ℕ → FlashUser) → List ℕ → Option ℕ → Type 0
Found user users none = All (IsIdle user) users
Found user users (some u) = is_idle (user u).operation ≡ false

Found-next :
    (user : ℕ → FlashUser) (u : ℕ) (us : List ℕ) (o : Option ℕ) (b : Bool)
    → is_idle (user u).operation ≡ b
    → Found user us o
    → Found user (u ∷ us) (if b then o else some u)
Found-next user u us none true e f = (e, f)
Found-next user u us (some v) true e f = f
Found-next user u us o false e f = e

find_user-Found : (user : ℕ → FlashUser) (users : List ℕ) → Found user users (find_user user users)
unfolding find_user
find_user-Found user [] = tt
find_user-Found user (u ∷ us) =
    Found-next user u us (find_user user us) _ refl (find_user-Found user us)

-- A new record for a user, that is idle or not.
set_user-Holds :
    (user : ℕ → FlashUser) (u : ℕ) (new : FlashUser) (o : Option ℕ)
    → is_idle new.operation ≡ false
    → Holds user o
    → Holds (λ v. if v == u then new else user v) o
set_user-Holds user u new none e h = tt
set_user-Holds user u new (some v) e h =
    if-Holds (λ (x : FlashUser). is_idle x.operation ≡ false) (v == u) new (user v) e h

module _ {D : Type 0} (flash : Flash D) where
  start_user-IsServed :
      (o : Option ℕ) (s : MuxFlash D)
      → s.in_flight ≡ none
      → Found s.user s.users o
      → IsServed (start_user flash o s)
  unfolding start_user
  start_user-IsServed none s e f = record {
    waits = subst (Waits s.user s.users) (sym e) f;
    holds = subst (Holds s.user) (sym e) tt;
  }
  start_user-IsServed (some u) s e f = record {
    waits = tt;
    holds = if-Holds (λ (x : FlashUser). is_idle x.operation ≡ false) (u == u) _ (s.user u) f f;
  }

  next_unless-IsServed :
      (o : Option ℕ) (s : MuxFlash D)
      → s.in_flight ≡ o
      → Holds s.user s.in_flight
      → IsServed (next_unless flash o s)
  unfolding next_unless
  next_unless-IsServed none s e h =
      start_user-IsServed (find_user s.user s.users) s e (find_user-Found s.user s.users)
  next_unless-IsServed (some u) s e h = record {
    waits = subst (Waits s.user s.users) (sym e) tt;
    holds = h;
  }

  do_next_op-IsServed : (s : MuxFlash D) → Holds s.user s.in_flight → IsServed (do_next_op flash s)
  unfolding do_next_op
  do_next_op-IsServed s h = next_unless-IsServed s.in_flight s refl h

  request-IsServed : (q : Request) (s : MuxFlash D) → IsServed s → IsServed (request flash q s)
  unfolding request user_erase user_write
  request-IsServed (asks_erase u page) s p =
      if-Holds (λ (x : ReturnCode × MuxFlash D). IsServed x.1) (is_idle (s.user u).operation) _ _
        (do_next_op-IsServed _ (set_user-Holds s.user u _ s.in_flight refl p.holds)) p
  request-IsServed (asks_write u target buffer) s p =
      if-Holds (λ (x : ReturnCode × Option (List ℕ) × MuxFlash D). IsServed x.2)
        (is_idle (s.user u).operation) _ _
        (do_next_op-IsServed _ (set_user-Holds s.user u _ s.in_flight refl p.holds)) p

  request-Holds :
      (q : Request) (s : MuxFlash D)
      → Holds s.user s.in_flight
      → Holds (request flash q s).user (request flash q s).in_flight
  unfolding request user_erase user_write
  request-Holds (asks_erase u page) s h =
      if-Holds (λ (x : ReturnCode × MuxFlash D). Holds x.1.user x.1.in_flight)
        (is_idle (s.user u).operation) _ _
        (do_next_op-IsServed _ (set_user-Holds s.user u _ s.in_flight refl h)).holds h
  request-Holds (asks_write u target buffer) s h =
      if-Holds (λ (x : ReturnCode × Option (List ℕ) × MuxFlash D). Holds x.2.user x.2.in_flight)
        (is_idle (s.user u).operation) _ _
        (do_next_op-IsServed _ (set_user-Holds s.user u _ s.in_flight refl h)).holds h

  requests-Holds :
      (qs : List Request) (s : MuxFlash D)
      → Holds s.user s.in_flight
      → Holds (requests flash qs s).user (requests flash qs s).in_flight
  unfolding requests
  requests-Holds [] s h = h
  requests-Holds (q ∷ qs) s h = requests-Holds qs (request flash q s) (request-Holds q s h)

  user_done-in_flight :
      (u : ℕ) (told : Told) (s : MuxFlash D) → (user_done flash u told s).in_flight ≡ s.in_flight
  unfolding user_done
  user_done-in_flight u told s =
      if-Holds (λ (x : MuxFlash D). x.in_flight ≡ s.in_flight) (s.user u).client _ _ refl refl

  take_in_flight-Holds :
      (o : Option ℕ) (told : ℕ → Told) (qs : List Request) (s : MuxFlash D)
      → s.in_flight ≡ o
      → Holds
          (take_in_flight flash o told (requests flash qs) s).user
          (take_in_flight flash o told (requests flash qs) s).in_flight
  unfolding take_in_flight
  take_in_flight-Holds none told qs s e = subst (Holds s.user) (sym e) tt
  take_in_flight-Holds (some u) told qs s e = requests-Holds qs _ (
      subst (Holds (user_done flash u (told u) (record s { in_flight = none })).user)
        (sym (user_done-in_flight u (told u) (record s { in_flight = none }))) tt)

  step_event-IsServed : (e : Event) (s : MuxFlash D) → IsServed s → IsServed (step_event flash e s)
  unfolding step_event mux_erase_done mux_write_done
  step_event-IsServed (requested q) s p = request-IsServed q s p
  step_event-IsServed (erase_ended code qs) s p =
      do_next_op-IsServed _ (take_in_flight-Holds s.in_flight _ qs s refl)
  step_event-IsServed (write_ended buffer code qs) s p =
      do_next_op-IsServed _ (take_in_flight-Holds s.in_flight _ qs s refl)

  -- After any requests of the users and any callbacks of the driver, in whatever order and with any
  -- requests from within the callbacks: while no operation is in flight, no linked user waits for
  -- one, and the user whose operation is in flight stays busy. This holds of any driver, and after
  -- any state of which it holds.
  pub mux_steps-IsServed :
      (es : List Event) (s : MuxFlash D) → IsServed s → IsServed (steps flash es s)
  unfolding steps
  mux_steps-IsServed [] s p = p
  mux_steps-IsServed (e ∷ es) s p = mux_steps-IsServed es _ (step_event-IsServed e s p)
