-- ===== src/Flash/VirtualFlash.antt =====
-- kernel/h1/src/hil/flash/virtual_flash.rs: `MuxFlash`, which lets several users share a flash, and
-- `FlashUser`. A user is its number. The driver below is any implementation of trait `Flash` of
-- flash.rs, with a state `D`; it makes its callbacks later.
mod Tests
pub mod Requests
pub mod OverDriver
pub mod Blocks
pub mod Serves
use tock_on_titan.Common.{
  ℕ, Bool, true, false, List, [], ◌∷◌, Option, none, some, ◌==◌, if◌then◌else◌, length,
}
use tock_on_titan.ReturnCode.{ReturnCode, success, ebusy}

-- Trait `Flash`, but for `set_client`: what is answered, the buffer where it is not kept, and the
-- state after the call.
pub record Flash (D : Type 0) : Type 0 where
  pub erase : ℕ → D → ReturnCode × D
  pub read : ℕ → D → ReturnCode
  pub write : ℕ → List ℕ → D → ReturnCode × Option (List ℕ) × D

pub data Operation : Type 0 where
  idle : Operation
  write_to erase_of : ℕ → Operation

abbrev pub is_idle : Operation → Bool
is_idle idle = true
is_idle (write_to target) = false
is_idle (erase_of page) = false

-- `client` is whether the user has one.
pub record FlashUser : Type 0 where
  pub buffer : Option (List ℕ)
  pub write_len : ℕ
  pub write_pos : ℕ
  pub operation : Operation
  pub client : Bool

-- A callback of a user's client.
pub data Told : Type 0 where
  erase_told : ℕ → ReturnCode → Told
  write_told : ℕ → List ℕ → ReturnCode → Told

-- `users` are those that are linked, `user` all of them; `told` has the newest callback first.
pub record MuxFlash (D : Type 0) : Type 0 where
  pub driver : D
  pub users : List ℕ
  pub in_flight : Option ℕ
  pub user : ℕ → FlashUser
  pub told : List Told

unfoldable pub new_user : FlashUser
new_user = record { buffer = none; write_len = 0; write_pos = 0; operation = idle; client = false }

unfoldable pub new_mux : {D : Type 0} → D → MuxFlash D
unfolding new_user
new_mux driver = record {
  driver = driver;
  users = [];
  in_flight = none;
  user = λ u. new_user;
  told = [];
}

-- The first linked user that waits for an operation, or whose operation is in flight.
unfoldable pub find_user : (ℕ → FlashUser) → List ℕ → Option ℕ
find_user user [] = none
find_user user (u ∷ us) = if is_idle (user u).operation then find_user user us else some u

module _ {D : Type 0} (flash : Flash D) where
  abbrev pub set_user : ℕ → FlashUser → MuxFlash D → MuxFlash D
  set_user u new s = record s { user = λ v. if v == u then new else s.user v }

  -- With the buffer that has been taken. What the driver answers is dropped.
  unfoldable pub start : Operation → Option (List ℕ) → D → D
  start (erase_of page) buffer d = (flash.erase page d).1
  start (write_to target) (some buffer) d = (flash.write target buffer d).2
  start (write_to target) none d = d
  start idle buffer d = d

  start_user : Option ℕ → MuxFlash D → MuxFlash D
  unfolding start
  start_user none s = s
  start_user (some u) s =
      let node = s.user u in
      record (set_user u (record node { buffer = none }) s) {
        driver = start node.operation node.buffer s.driver;
        in_flight = some u;
      }

  next_unless : Option ℕ → MuxFlash D → MuxFlash D
  unfolding start_user
  next_unless (some u) s = s
  next_unless none s = start_user (find_user s.user s.users) s

  unfoldable pub do_next_op : MuxFlash D → MuxFlash D
  unfolding next_unless
  do_next_op s = next_unless s.in_flight s

  -- `FlashUser`'s part of trait `Flash`.
  unfoldable pub user_erase : ℕ → ℕ → MuxFlash D → ReturnCode × MuxFlash D
  user_erase u page s =
      if is_idle (s.user u).operation
      then (success, do_next_op (set_user u (record (s.user u) { operation = erase_of page }) s))
      else (ebusy, s)

  unfoldable pub user_write :
      ℕ → ℕ → List ℕ → MuxFlash D → ReturnCode × Option (List ℕ) × MuxFlash D
  user_write u target buffer s =
      if is_idle (s.user u).operation
      then (
        success,
        none,
        do_next_op (
            set_user u
              (record (s.user u) {
                write_pos = target;
                write_len = length buffer;
                buffer = some buffer;
                operation = write_to target;
              })
              s),
      )
      else (ebusy, some buffer, s)

  unfoldable pub user_read : ℕ → MuxFlash D → ReturnCode
  user_read word s = flash.read word s.driver

  unfoldable pub user_set_client : ℕ → MuxFlash D → MuxFlash D
  user_set_client u s =
      set_user u (record (s.user u) { client = true }) (record s { users = u ∷ s.users })

  -- `FlashUser`'s `Client`.
  user_done : ℕ → Told → MuxFlash D → MuxFlash D
  user_done u told s =
      let s' = set_user u (record (s.user u) { operation = idle }) s in
      if (s.user u).client then record s' { told = told ∷ s.told } else s'

  -- What the client of a user does in its callback.
  take_in_flight : Option ℕ → (ℕ → Told) → (MuxFlash D → MuxFlash D) → MuxFlash D → MuxFlash D
  unfolding user_done
  take_in_flight none told client s = s
  take_in_flight (some u) told client s =
      client (user_done u (told u) (record s { in_flight = none }))

  -- The driver's callbacks; `client` is what the client of the user does in its callback.
  unfoldable pub mux_erase_done : ReturnCode → (MuxFlash D → MuxFlash D) → MuxFlash D → MuxFlash D
  unfolding take_in_flight
  mux_erase_done code client s =
      do_next_op (take_in_flight s.in_flight (λ u. erase_told u code) client s)

  unfoldable pub mux_write_done :
      List ℕ → ReturnCode → (MuxFlash D → MuxFlash D) → MuxFlash D → MuxFlash D
  unfolding take_in_flight
  mux_write_done buffer code client s =
      do_next_op (take_in_flight s.in_flight (λ u. write_told u buffer code) client s)
