-- ===== src/Flash/VirtualFlash/Blocks.antt =====
-- virtual_flash.rs: what the multiplexer makes of an operation that the driver refuses.
use tock_on_titan.Common.{
  ℕ, true, false, List, [], ◌∷◌, Option, none, some, ◌==◌, if◌then◌else◌, if-Holds, ◌≡◌, refl, sym,
  subst, ◌∙◌, ap, All, ◌++◌, ==_iff, Bool-cases, inl, inr, if-chosen,
}
use tock_on_titan.ReturnCode.{ReturnCode, success, ebusy}
use tock_on_titan.Flash.VirtualFlash.{
  Flash, FlashUser, MuxFlash, erase_of, is_idle, find_user, set_user, start, start_user,
  next_unless, do_next_op, user_erase, user_write,
}
use tock_on_titan.Flash.VirtualFlash.Serves.{IsIdle}
use tock_on_titan.Flash.VirtualFlash.Requests.{Request, asks_erase, asks_write, request, requests}

-- The driver is in the state `d`, and an operation is in flight.
abbrev pub Blocked : {D : Type 0} → ℕ → D → MuxFlash D → Type 0
Blocked u d s = (s.in_flight ≡ some u) × (s.driver ≡ d)

find_user-set_user :
    (user : ℕ → FlashUser) (u : ℕ) (new : FlashUser) (before after : List ℕ)
    → is_idle new.operation ≡ false
    → All (IsIdle user) before
    → find_user (λ v. if v == u then new else user v) (before ++ (u ∷ after)) ≡ some u
unfolding find_user
find_user-set_user user u new [] after e h =
    let same : (u == u) ≡ true = (==_iff u u).1 refl in rw (same, e)
find_user-set_user user u new (v ∷ before) after e (h, hs) = elim (Bool-cases (v == u)) [
  | inl same ↦ rw (same, e) (ap some ((==_iff v u).0 same))
  | inr differ ↦ rw (differ, h) (find_user-set_user user u new before after e hs)
]

module _ {D : Type 0} (flash : Flash D) where
  next_unless-Blocked :
      (o : Option ℕ) (u : ℕ) (d : D) (s : MuxFlash D)
      → s.in_flight ≡ o
      → Blocked u d s
      → Blocked u d (next_unless flash o s)
  unfolding next_unless
  next_unless-Blocked none u d s e b = absurd cc
  next_unless-Blocked (some v) u d s e b = b

  do_next_op-Blocked :
      (u : ℕ) (d : D) (s : MuxFlash D) → Blocked u d s → Blocked u d (do_next_op flash s)
  unfolding do_next_op
  do_next_op-Blocked u d s b = next_unless-Blocked s.in_flight u d s refl b

  request-Blocked :
      (q : Request) (u : ℕ) (d : D) (s : MuxFlash D)
      → Blocked u d s
      → Blocked u d (request flash q s)
  unfolding request user_erase user_write
  request-Blocked (asks_erase v page) u d s b =
      if-Holds (λ (x : ReturnCode × MuxFlash D). Blocked u d x.1) (is_idle (s.user v).operation) _ _
        (do_next_op-Blocked u d _ b) b
  request-Blocked (asks_write v target buffer) u d s b =
      if-Holds (λ (x : ReturnCode × Option (List ℕ) × MuxFlash D). Blocked u d x.2)
        (is_idle (s.user v).operation) _ _ (do_next_op-Blocked u d _ b) b

  requests-Blocked :
      (qs : List Request) (u : ℕ) (d : D) (s : MuxFlash D)
      → Blocked u d s
      → Blocked u d (requests flash qs s)
  unfolding requests
  requests-Blocked [] u d s b = b
  requests-Blocked (q ∷ qs) u d s b = requests-Blocked qs u d _ (request-Blocked q u d s b)

  do_next_op-start_user :
      (u : ℕ) (s : MuxFlash D)
      → s.in_flight ≡ none
      → find_user s.user s.users ≡ some u
      → do_next_op flash s ≡ start_user flash (some u) s
  unfolding do_next_op next_unless
  do_next_op-start_user u s e f =
      ap (λ o. next_unless flash o s) e ∙ ap (λ o. start_user flash o s) f

  started-Blocked :
      (u page : ℕ) (new : FlashUser) (s : MuxFlash D)
      → new.operation ≡ erase_of page
      → Blocked u (flash.erase page s.driver).1 (start_user flash (some u) (set_user flash u new s))
  unfolding start_user start
  started-Blocked u page new s e =
      let same : (u == u) ≡ true = (==_iff u u).1 refl in
      (
        refl,
        ap
              (λ b.
                (let node : FlashUser = if b then new else s.user u in
                  start flash node.operation node.buffer s.driver))
              same
            ∙ ap (λ o. start flash o new.buffer s.driver) e,
      )

  -- An erase that an idle user requests while nothing is in flight, and while the users linked
  -- before it are idle, is answered with SUCCESS and passed on to the driver, whose answer is
  -- dropped. From then on, until the driver makes a callback, no request of any user reaches it.
  pub erase_blocks :
      (u page : ℕ) (before after : List ℕ) (qs : List Request) (s : MuxFlash D)
      → s.users ≡ before ++ (u ∷ after)
      → All (IsIdle s.user) before
      → IsIdle s.user u
      → s.in_flight ≡ none
      → ((user_erase flash u page s).0 ≡ success)
        × Blocked u (flash.erase page s.driver).1 (requests flash qs (user_erase flash u page s).1)
  unfolding user_erase
  erase_blocks u page before after qs s linked free idle_user e =
      let new : FlashUser = record (s.user u) { operation = erase_of page } in
      let found : find_user (set_user flash u new s).user s.users ≡ some u =
        ap (find_user (set_user flash u new s).user) linked
        ∙ find_user-set_user s.user u new before after refl free in
      let blocked : Blocked u (flash.erase page s.driver).1
          (do_next_op flash (set_user flash u new s)) =
        subst (Blocked u (flash.erase page s.driver).1)
          (sym (do_next_op-start_user u (set_user flash u new s) e found))
          (started-Blocked u page new s refl) in
      (
        if-chosen (λ (x : ReturnCode × MuxFlash D). x.0 ≡ success) _ _ (ebusy, s) idle_user refl,
        if-chosen
            (λ (x : ReturnCode × MuxFlash D).
              Blocked u (flash.erase page s.driver).1 (requests flash qs x.1))
            _ (success, do_next_op flash (set_user flash u new s)) (ebusy, s) idle_user
            (requests-Blocked qs u _ _ blocked),
      )
