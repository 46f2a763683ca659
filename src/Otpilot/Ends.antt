-- ===== src/Otpilot/Ends.antt =====
-- That a method ends within the rounds that the model gives its loops, and what holds where it
-- returns.
use tock_on_titan.Common.{
  ◌∷◌, Bool, true, false, Option, none, some, if◌then◌else◌, ◌≡◌, ◌≢◌, refl, subst,
}
use tock_on_titan.Spiutils.Io.{Result, ok, err}
use tock_on_titan.Otpilot.Drivers.{
  DriverCall, Drivers, State, Outcome, done, failed, panicked, unfinished, M, proceed, ◌>>=◌, ◌>>◌,
  succeed, fail, panic, get, modify, call, try,
}

-- An outcome and the state after it: it has ended, and where it has returned, `Q` holds.
abbrev pub Post : {E A : Type 0} → (A → State → Type 0) → Outcome E A → State → Type 0
Post Q (done a) s = Q a s
Post Q (failed e) s = Unit {0}
Post Q panicked s = Unit {0}
Post Q unfinished s = ⊥

-- From a state with `P` the method ends, and returns with `Q`.
pub record Ends {E A : Type 0} (P : State → Type 0) (m : M E A) (Q : A → State → Type 0)
    : Type 0 where
  pub ends : (s : State) → P s → Post Q (m s).0 (m s).1

abbrev pub Any : State → Type 0
Any s = Unit {0}

-- The method always ends.
abbrev pub AlwaysEnds : {E A : Type 0} → M E A → Type 0
AlwaysEnds m = Ends Any m (λ a. Any)

Post-proceed :
    {E A B : Type 0} {Q : A → State → Type 0} {R : B → State → Type 0} (o : Outcome E A)
    (f : A → M E B) (s : State)
    → Post Q o s
    → ((a : A) → Ends (Q a) (f a) R)
    → Post R (proceed o f s).0 (proceed o f s).1
Post-proceed (done a) f s q k = (k a).ends s q
Post-proceed (failed e) f s q k = tt
Post-proceed panicked f s q k = tt
Post-proceed unfinished f s q k = absurd q

pub Ends-bind :
    {E A B : Type 0} {P : State → Type 0} {Q : A → State → Type 0} {R : B → State → Type 0}
    {m : M E A} {f : A → M E B}
    → Ends P m Q
    → ((a : A) → Ends (Q a) (f a) R)
    → Ends P (m >>= f) R
Ends-bind {m = m} {f = f} e k = record {
  ends = λ s p. Post-proceed (m s).0 f (m s).1 (e.ends s p) k;
}

Post-weaken :
    {E A : Type 0} (Q R : A → State → Type 0) (o : Outcome E A) (s : State)
    → ((a : A) → Q a s → R a s)
    → Post Q o s
    → Post R o s
Post-weaken Q R (done a) s f q = f a q
Post-weaken Q R (failed e) s f q = tt
Post-weaken Q R panicked s f q = tt
Post-weaken Q R unfinished s f q = q

pub Ends-weaken :
    {E A : Type 0} {P : State → Type 0} {Q R : A → State → Type 0} {m : M E A}
    → ((a : A) (s : State) → Q a s → R a s)
    → Ends P m Q
    → Ends P m R
Ends-weaken {Q = Q} {R = R} {m = m} f e = record {
  ends = λ s p. Post-weaken Q R (m s).0 (m s).1 (λ a. f a (m s).1) (e.ends s p);
}

module _ {E A B : Type 0} {R : B → State → Type 0} where
  pub AlwaysEnds-bind :
      {m : M E A} {f : A → M E B}
      → AlwaysEnds m
      → ((a : A) → Ends Any (f a) R)
      → Ends Any (m >>= f) R
  AlwaysEnds-bind e k = Ends-bind e k

pub Ends-get :
    {E A B : Type 0} {P : State → Type 0} {R : B → State → Type 0} (g : State → A) (f : A → M E B)
    → ((a : A) → Ends P (f a) R)
    → Ends P (get g >>= f) R
Ends-get g f k = record { ends = λ s p. (k (g s)).ends s p }

module _ {E A : Type 0} {P : State → Type 0} where
  pub Ends-fail : {Q : A → State → Type 0} (e : E) → Ends P (fail {E = E} {A = A} e) Q
  Ends-fail e = record { ends = λ s p. tt }

  pub Ends-panic : {Q : A → State → Type 0} → Ends P (panic {E = E} {A = A}) Q
  Ends-panic = record { ends = λ s p. tt }

  pub Ends-succeed :
      {Q : A → State → Type 0} (a : A)
      → ((s : State) → P s → Q a s)
      → Ends P (succeed {E = E} {A = A} a) Q
  Ends-succeed a h = record { ends = h }

  pub AlwaysEnds-succeed : (a : A) → Ends P (succeed {E = E} {A = A} a) (λ a. Any)
  AlwaysEnds-succeed a = record { ends = λ s p. tt }

  pub Ends-if :
      {Q : A → State → Type 0} (b : Bool) {m k : M E A}
      → Ends P m Q
      → Ends P k Q
      → Ends P (if b then m else k) Q
  Ends-if true p q = p
  Ends-if false p q = q

  pub Ends-elim :
      {Q : A → State → Type 0} (b : Bool) {m k : M E A}
      → (b ≡ true → Ends P m Q)
      → (b ≡ false → Ends P k Q)
      → Ends P (elim b [ true ↦ m | false ↦ k ]) Q
  Ends-elim true p q = p refl
  Ends-elim false p q = q refl

  pub Ends-Option :
      {B : Type 0} {Q : A → State → Type 0} (o : Option B) {f : B → M E A} {k : M E A}
      → ((b : B) → Ends P (f b) Q)
      → Ends P k Q
      → Ends P (elim o [ some b ↦ f b | none ↦ k ]) Q
  Ends-Option (some b) p q = p b
  Ends-Option none p q = q

pub Ends-Result :
    {D E A B : Type 0} {P : State → Type 0} {Q : A → State → Type 0} (r : Result D B)
    {f : B → M E A} {k : D → M E A}
    → ((b : B) → r ≡ ok b → Ends P (f b) Q)
    → ((e : D) → Ends P (k e) Q)
    → Ends P (elim r [ ok b ↦ f b | err e ↦ k e ]) Q
Ends-Result (ok b) p q = p b refl
Ends-Result (err e) p q = q e

-- What is known of the state may be a fact that does not depend on it.
pub Ends-known :
    {E A : Type 0} {X : Type 0} {m : M E A} {Q : A → State → Type 0}
    → (X → Ends Any m Q)
    → Ends (λ s. X) m Q
Ends-known k = record { ends = λ s x. (k x).ends s tt }

pub Ends-modify :
    {E A : Type 0} {Q : A → State → Type 0} (g : State → State) (m : M E A)
    → Ends Any m Q
    → Ends Any (modify g >> m) Q
Ends-modify g m k = record { ends = λ s p. k.ends (g s) tt }

-- A call changes no more than the calls.
pub Ends-call :
    {E : Type 0} (P : State → Type 0) (c : DriverCall)
    → ((s : State) → P s → P (record s { calls = c ∷ s.calls }))
    → Ends P (call {E = E} c) (λ a. P)
Ends-call P c h = record { ends = h }

tried :
    {E : Type 0} (P : State → Type 0) (b : Bool) (e : E) (s : State)
    → P s
    → (let r : Outcome E (Unit {0}) × State = if b then (done tt, s) else (failed e, s) in
        Post (λ a. P) r.0 r.1)
tried P true e s p = p
tried P false e s p = tt

pub Ends-try :
    {E : Type 0} (P : State → Type 0) (d : Drivers) (e : E) (c : DriverCall)
    → ((s : State) → P s → P (record s { calls = c ∷ s.calls }))
    → Ends P (try d e c) (λ a. P)
Ends-try P d e c h = record {
  ends = λ s p. tried P (d.succeeds (c ∷ s.calls)) e (record s { calls = c ∷ s.calls }) (h s p);
}

Post-ended :
    {E A : Type 0} (Q : A → State → Type 0) (o : Outcome E A) (s : State)
    → Post Q o s
    → o ≢ unfinished
Post-ended Q o s p e = subst (λ o. Post Q o s) e p

pub AlwaysEnds-ended :
    {E A : Type 0} {m : M E A} → AlwaysEnds m → (s : State) → (m s).0 ≢ unfinished
AlwaysEnds-ended {m = m} e s = Post-ended (λ a. Any) (m s).0 (m s).1 (e.ends s tt)
