-- ===== src/Otpilot/Keeps.antt =====
-- What a method of the process keeps: a predicate of the state that holds before it holds after it,
-- however it ends.
use tock_on_titan.Common.{if-Holds, ◌≡◌, Bool, true, false, if◌then◌else◌, ◌∷◌, Option, none, some}
use tock_on_titan.Spiutils.Io.{Result, ok, err}
use tock_on_titan.Otpilot.Drivers.{
  DriverCall, Drivers, State, Outcome, done, failed, panicked, unfinished, M, proceed, ◌>>=◌, ◌>>◌,
  succeed, fail, panic, get, modify, call, try,
}

-- A method whose first part is known to return.
pub bind-done :
    {E A B : Type 0} (m : M E A) (f : A → M E B) (s s' : State) (a : A)
    → m s ≡ (done a, s')
    → (m >>= f) s ≡ f a s'
bind-done m f s s' a e = rw e

pub record Keeps {E A : Type 0} (P : State → Type 0) (m : M E A) : Type 0 where
  pub keeps : (s : State) → P s → P (m s).1

module _ {E A B : Type 0} {P : State → Type 0} where
  proceed-lem :
      (o : Outcome E A) (f : A → M E B) (s : State)
      → ((a : A) → Keeps P (f a))
      → P s
      → P (proceed o f s).1
  proceed-lem (done a) f s k p = (k a).keeps s p
  proceed-lem (failed e) f s k p = p
  proceed-lem panicked f s k p = p
  proceed-lem unfinished f s k p = p

  pub Keeps-bind :
      {m : M E A} {f : A → M E B} → Keeps P m → ((a : A) → Keeps P (f a)) → Keeps P (m >>= f)
  Keeps-bind {m} {f} k l = record { keeps = λ s p. proceed-lem (m s).0 f (m s).1 l (k.keeps s p) }

  -- A part of the state is read first.
  pub Keeps-get :
      (g : State → A) (f : A → M E B) → ((a : A) → Keeps P (f a)) → Keeps P (get g >>= f)
  Keeps-get g f k = record { keeps = λ s p. (k (g s)).keeps s p }

-- From a state on: what comes first may establish the predicate.
pub after-bind :
    {E A B : Type 0} (P : State → Type 0) (m : M E A) (f : A → M E B) (s : State)
    → P (m s).1
    → ((a : A) → Keeps P (f a))
    → P ((m >>= f) s).1
after-bind P m f s p k = proceed-lem (m s).0 f (m s).1 k p

module _ {E A : Type 0} {P : State → Type 0} where
  pub Keeps-succeed : (a : A) → Keeps P (succeed {E = E} {A = A} a)
  Keeps-succeed a = record { keeps = λ s p. p }

  pub Keeps-read : (g : State → A) → Keeps P (get {E = E} g)
  Keeps-read g = record { keeps = λ s p. p }

  pub Keeps-fail : (e : E) → Keeps P (fail {E = E} {A = A} e)
  Keeps-fail e = record { keeps = λ s p. p }

  pub Keeps-panic : Keeps P (panic {E = E} {A = A})
  Keeps-panic = record { keeps = λ s p. p }

  pub Keeps-if : (b : Bool) {m k : M E A} → Keeps P m → Keeps P k → Keeps P (if b then m else k)
  Keeps-if true p q = p
  Keeps-if false p q = q

pub Keeps-elim :
    {E A : Type 0} {P : State → Type 0} (b : Bool) {m k : M E A}
    → Keeps P m
    → Keeps P k
    → Keeps P (elim b [ true ↦ m | false ↦ k ])
Keeps-elim true p q = p
Keeps-elim false p q = q

pub Keeps-Option :
    {E A B : Type 0} {P : State → Type 0} (o : Option B) {f : B → M E A} {k : M E A}
    → ((b : B) → Keeps P (f b))
    → Keeps P k
    → Keeps P (elim o [ some b ↦ f b | none ↦ k ])
Keeps-Option (some b) p q = p b
Keeps-Option none p q = q

pub Keeps-Result :
    {D E A B : Type 0} {P : State → Type 0} (r : Result D B) {f : B → M E A} {k : D → M E A}
    → ((b : B) → Keeps P (f b))
    → ((e : D) → Keeps P (k e))
    → Keeps P (elim r [ ok b ↦ f b | err e ↦ k e ])
Keeps-Result (ok b) p q = p b
Keeps-Result (err e) p q = q e

pub Keeps-modify :
    {E A : Type 0} {P : State → Type 0} (g : State → State) (m : M E A)
    → ((s : State) → P s → P (g s))
    → Keeps P m
    → Keeps P (modify g >> m)
Keeps-modify g m h k = record { keeps = λ s p. k.keeps (g s) (h s p) }

module _ {E : Type 0} where
  pub after-try :
      (P : State → Type 0) (d : Drivers) (e : E) (c : DriverCall) (s : State)
      → P (record s { calls = c ∷ s.calls })
      → P (try d e c s).1
  after-try P d e c s p =
      let s' : State = record s { calls = c ∷ s.calls } in
      if-Holds (λ (r : Outcome E (Unit {0}) × State). P r.1) (d.succeeds s'.calls) (done tt, s')
        (failed e, s') p p

module _ {E : Type 0} {P : State → Type 0} where
  pub Keeps-call :
      (c : DriverCall)
      → ((s : State) → P s → P (record s { calls = c ∷ s.calls }))
      → Keeps P (call {E = E} c)
  Keeps-call c h = record { keeps = h }

  pub Keeps-try :
      (d : Drivers) (e : E) (c : DriverCall)
      → ((s : State) → P s → P (record s { calls = c ∷ s.calls }))
      → Keeps P (try d e c)
  Keeps-try d e c h = record { keeps = λ s p. after-try P d e c s (h s p) }
