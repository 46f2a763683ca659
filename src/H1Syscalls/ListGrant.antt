-- ===== src/H1Syscalls/ListGrant.antt =====
-- A grant with memory for every process, to test with: a new process comes last.
use tock_on_titan.Common.{
  ℕ, List, [], ◌∷◌, ◌++◌, Option, none, some, ◌==◌, if◌then◌else◌, if-Holds, ◌≡◌, ◌⊎◌, inl, inr,
  refl, ap, subst,
}
use tock_on_titan.H1Syscalls.Grant.{Grant}

module _ {A : Type 0} (id : A → ℕ) (default : ℕ → A) where
  abbrev behind : A → Option (List A × A × List A) → Option (List A × A × List A)
  behind first none = none
  behind first (some (before, entry, after)) = some (first ∷ before, entry, after)

  unfoldable pub opened_in_list : ℕ → List A → Option (List A × A × List A)
  opened_in_list app [] = some ([], default app, [])
  opened_in_list app (entry ∷ apps) =
      if id entry == app then some ([], entry, apps) else behind entry (opened_in_list app apps)

  abbrev Opens : ℕ → List A → Option (List A × A × List A) → Type 0
  Opens app apps none = Unit {0}
  Opens app apps (some (before, entry, after)) =
      (apps ≡ before ++ (entry ∷ after)) ⊎ ((apps ≡ before ++ after) × (entry ≡ default app))

  behind-Opens :
      (app : ℕ) (first : A) (apps : List A) (o : Option (List A × A × List A))
      → Opens app apps o
      → Opens app (first ∷ apps) (behind first o)
  behind-Opens app first apps none p = tt
  behind-Opens app first apps (some (before, entry, after)) (inl q) = inl (ap (λ xs. first ∷ xs) q)
  behind-Opens app first apps (some (before, entry, after)) (inr (q, d)) =
      inr (ap (λ xs. first ∷ xs) q, d)

  opened_in_list-Opens : (app : ℕ) (apps : List A) → Opens app apps (opened_in_list app apps)
  unfolding opened_in_list
  opened_in_list-Opens app [] = inr (refl, refl)
  opened_in_list-Opens app (entry ∷ apps) =
      if-Holds (Opens app (entry ∷ apps)) (id entry == app) _ _ (inl refl)
        (behind-Opens app entry apps _ (opened_in_list-Opens app apps))

  pub opened_in_list_lem :
      (app : ℕ) (apps before after : List A) (entry : A)
      → opened_in_list app apps ≡ some (before, entry, after)
      → (apps ≡ before ++ (entry ∷ after)) ⊎ ((apps ≡ before ++ after) × (entry ≡ default app))
  opened_in_list_lem app apps before after entry e =
      subst (Opens app apps) e (opened_in_list-Opens app apps)

  abbrev pub in_list : Grant default
  in_list = record { opened = opened_in_list; opened_lem = opened_in_list_lem }
