-- ===== src/H1Syscalls/Grant.antt =====
-- `kernel::Grant` of the Tock kernel, a submodule. The data of the processes that have some are a
-- list, in the order in which the kernel visits them.
use tock_on_titan.Common.{ℕ, List, ◌∷◌, ◌++◌, Option, none, some, ◌≡◌, ◌⊎◌}

-- Entering the data of a process finds the ones that are visited before them, the data, and those
-- that are visited after them, or nothing where there is no memory. A process that is entered for
-- the first time gets the default data.
pub record Grant {A : Type 0} (default : ℕ → A) : Type 0 where
  pub opened : ℕ → List A → Option (List A × A × List A)
  pub opened_lem :
      (app : ℕ) (apps before after : List A) (entry : A)
      → opened app apps ≡ some (before, entry, after)
      → (apps ≡ before ++ (entry ∷ after)) ⊎ ((apps ≡ before ++ after) × (entry ≡ default app))

-- The closure answers and changes the data.
unfoldable pub entered :
    {A R : Type 0} → R → (A → R × A) → List A → Option (List A × A × List A) → R × List A
entered refused f apps none = (refused, apps)
entered refused f apps (some (before, entry, after)) =
    let (answer, entry') = f entry in (answer, before ++ (entry' ∷ after))

-- `grant.enter(app, f).unwrap_or(refused)`
unfoldable pub enter :
    {A R : Type 0} {default : ℕ → A} → Grant default → R → ℕ → (A → R × A) → List A → R × List A
enter grant refused app f apps = entered refused f apps (grant.opened app apps)

entered-Holds :
    {A R : Type 0} (Q : R → Type 0) (refused : R) (f : A → R × A) (apps : List A)
    (o : Option (List A × A × List A))
    → Q refused
    → ((a : A) → Q (f a).0)
    → Q (entered refused f apps o).0
unfolding entered
entered-Holds Q refused f apps none q h = q
entered-Holds Q refused f apps (some (before, entry, after)) q h = h entry

-- What holds of the answer without memory, and of every answer of the closure.
pub enter-Holds :
    {A R : Type 0} {default : ℕ → A} (grant : Grant default) (Q : R → Type 0) (refused : R)
    (app : ℕ) (f : A → R × A) (apps : List A)
    → Q refused
    → ((a : A) → Q (f a).0)
    → Q (enter grant refused app f apps).0
unfolding enter
enter-Holds grant Q refused app f apps q h =
    entered-Holds Q refused f apps (grant.opened app apps) q h
