-- ===== src/Common/BitBounds.antt =====
-- The bits that a mask selects are no more than the mask.
use Prim.Native.Nat.{ℕ, zero, suc, ◌/◌, ◌≤◌, min, bit_and, digits, bit_and-bitwise}
use native.Mathlib.Omega.{arith}

digits-le : (steps a b : ℕ) → digits (λ b. zero) min steps a b ≤ b
digits-le (suc steps) (suc a) b = omega (arith, digits-le steps (suc a / 2) (b / 2))
digits-le (suc steps) zero b = omega arith
digits-le zero a b = omega arith

pub bit_and-le : (a b : ℕ) → bit_and a b ≤ b
bit_and-le a b = omega (arith, bit_and-bitwise a b, digits-le a a b)
