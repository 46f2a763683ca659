-- ===== src/Common/OrBits.antt =====
-- `bit_or` of numbers without a bit in common is their sum.
use Prim.Native.Nat.{
  ℕ, zero, suc, ◌+◌, ◌*◌, ◌/◌, ◌%◌, ◌^◌, ◌≤◌, ◌<◌, max, bit_or, digits, bit_or-bitwise,
}
use mathlib.Core.Path.{◌≡◌, refl, ap}
use native.Mathlib.Omega.{arith}
use native.Mathlib.Nat.{pow-suc}

abbrev or_digits : ℕ → ℕ → ℕ → ℕ
or_digits n a b = digits (λ b. b) max n a b

or_digits_fuel :
    (steps more a b : ℕ) → a ≤ steps → a ≤ more → or_digits steps a b ≡ or_digits more a b
or_digits_fuel (suc steps) (suc more) (suc a) b enough also =
    omega (arith, or_digits_fuel steps more (suc a / 2) (b / 2) (omega arith) (omega arith))
or_digits_fuel (suc steps) (suc more) zero b enough also = refl
or_digits_fuel (suc steps) zero zero b enough also = refl
or_digits_fuel zero (suc more) zero b enough also = refl
or_digits_fuel zero zero a b enough also = refl
or_digits_fuel (suc steps) zero (suc a) b enough also = absurd (omega arith)
or_digits_fuel zero (suc more) (suc a) b enough also = absurd (omega arith)

zero-bit_or : (b : ℕ) → bit_or 0 b ≡ b
zero-bit_or b = bit_or-bitwise 0 b

bit_or_step : (a b : ℕ) → bit_or a b ≡ bit_or (a / 2) (b / 2) * 2 + max (a % 2) (b % 2)
bit_or_step zero b = omega (arith, zero-bit_or b, zero-bit_or (b / 2))
bit_or_step (suc a) b = omega (
  arith,
  bit_or-bitwise (suc a) b,
  bit_or-bitwise (suc a / 2) (b / 2),
  or_digits_fuel a (suc a / 2) (suc a / 2) (b / 2) (omega arith) (omega arith),
)

pub bit_or-above : (n a b : ℕ) → a < 2 ^ n → bit_or a (b * 2 ^ n) ≡ a + b * 2 ^ n
bit_or-above zero zero b small = omega (arith, zero-bit_or (b * 2 ^ 0))
bit_or-above zero (suc a) b small = absurd (omega arith)
bit_or-above (suc n) a b small =
    let twice : b * 2 ^ suc n ≡ b * 2 ^ n * 2 =
      omega (arith, ap (λ (t : ℕ). b * t) (pow-suc 2 n)) in
    let half : b * 2 ^ suc n / 2 ≡ b * 2 ^ n = omega arith in
    let inner = bit_or-above n (a / 2) b (omega (arith, pow-suc 2 n)) in
    let step : bit_or a (b * 2 ^ suc n)
        ≡ bit_or (a / 2) (b * 2 ^ n) * 2 + max (a % 2) (b * 2 ^ suc n % 2) =
      rw (← half) (bit_or_step a (b * 2 ^ suc n)) in
    omega arith
