-- ===== src/Common/Bits.antt =====
-- Facts about the bit operations: by evaluation over a small range, and laws of `bit_xor` from the
-- digit recursion of the native operation.
use Prim.Native.Nat.{
  ℕ, zero, suc, ◌+◌, ◌*◌, ◌/◌, ◌%◌, ◌^◌, ◌≤◌, ◌<◌, bit_xor, digits, differ, bit_xor-bitwise,
}
use mathlib.Core.Path.{◌≡◌, refl, ◌∙◌, ap}
use mathlib.Core.Bool.{Bool, true, ◌&&◌}
use native.Mathlib.Omega.{arith}
use native.Mathlib.Nat.{pow-suc}

-- Every value below the bound passes the test.
unfoldable pub passes_below : ℕ → (ℕ → Bool) → Bool
passes_below zero test = true
passes_below (suc bound) test = test bound && passes_below bound test

pub passes_below_sound :
    (bound : ℕ) (test : ℕ → Bool) (i : ℕ)
    → passes_below bound test ≡ true
    → i < bound
    → test i ≡ true
unfolding passes_below
passes_below_sound zero test i passed below = absurd (omega arith)
passes_below_sound (suc bound) test i passed below = ground (arith, passes_below_sound bound test i)

abbrev xor_digits : ℕ → ℕ → ℕ → ℕ
xor_digits n a b = digits (λ b. b) differ n a b

-- More steps than the first number has digits change nothing.
xor_digits_fuel :
    (steps more a b : ℕ) → a ≤ steps → a ≤ more → xor_digits steps a b ≡ xor_digits more a b
xor_digits_fuel (suc steps) (suc more) (suc a) b enough also =
    omega (arith, xor_digits_fuel steps more (suc a / 2) (b / 2) (omega arith) (omega arith))
xor_digits_fuel (suc steps) (suc more) zero b enough also = refl
xor_digits_fuel (suc steps) zero zero b enough also = refl
xor_digits_fuel zero (suc more) zero b enough also = refl
xor_digits_fuel zero zero a b enough also = refl
xor_digits_fuel (suc steps) zero (suc a) b enough also = absurd (omega arith)
xor_digits_fuel zero (suc more) (suc a) b enough also = absurd (omega arith)

zero-bit_xor : (b : ℕ) → bit_xor 0 b ≡ b
zero-bit_xor b = bit_xor-bitwise 0 b

differ-mod : (x y : ℕ) → x < 2 → y < 2 → differ x y ≡ (x + y) % 2
differ-mod zero y p q = omega arith
differ-mod (suc zero) zero p q = refl
differ-mod (suc zero) (suc zero) p q = refl
differ-mod (suc zero) (suc (suc y)) p q = absurd (omega arith)
differ-mod (suc (suc x)) y p q = absurd (omega arith)

-- The law for the lowest digit.
pub bit_xor_step : (a b : ℕ) → bit_xor a b ≡ bit_xor (a / 2) (b / 2) * 2 + (a % 2 + b % 2) % 2
bit_xor_step zero b = omega (arith, zero-bit_xor b, zero-bit_xor (b / 2))
bit_xor_step (suc a) b = omega (
  arith,
  bit_xor-bitwise (suc a) b,
  bit_xor-bitwise (suc a / 2) (b / 2),
  xor_digits_fuel a (suc a / 2) (suc a / 2) (b / 2) (omega arith) (omega arith),
  differ-mod (suc a % 2) (b % 2) (omega arith) (omega arith),
)

bit_xor_double : (a b : ℕ) → bit_xor (a * 2) (b * 2) ≡ bit_xor a b * 2
bit_xor_double a b =
    let p : a * 2 / 2 ≡ a = omega arith in
    let q : b * 2 / 2 ≡ b = omega arith in rw (p, q) at (bit_xor_step (a * 2) (b * 2)) ∙ omega arith

shift_suc : (n a : ℕ) → a * 2 ^ suc n ≡ a * 2 ^ n * 2
shift_suc n a = omega (arith, ap (λ (t : ℕ). a * t) (pow-suc 2 n))

-- `(a << n) ^ (b << n)` is `(a ^ b) << n`.
pub bit_xor_shift : (n a b : ℕ) → bit_xor (a * 2 ^ n) (b * 2 ^ n) ≡ bit_xor a b * 2 ^ n
bit_xor_shift zero a b =
    let p : a * 2 ^ 0 ≡ a = omega arith in
    let q : b * 2 ^ 0 ≡ b = omega arith in rw (p, q) (omega arith)
bit_xor_shift (suc n) a b =
    rw (shift_suc n a, shift_suc n b, shift_suc n (bit_xor a b), ← bit_xor_shift n a b)
      (bit_xor_double (a * 2 ^ n) (b * 2 ^ n))

-- The result has no more digits than the arguments.
pub bit_xor-lt : (n a b : ℕ) → a < 2 ^ n → b < 2 ^ n → bit_xor a b < 2 ^ n
bit_xor-lt zero zero zero p q = omega (arith, zero-bit_xor 0)
bit_xor-lt zero zero (suc b) p q = absurd (omega arith)
bit_xor-lt zero (suc a) b p q = absurd (omega arith)
bit_xor-lt (suc n) a b p q = omega (
  arith,
  bit_xor_step a b,
  pow-suc 2 n,
  bit_xor-lt n (a / 2) (b / 2) (omega (arith, pow-suc 2 n)) (omega (arith, pow-suc 2 n)),
)

bit_xor_cancel_fuel : (n k x y : ℕ) → x ≤ n → y ≤ n → bit_xor k x ≡ bit_xor k y → x ≡ y
bit_xor_cancel_fuel zero k x y p q e = omega arith
bit_xor_cancel_fuel (suc n) k x y p q e = omega (
  arith,
  bit_xor_cancel_fuel n (k / 2) (x / 2) (y / 2) (omega arith) (omega arith)
      (omega (arith, bit_xor_step k x, bit_xor_step k y)),
  bit_xor_step k x,
  bit_xor_step k y,
)

pub bit_xor_cancel : (k x y : ℕ) → bit_xor k x ≡ bit_xor k y → x ≡ y
bit_xor_cancel k x y e = bit_xor_cancel_fuel (x + y) k x y (omega arith) (omega arith) e

bit_xor_comm_fuel : (n a b : ℕ) → a ≤ n → b ≤ n → bit_xor a b ≡ bit_xor b a
bit_xor_comm_fuel zero zero zero p q = refl
bit_xor_comm_fuel zero zero (suc b) p q = absurd (omega arith)
bit_xor_comm_fuel zero (suc a) b p q = absurd (omega arith)
bit_xor_comm_fuel (suc n) a b p q = omega (
  arith,
  bit_xor_step a b,
  bit_xor_step b a,
  bit_xor_comm_fuel n (a / 2) (b / 2) (omega arith) (omega arith),
)

pub bit_xor_comm : (a b : ℕ) → bit_xor a b ≡ bit_xor b a
bit_xor_comm a b = bit_xor_comm_fuel (a + b) a b (omega arith) (omega arith)
