-- ===== src/Spiutils/BitBuf/BitsOf.antt =====
-- The bits of numbers that stand side by side, of a remainder and of zero, and the number back.
use tock_on_titan.Common.{
  ℕ, zero, suc, ◌+◌, ◌*◌, ◌/◌, ◌%◌, ◌^◌, ◌<◌, ◌≡◌, refl, ap, ◌∙◌, Bool, false, not, List, [], ◌∷◌,
  ◌++◌, append_assoc, length, length-append, ◌==◌, if◌then◌else◌, arith, append-nil,
}
use native.Mathlib.Nat.{pow-suc, mod-lt, mod-eq_of_lt, div-add-mod', mul-add-mod_self_right}
use tock_on_titan.Spiutils.BitBuf.Results.{power-positive}
use tock_on_titan.Spiutils.BitBuf.Queue.{bits_of, number, zeros}

pub length-bits_of : (n b : ℕ) → length (bits_of n b) ≡ n
unfolding bits_of
length-bits_of zero b = refl
length-bits_of (suc n) b =
    omega
      (arith, length-append (bits_of n (b / 2)) ((not (b % 2 == 0)) ∷ []), length-bits_of n (b / 2))

-- Numbers side by side give their bits one after the other.
pub bits_of-append :
    (l n b m : ℕ) → m < 2 ^ n → bits_of (l + n) (b * 2 ^ n + m) ≡ bits_of l b ++ bits_of n m
unfolding bits_of
bits_of-append l zero b m small =
    let k : l + 0 ≡ l = omega arith in
    let e : b * 2 ^ 0 + m ≡ b = omega arith in rw (k, e, append-nil (bits_of l b)) refl
bits_of-append l (suc n) b m small =
    let p = pow-suc 2 n in
    let k : l + suc n ≡ suc (l + n) = omega arith in
    let twice : b * 2 ^ suc n ≡ b * 2 ^ n * 2 = omega (arith, ap (λ (t : ℕ). b * t) p) in
    let half : (b * 2 ^ suc n + m) / 2 ≡ b * 2 ^ n + m / 2 = omega arith in
    let parity : (b * 2 ^ suc n + m) % 2 ≡ m % 2 = omega arith in
    rw (k, half, parity, bits_of-append l n b (m / 2) (omega arith))
      (append_assoc (bits_of l b) (bits_of n (m / 2)) _)

mod-halves : (n b : ℕ) → b % 2 ^ suc n ≡ b / 2 % 2 ^ n * 2 + b % 2
mod-halves n b =
    let high : ℕ = b / 2 / 2 ^ n in
    let low : ℕ = b / 2 % 2 ^ n * 2 + b % 2 in
    let parts = div-add-mod' (b / 2) (2 ^ n) in
    let below = mod-lt (b / 2) (power-positive n) in
    let e : b ≡ high * 2 ^ suc n + low =
      omega (arith, parts, ap (λ (t : ℕ). high * t) (pow-suc 2 n)) in
    ap (λ k. k % 2 ^ suc n) e
    ∙ mul-add-mod_self_right high (2 ^ suc n) low
    ∙ mod-eq_of_lt (omega (arith, below, pow-suc 2 n))

pub bits_of-mod : (n b : ℕ) → bits_of n (b % 2 ^ n) ≡ bits_of n b
unfolding bits_of
bits_of-mod zero b = refl
bits_of-mod (suc n) b =
    let e = mod-halves n b in
    let half : b % 2 ^ suc n / 2 ≡ b / 2 % 2 ^ n = omega (arith, e) in
    let parity : b % 2 ^ suc n % 2 ≡ b % 2 = omega (arith, e) in
    rw (half, parity, bits_of-mod n (b / 2)) refl

number-append : (high : ℕ) (p q : List Bool) → number high (p ++ q) ≡ number (number high p) q
unfolding number
number-append high [] q = refl
number-append high (b ∷ p) q = number-append (high * 2 + (if b then 1 else 0)) p q

pub number-bits_of : (n b : ℕ) → b < 2 ^ n → number 0 (bits_of n b) ≡ b
unfolding bits_of number
number-bits_of zero b small = omega arith
number-bits_of (suc n) b small =
    rw
      (
        number-append 0 (bits_of n (b / 2)) ((not (b % 2 == 0)) ∷ []),
        number-bits_of n (b / 2) (omega (arith, pow-suc 2 n)),
      )
      (ground arith)

zeros-append : (n : ℕ) → zeros n ++ false ∷ [] ≡ false ∷ zeros n
unfolding zeros
zeros-append zero = refl
zeros-append (suc n) = ap (◌∷◌ false) (zeros-append n)

pub bits_of-zero : (n : ℕ) → bits_of n 0 ≡ zeros n
unfolding bits_of zeros
bits_of-zero zero = refl
bits_of-zero (suc n) = ap (λ q. q ++ false ∷ []) (bits_of-zero n) ∙ zeros-append n
