-- ===== src/Spiutils/BitBuf/Results.antt =====
-- What `read_bits` and `write_bits` leave in a buffer whose unused bits are zero.
use tock_on_titan.Common.{
  ℕ, zero, suc, ◌+◌, ◌-◌, ◌*◌, ◌/◌, ◌%◌, ◌^◌, ◌<◌, ◌≤◌, ◌≡◌, ◌==◌, refl, subst, ltb, arith, false,
}
use native.Mathlib.Nat.{one-le-pow, mod-lt, mod-eq_of_lt, div-eq_of_lt}
use tock_on_titan.Spiutils.Io.{buffer_exhausted, ok, err}
use tock_on_titan.Spiutils.BitBuf.{BitBuf, read_bits, read_some_bits, write_bits}
use tock_on_titan.Spiutils.BitBuf.Masks.{mask_lem, append_lem, split_lem}

-- The bits beyond the length are zero.
unfoldable pub IsValid : BitBuf → Type 0
IsValid buf = (buf.len ≤ 8) × (buf.bits < 2 ^ buf.len)

pub power-positive : (n : ℕ) → 0 < 2 ^ n
power-positive n = one-le-pow n 2 (omega arith)

-- The buffer after reading `n` bits, and after writing the low `n` bits of `b`.
abbrev pub without : ℕ → BitBuf → BitBuf
without n buf = record { len = buf.len - n; bits = buf.bits % 2 ^ (buf.len - n) }

abbrev pub extended : ℕ → ℕ → BitBuf → BitBuf
extended n b buf = record { len = buf.len + n; bits = buf.bits * 2 ^ n + b % 2 ^ n }

pub write_bits-refused :
    (n b : ℕ) (buf : BitBuf)
    → buf.len + n < 2 ^ 32
    → 8 < buf.len + n
    → write_bits n b buf ≡ (err buffer_exhausted, buf)
unfolding write_bits
write_bits-refused n b buf small long = ground arith

pub write_bits-done :
    (n b : ℕ) (buf : BitBuf)
    → IsValid buf
    → b < 256
    → buf.len + n ≤ 8
    → (write_bits n b buf ≡ (ok tt, extended n b buf)) × IsValid (extended n b buf)
unfolding write_bits IsValid
write_bits-done n b buf (p, q) byte fits =
    let low : b % 2 ^ n < 2 ^ n = mod-lt b (power-positive n) in
    let (e, bound) = append_lem buf.len n buf.bits (b % 2 ^ n) fits q low in
    let l : (buf.len + n % 256) % 256 ≡ buf.len + n = omega arith in
    let accepted : ltb 8 ((buf.len + n) % 2 ^ 32) ≡ false = ground arith in
    (rw (accepted, mask_lem n b (omega arith) byte, e, l) refl, (fits, bound))

pub read_bits-refused :
    (n : ℕ) (buf : BitBuf) → buf.len < n → read_bits n buf ≡ (err buffer_exhausted, buf)
unfolding read_bits
read_bits-refused n buf short = ground arith

pub read_bits-done :
    (n : ℕ) (buf : BitBuf)
    → IsValid buf
    → n ≤ buf.len
    → (read_bits n buf ≡ (ok (buf.bits / 2 ^ (buf.len - n)), without n buf))
      × IsValid (without n buf)
      × (buf.bits / 2 ^ (buf.len - n) < 2 ^ n)
unfolding read_bits read_some_bits IsValid
read_bits-done zero buf (p, q) enough =
    let l : buf.len - 0 ≡ buf.len = omega arith in
    let accepted : ltb buf.len 0 ≡ false = ground arith in
    rw (l, div-eq_of_lt q, mod-eq_of_lt q, accepted) (refl, (p, q), omega arith)
read_bits-done (suc n) buf (p, q) enough =
    let offset : ℕ = buf.len - suc n in
    let q' : buf.bits < 2 ^ (offset + suc n) = subst (λ k. buf.bits < 2 ^ k) (omega arith) q in
    let (cleared, read, low) = split_lem offset (suc n) buf.bits (omega arith) (omega arith) q' in
    let l : (buf.len + 256 - suc n % 256) % 256 ≡ offset = omega arith in
    let accepted : ltb buf.len (suc n) ≡ false = ground arith in
    let some_bits : (suc n == 0) ≡ false = ground arith in
    (
      rw (accepted, some_bits, read, cleared, l) refl,
      (omega arith, mod-lt buf.bits (power-positive offset)),
      low,
    )
