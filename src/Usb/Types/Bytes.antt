-- ===== src/Usb/Types/Bytes.antt =====
-- The bytes of the words in a FIFO buffer, the lowest first, and what writing in order leaves.
use tock_on_titan.Common.{
  ℕ, zero, suc, ◌+◌, ◌*◌, ◌/◌, ◌%◌, ◌^◌, ◌<◌, ◌≤◌, ◌≡◌, refl, ap, bit_or, List, [], ◌∷◌, ◌++◌,
  append_assoc, some, ltb, length, length-append, set, drop, arith, true, lt→ltb,
}
use tock_on_titan.Common.OrBits.{bit_or-above}
use tock_on_titan.Usb.Types.{put, put_all}

unfoldable pub le_bytes : List ℕ → List ℕ
le_bytes [] = []
le_bytes (w ∷ ws) = w % 256 ∷ w / 2 ^ 8 % 256 ∷ w / 2 ^ 16 % 256 ∷ w / 2 ^ 24 % 256 ∷ le_bytes ws

pub set-append :
    (pre : List ℕ) (i v x : ℕ) (rest : List ℕ)
    → length pre ≡ i
    → set (pre ++ x ∷ rest) i v ≡ pre ++ v ∷ rest
set-append [] zero v x rest e = refl
set-append [] (suc i) v x rest e = absurd (omega arith)
set-append (p ∷ pre) zero v x rest e = absurd (omega arith)
set-append (p ∷ pre) (suc i) v x rest e = ap (◌∷◌ p) (set-append pre i v x rest (omega arith))

pub put-append :
    (pre : List ℕ) (i v x : ℕ) (rest : List ℕ)
    → length pre ≡ i
    → put i v (pre ++ x ∷ rest) ≡ some (pre ++ v ∷ rest)
unfolding put
put-append pre i v x rest e =
    let inside : ltb i (length (pre ++ x ∷ rest)) ≡ true =
      lt→ltb _ _ (omega (arith, length-append pre (x ∷ rest))) in
    rw (inside, set-append pre i v x rest e) refl

put_all-append :
    (pre values buf : List ℕ) (i : ℕ)
    → length pre ≡ i
    → length values ≤ length buf
    → put_all i values (pre ++ buf) ≡ some (pre ++ (values ++ drop (length values) buf))
unfolding put_all
put_all-append pre [] buf i e fits = refl
put_all-append pre (v ∷ values) [] i e fits = absurd (omega arith)
put_all-append pre (v ∷ values) (x ∷ buf) i e fits =
    let next =
      put_all-append (pre ++ v ∷ []) values buf (suc i) (omega (arith, length-append pre (v ∷ [])))
        (omega arith) in
    rw (put_all, put-append pre i v x buf e)
      (rw
        (
          append_assoc pre (v ∷ []) buf,
          append_assoc pre (v ∷ []) (values ++ drop (length values) buf),
        )
        at next)

pub put_all-front :
    (values buf : List ℕ)
    → length values ≤ length buf
    → put_all 0 values buf ≡ some (values ++ drop (length values) buf)
put_all-front values buf fits = put_all-append [] values buf 0 refl fits

-- A word put together of four bytes, and of two bytes and a half word.
pub bytes_of_word :
    (a b c d : ℕ) (ws : List ℕ)
    → a < 256
    → b < 256
    → c < 256
    → d < 256
    → le_bytes (bit_or (bit_or (bit_or a (b * 2 ^ 8)) (c * 2 ^ 16)) (d * 2 ^ 24) ∷ ws)
      ≡ a ∷ b ∷ c ∷ d ∷ le_bytes ws
unfolding le_bytes
bytes_of_word a b c d ws p q r s =
    let n : ℕ = a + b * 2 ^ 8 + c * 2 ^ 16 + d * 2 ^ 24 in
    let lowest : n % 256 ≡ a = omega arith in
    let second : n / 2 ^ 8 % 256 ≡ b = omega arith in
    let third : n / 2 ^ 16 % 256 ≡ c = omega arith in
    let fourth : n / 2 ^ 24 % 256 ≡ d = omega arith in
    rw (bit_or-above 8 a b (omega arith)) (
      rw (bit_or-above 16 (a + b * 2 ^ 8) c (omega arith)) (
        rw (bit_or-above 24 (a + b * 2 ^ 8 + c * 2 ^ 16) d (omega arith))
          (rw (lowest, second, third, fourth) refl)))

pub bytes_of_half_word :
    (a b h : ℕ) (ws : List ℕ)
    → a < 256
    → b < 256
    → h < 2 ^ 16
    → le_bytes (bit_or (bit_or a (b * 2 ^ 8)) (h * 2 ^ 16) ∷ ws)
      ≡ a ∷ b ∷ h % 256 ∷ h / 2 ^ 8 % 256 ∷ le_bytes ws
unfolding le_bytes
bytes_of_half_word a b h ws p q r =
    let n : ℕ = a + b * 2 ^ 8 + h * 2 ^ 16 in
    let lowest : n % 256 ≡ a = omega arith in
    let second : n / 2 ^ 8 % 256 ≡ b = omega arith in
    let third : n / 2 ^ 16 % 256 ≡ h % 256 = omega arith in
    let fourth : n / 2 ^ 24 % 256 ≡ h / 2 ^ 8 % 256 = omega arith in
    rw (bit_or-above 8 a b (omega arith)) (
      rw (bit_or-above 16 (a + b * 2 ^ 8) h (omega arith))
        (rw (lowest, second, third, fourth) refl))
