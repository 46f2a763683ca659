-- ===== src/Spiutils/Payload/Checksum.antt =====
-- payload.rs: the checksums of payloads that differ.
use tock_on_titan.Common.{
  ℕ, zero, suc, ◌+◌, ◌-◌, ◌*◌, ◌/◌, ◌%◌, ◌^◌, ◌≤◌, ◌<◌, ◌≡◌, ◌≢◌, refl, ap, ◌∙◌, sym, bit_and,
  bit_xor, List, [], ◌∷◌, ◌++◌, some, Bool, true, ◌&&◌, ◌==◌, ltb, if◌then◌else◌, length, take,
  arith, ==_iff, length-append, All, All-take, All-append, take-append_long, false,
}
use tock_on_titan.Common.Bits.{
  passes_below, passes_below_sound, bit_xor_shift, bit_xor-lt, bit_xor_cancel, bit_xor_comm,
}
use tock_on_titan.Spiutils.Payload.{Header, compute_checksum}
use tock_on_titan.Spiutils.Payload.Content.{content_type}
use tock_on_titan.Spiutils.Payload.ContentLaws.{ContentType-IsWireEnum}
use tock_on_titan.Spiutils.Payload.Crc.{crc_get, crc_round, crc_rounds, crc_byte, crc_add}

-- Eight rounds on a register whose lower byte is 0, as a map of the upper byte.
abbrev upper_rounds : ℕ → ℕ
upper_rounds k = crc_rounds 8 (k * 2 ^ 8) / 2 ^ 8

-- One round undone on the upper byte: only a subtracted polynomial leaves an odd byte.
abbrev undo_round : ℕ → ℕ
undo_round k = if k % 2 == 1 then bit_xor k 7 / 2 + 128 else k / 2

abbrev undo_rounds : ℕ → ℕ → ℕ
undo_rounds zero k = k
undo_rounds (suc n) k = undo_rounds n (undo_round k)

abbrev rounds_test : ℕ → Bool
rounds_test k =
    (crc_rounds 8 (k * 2 ^ 8) == upper_rounds k * 2 ^ 8)
    && (ltb (upper_rounds k) 256 && (undo_rounds 8 (upper_rounds k) == k))

rounds_table : passes_below 256 rounds_test ≡ true
unfolding passes_below crc_rounds crc_round
rounds_table = refl

record Rounds (k : ℕ) : Type 0 where
  upper : crc_rounds 8 (k * 2 ^ 8) ≡ upper_rounds k * 2 ^ 8
  is_byte : upper_rounds k < 256
  undone : undo_rounds 8 (upper_rounds k) ≡ k

tests_split :
    (a b c d : ℕ) (e f : ℕ)
    → ((a == b) && (ltb c d && (e == f))) ≡ true
    → (a ≡ b) × (c < d) × (e ≡ f)
tests_split a b c d e f h = ground arith

rounds_lem : (k : ℕ) → k < 256 → Rounds k
rounds_lem k h =
    let t = tests_split _ _ _ _ _ _ (passes_below_sound 256 rounds_test k rounds_table h) in
    record { upper = t.0; is_byte = t.1; undone = t.2 }

upper_rounds_injective : (j k : ℕ) → j < 256 → k < 256 → upper_rounds j ≡ upper_rounds k → j ≡ k
upper_rounds_injective j k p q e =
    sym ((rounds_lem j p).undone) ∙ ap (undo_rounds 8) e ∙ (rounds_lem k q).undone

-- A byte added to a register whose lower byte is 0.
abbrev next : ℕ → ℕ → ℕ
next k byte = upper_rounds (bit_xor k byte)

crc_byte_upper :
    (k byte : ℕ) → k < 256 → byte < 256 → crc_byte (k * 2 ^ 8) byte ≡ next k byte * 2 ^ 8
unfolding crc_byte
crc_byte_upper k byte p q =
    rw (bit_xor_shift 8 k byte) (rounds_lem (bit_xor k byte) (bit_xor-lt 8 k byte p q)).upper

next-lt : (k byte : ℕ) → k < 256 → byte < 256 → next k byte < 256
next-lt k byte p q = (rounds_lem (bit_xor k byte) (bit_xor-lt 8 k byte p q)).is_byte

next_xor :
    (j k x y : ℕ)
    → j < 256
    → k < 256
    → x < 256
    → y < 256
    → next j x ≡ next k y
    → bit_xor j x ≡ bit_xor k y
next_xor j k x y p q r s e =
    upper_rounds_injective _ _ (bit_xor-lt 8 j x p r) (bit_xor-lt 8 k y q s) e

abbrev upper_add : ℕ → List ℕ → ℕ
upper_add k [] = k
upper_add k (byte ∷ bytes) = upper_add (next k byte) bytes

abbrev pub AreBytes : List ℕ → Type 0
AreBytes = All λ b. b < 256

crc_add_upper :
    (k : ℕ) (bytes : List ℕ)
    → k < 256
    → AreBytes bytes
    → (crc_add (k * 2 ^ 8) bytes ≡ upper_add k bytes * 2 ^ 8) × (upper_add k bytes < 256)
unfolding crc_add
crc_add_upper k [] p v = (refl, p)
crc_add_upper k (byte ∷ bytes) p v =
    rw (crc_byte_upper k byte p v.0) (crc_add_upper (next k byte) bytes (next-lt k byte p v.0) v.1)

upper_add_injective :
    (bytes : List ℕ) (j k : ℕ)
    → j < 256
    → k < 256
    → AreBytes bytes
    → upper_add j bytes ≡ upper_add k bytes
    → j ≡ k
upper_add_injective [] j k p q v e = e
upper_add_injective (byte ∷ bytes) j k p q v e =
    let f = next_xor j k byte byte p q v.0 v.0 (
      upper_add_injective bytes (next j byte) (next k byte) (next-lt j byte p v.0)
        (next-lt k byte q v.0) v.1 e) in
    bit_xor_cancel byte j k (bit_xor_comm byte j ∙ f ∙ bit_xor_comm k byte)

upper_add-append : (k : ℕ) (xs ys : List ℕ) → upper_add k (xs ++ ys) ≡ upper_add (upper_add k xs) ys
upper_add-append k [] ys = refl
upper_add-append k (x ∷ xs) ys = upper_add-append (next k x) xs ys

-- One wrong byte changes the register, whatever stands around it.
upper_add_differs :
    (k x y : ℕ) (front back : List ℕ)
    → k < 256
    → x < 256
    → y < 256
    → AreBytes front
    → AreBytes back
    → upper_add k (front ++ x ∷ back) ≡ upper_add k (front ++ y ∷ back)
    → x ≡ y
upper_add_differs k x y front back p q r v w e =
    let m = upper_add k front in
    let m_byte = (crc_add_upper k front p v).1 in
    bit_xor_cancel m x y (
      next_xor m m x y m_byte m_byte q r (
        upper_add_injective back (next m x) (next m y) (next-lt m x m_byte q) (next-lt m y m_byte r)
          w (sym (upper_add-append k front (x ∷ back)) ∙ e ∙ upper_add-append k front (y ∷ back))))

byte_table : passes_below 256 (λ k. bit_and k 0xff == k) ≡ true
unfolding passes_below
byte_table = refl

crc_get_upper : (k : ℕ) → k < 256 → crc_get (k * 2 ^ 8) ≡ k
unfolding crc_get
crc_get_upper k h =
    let e : k * 2 ^ 8 / 2 ^ 8 ≡ k = omega arith in
    rw e ((==_iff _ _).0 (passes_below_sound 256 (λ k. bit_and k 0xff == k) k byte_table h))

-- The bytes that the checksum covers: content type, length and content.
abbrev covered : Header → List ℕ → List ℕ
covered h payload =
    (content_type.to_wire_value h.content ∷ [])
    ++ ((h.content_len / 256 % 256) ∷ (h.content_len % 256) ∷ take h.content_len payload)

crc_add-append : (crc : ℕ) (xs ys : List ℕ) → crc_add (crc_add crc xs) ys ≡ crc_add crc (xs ++ ys)
unfolding crc_add
crc_add-append crc [] ys = refl
crc_add-append crc (x ∷ xs) ys = crc_add-append (crc_byte crc x) xs ys

covered-AreBytes : (h : Header) (payload : List ℕ) → AreBytes payload → AreBytes (covered h payload)
covered-AreBytes h payload v = (
  ContentType-IsWireEnum.value_is_byte h.content,
  (omega arith, (omega arith, All-take (λ b. b < 256) h.content_len payload v)),
)

compute_checksum-covered :
    (h : Header) (payload : List ℕ)
    → h.content_len ≤ length payload
    → AreBytes payload
    → compute_checksum h payload ≡ some (upper_add 0 (covered h payload))
unfolding compute_checksum
compute_checksum-covered h payload k v =
    let (e, b) = crc_add_upper 0 (covered h payload) (omega arith) (covered-AreBytes h payload v) in
    let fits : ltb (length payload) h.content_len ≡ false = ground arith in
    rw (fits, crc_add-append, crc_add-append)
      (ap (λ (n : ℕ). some (crc_get n)) e ∙ ap some (crc_get_upper _ b))

covered_split :
    (h : Header) (front back : List ℕ) (x : ℕ)
    → length front < h.content_len
    → covered h (front ++ x ∷ back)
      ≡ (content_type.to_wire_value h.content
          ∷ (h.content_len / 256 % 256)
          ∷ (h.content_len % 256)
          ∷ front)
        ++ x ∷ take (h.content_len - length front - 1) back
covered_split h front back x k =
    let e : h.content_len - length front ≡ suc (h.content_len - length front - 1) = omega arith in
    let t : take (h.content_len - length front) (x ∷ back)
        ≡ x ∷ take (h.content_len - length front - 1) back =
      ap (λ (n : ℕ). take n (x ∷ back)) e in
    rw (take-append_long {0} h.content_len front (x ∷ back) (omega arith), t)

some_eq : (a b : ℕ) → some a ≡ some b → a ≡ b
some_eq a b e = cc

-- Two payloads that differ in exactly one of the bytes that the header says they hold have
-- different checksums, so that one of them at most matches the header.
pub compute_checksum_detects :
    (h : Header) (front back : List ℕ) (x y : ℕ)
    → length front < h.content_len
    → h.content_len ≤ length front + 1 + length back
    → AreBytes front
    → AreBytes back
    → x < 256
    → y < 256
    → x ≢ y
    → compute_checksum h (front ++ x ∷ back) ≢ compute_checksum h (front ++ y ∷ back)
compute_checksum_detects h front back x y k l v w p q ne e = ne (
    upper_add_differs 0 x y
      (content_type.to_wire_value h.content
        ∷ (h.content_len / 256 % 256)
        ∷ (h.content_len % 256)
        ∷ front)
      (take (h.content_len - length front - 1) back) (omega arith) p q
      (ContentType-IsWireEnum.value_is_byte h.content, (omega arith, (omega arith, v)))
      (All-take (λ b. b < 256) _ back w)
      (sym (ap (upper_add 0) (covered_split h front back x k))
        ∙ some_eq _ _ (sym (covers x p) ∙ e ∙ covers y q)
        ∙ ap (upper_add 0) (covered_split h front back y k)))
  where
    covers :
        (z : ℕ)
        → z < 256
        → compute_checksum h (front ++ z ∷ back)
          ≡ some (upper_add 0 (covered h (front ++ z ∷ back)))
    covers z r =
        compute_checksum-covered h (front ++ z ∷ back)
          (omega (arith, length-append {0} front (z ∷ back), l))
          (All-append (λ b. b < 256) front (z ∷ back) v (r, w))
