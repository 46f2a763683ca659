-- ===== src/Spiutils/BitBuf/Masks.antt =====
-- What the masks and shifts of `BitBuf` do to a byte: by evaluation of every case.
use tock_on_titan.Common.{
  ℕ, ◌+◌, ◌-◌, ◌*◌, ◌/◌, ◌%◌, ◌^◌, ◌<◌, ◌≤◌, ◌≡◌, refl, bit_and, bit_or, true, ltb, ◌&&◌, ◌==◌,
  ==_iff, arith, Bool,
}
use tock_on_titan.Common.Bits.{passes_below, passes_below_sound}
use tock_on_titan.Spiutils.BitBuf.{inverse_popcnt, clear_bits}

mask_table :
    passes_below 9 (λ n. passes_below 256 (λ b. bit_and b (inverse_popcnt n) == b % 2 ^ n)) ≡ true
unfolding passes_below inverse_popcnt
mask_table = refl

pub mask_lem : (n b : ℕ) → n ≤ 8 → b < 256 → bit_and b (inverse_popcnt n) ≡ b % 2 ^ n
mask_lem n b p q =
    (==_iff _ _).0
      (passes_below_sound 256 _ b (passes_below_sound 9 _ n mask_table (omega arith)) (omega arith))

abbrev appends : ℕ → ℕ → ℕ → ℕ → Bool
appends l n b m =
    (bit_or (b * 2 ^ (n % 8) % 256) m == b * 2 ^ n + m) && ltb (b * 2 ^ n + m) (2 ^ (l + n))

append_table :
    passes_below 9 (λ l.
      passes_below
        (9 - l)
        (λ n. passes_below (2 ^ l) (λ b. passes_below (2 ^ n) (λ m. appends l n b m))))
    ≡ true
unfolding passes_below
append_table = refl

abbrev splits : ℕ → ℕ → ℕ → Bool
splits offset n b =
    (clear_bits (inverse_popcnt n) offset b == b % 2 ^ offset)
    && (bit_and (b / 2 ^ (offset % 8)) (inverse_popcnt n) == b / 2 ^ offset)
    && ltb (b / 2 ^ offset) (2 ^ n)

split_table :
    passes_below 8 (λ offset.
      passes_below (9 - offset) (λ n. passes_below (2 ^ (offset + n)) (λ b. splits offset n b)))
    ≡ true
unfolding passes_below inverse_popcnt clear_bits
split_table = refl

pub append_lem :
    (l n b m : ℕ)
    → l + n ≤ 8
    → b < 2 ^ l
    → m < 2 ^ n
    → (bit_or (b * 2 ^ (n % 8) % 256) m ≡ b * 2 ^ n + m) × (b * 2 ^ n + m < 2 ^ (l + n))
append_lem l n b m p q r =
    let at_length = passes_below_sound 9 _ l append_table (omega arith) in
    let at_count = passes_below_sound (9 - l) _ n at_length (omega arith) in
    let at_bits = passes_below_sound (2 ^ l) _ b at_count q in
    let test : appends l n b m ≡ true = passes_below_sound (2 ^ n) _ m at_bits r in
    ground (arith, test)

pub split_lem :
    (offset n b : ℕ)
    → offset < 8
    → offset + n ≤ 8
    → b < 2 ^ (offset + n)
    → (clear_bits (inverse_popcnt n) offset b ≡ b % 2 ^ offset)
      × (bit_and (b / 2 ^ (offset % 8)) (inverse_popcnt n) ≡ b / 2 ^ offset)
      × (b / 2 ^ offset < 2 ^ n)
split_lem offset n b p q r =
    let at_offset = passes_below_sound 8 _ offset split_table p in
    let at_count = passes_below_sound (9 - offset) _ n at_offset (omega arith) in
    let test : splits offset n b ≡ true = passes_below_sound (2 ^ (offset + n)) _ b at_count r in
    ground (arith, test)
