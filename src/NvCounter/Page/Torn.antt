-- ===== src/NvCounter/Page/Torn.antt =====
-- internal.rs on a page whose last write was cut off: of the four bits that it was to clear, it has
-- cleared some and not others.
use tock_on_titan.Common.{
  ℕ, zero, suc, ◌+◌, ◌-◌, ◌*◌, ◌/◌, ◌%◌, ◌^◌, ◌<◌, ◌≡◌, refl, ap, arith, Bool, true, false, ◌==◌,
  ◌&&◌, not, if◌then◌else◌, none, inl, inr, Bool-cases, ==_iff, ◌∙◌,
}
use tock_on_titan.Common.Bits.{passes_below, passes_below_sound}
use tock_on_titan.ReturnCode.{success_with_value}
use tock_on_titan.NvCounter.Device.{Device, read, words_per_page, erased_word}
use tock_on_titan.NvCounter.Page.{
  Page, page_offset, counts_per_page, write_pattern, decode_word, scan_word, scan_page,
  read_page_count,
}
use tock_on_titan.NvCounter.Page.Count.{Stores, count_word, read_page, read_page_count_lem}
use tock_on_titan.NvCounter.Page.Decode.{decode_word-write_pattern, write_pattern-lt}
use tock_on_titan.NvCounter.Page.Update.{pattern-count_word, count_word-away}

-- The four bits that the write after `k` counts clears, where the bits of `m` are still set.
abbrev kept_bits : ℕ → ℕ → ℕ
kept_bits k m =
    if k % 2 == 0
    then (m % 4 + m / 4 * 64) * 2 ^ (24 - 8 * (k / 2))
    else m * 4 * 2 ^ (24 - 8 * (k / 2))

-- The word in the middle of the write after `k` counts: at `m = 15` nothing has been cleared, and
-- at `m = 0` all four bits have.
abbrev pub torn_word : ℕ → ℕ → ℕ
torn_word k m = write_pattern k + kept_bits k m

abbrev torn_test : ℕ → ℕ → Bool
torn_test k m = (decode_word (torn_word k m) == k + 1) && not (torn_word k m == erased_word)

torn_table : passes_below 120 (λ x. torn_test (x / 15) (x % 15)) ≡ true
unfolding passes_below decode_word
torn_table = refl

torn_test_passes : (k m : ℕ) → k < 8 → m < 15 → torn_test k m ≡ true
torn_test_passes k m h j =
    let a : (k * 15 + m) / 15 ≡ k = omega arith in
    let b : (k * 15 + m) % 15 ≡ m = omega arith in
    rw (a, b) at
      (passes_below_sound 120 (λ x. torn_test (x / 15) (x % 15)) (k * 15 + m) torn_table
        (omega arith))

and_cases : (a b : Bool) → (a && not b) ≡ true → (a ≡ true) × (b ≡ false)
and_cases a b h = ground arith

decode_word-torn_word :
    (k m : ℕ)
    → k < 8
    → m < 15
    → (decode_word (torn_word k m) ≡ k + 1) × ((torn_word k m == erased_word) ≡ false)
decode_word-torn_word k m h j =
    let both = and_cases _ _ (torn_test_passes k m h j) in ((==_iff _ _).0 both.0, both.1)

-- The scan depends on the words only through what it makes of each.
scan_page_same :
    (f g : Device) (offset n : ℕ)
    → ((i : ℕ)
        → i < n
        → (further : ℕ × ℕ)
        → scan_word (read f (offset + i)) i further ≡ scan_word (read g (offset + i)) i further)
    → scan_page f offset n ≡ scan_page g offset n
unfolding scan_page
scan_page_same f g offset zero same = refl
scan_page_same f g offset (suc n) same =
    ap (scan_word (read f (offset + n)) n)
      (scan_page_same f g offset n (λ i h further. same i (omega arith) further))
    ∙ same n (omega arith) (scan_page g offset n)

scan_word_torn :
    (c m : ℕ) (further : ℕ × ℕ)
    → m < 15
    → scan_word (success_with_value (torn_word (c % 8) m)) (c / 8) further
      ≡ scan_word (success_with_value (write_pattern (c % 8))) (c / 8) further
unfolding scan_word
scan_word_torn c m further j =
    let (d, e) = decode_word-torn_word (c % 8) m (omega arith) j in
    rw (e, d)
      (ground (arith, write_pattern-lt (c % 8), decode_word-write_pattern (c % 8) (omega arith)))

-- The page stored `c`, and the word that the next count goes to is torn.
pub record Torn (words : ℕ → ℕ) (page : Page) (c m : ℕ) : Type 0 where
  pub torn : words (page_offset page + c / 8) ≡ torn_word (c % 8) m
  pub kept :
      (i : ℕ)
      → i < words_per_page
      → (i == c / 8) ≡ false
      → words (page_offset page + i) ≡ count_word c i

module _ (flash : Device) (page : Page) (c m : ℕ) (t : Torn flash.words page c m) where
  -- The page as it would be had the write completed.
  mended : ℕ → ℕ
  mended i = if i == page_offset page + c / 8 then write_pattern (c % 8) else flash.words i

  mended-Stores : Stores mended page (c + 1)
  unfolding mended
  mended-Stores i k = elim (Bool-cases (i == c / 8)) [
    | inl here ↦ let e : i ≡ c / 8 = ground arith in rw e (ground (arith, pattern-count_word c))
    | inr away ↦ ground (arith, t.kept i k away, count_word-away c i away)
  ]

  mended_here : mended (page_offset page + c / 8) ≡ write_pattern (c % 8)
  unfolding mended
  mended_here = ground arith

  mended_away :
      (i : ℕ)
      → (i == c / 8) ≡ false
      → mended (page_offset page + i) ≡ flash.words (page_offset page + i)
  unfolding mended
  mended_away i away = ground arith

  mended_same :
      m < 15
      → (i : ℕ) → i < words_per_page
      → (further : ℕ × ℕ)
      → scan_word (read flash (page_offset page + i)) i further
        ≡ scan_word
            (read (record { words = mended; ongoing = none }) (page_offset page + i))
            i
            further
  mended_same j i k further =
      rw (read_page flash page i k, read_page (record { words = mended; ongoing = none }) page i k)
        (elim (Bool-cases (i == c / 8)) [
          | inl here ↦
              let e : i ≡ c / 8 = ground arith in
              rw e (rw (t.torn, mended_here) (scan_word_torn c m further j))
          | inr away ↦ rw (mended_away i away)
        ])

-- A page whose count `c` was being raised when the write was cut off, with at least one bit
-- cleared, reads as `c + 1`: a torn write never loses a count, and never adds two.
pub read_page_count-Torn :
    (flash : Device) (page : Page) (c m : ℕ)
    → Torn flash.words page c m
    → c < counts_per_page
    → m < 15
    → read_page_count page flash ≡ c + 1
read_page_count-Torn flash page c m t h j =
    same (scan_page_same _ _ _ words_per_page (mended_same flash page c m t j))
    ∙ read_page_count_lem (record { words = mended flash page c m t; ongoing = none }) page (c + 1)
        (mended-Stores flash page c m t) (omega arith)
  where
    same :
        scan_page flash (page_offset page) words_per_page
          ≡ scan_page
              (record { words = mended flash page c m t; ongoing = none })
              (page_offset page)
              words_per_page
        → read_page_count page flash
          ≡ read_page_count page (record { words = mended flash page c m t; ongoing = none })
    same e = unfold read_page_count in ap (λ (r : ℕ × ℕ). 8 * r.0 + r.1) e
