-- ===== src/NvCounter/Page/Count.antt =====
-- A page that stores the count `c`, and what the operations of internal.rs do to it.
use tock_on_titan.Common.{
  ℕ, zero, suc, ◌+◌, ◌-◌, ◌*◌, ◌≤◌, ◌<◌, ◌≡◌, ◌≢◌, refl, min, arith, true, false, ◌==◌, inl, inr,
  ◌∙◌, ap, subst, ◌↔◌, ltb, Bool-cases,
}
use tock_on_titan.ReturnCode.{success_with_value}
use tock_on_titan.NvCounter.Device.{Device, read, words_per_page, erased_word}
use tock_on_titan.NvCounter.Page.{
  Page, high, low, page_offset, counts_per_page, scan_word, scan_page, decode_word, read_page_count,
  all_erased, page_empty, low_page_full,
}
use tock_on_titan.NvCounter.Page.Decode.{
  level_word, decode_word-write_pattern, level_word-eq_zero, write_pattern-lt,
  write_pattern-level_word,
}

-- The word at `i` of a page that stores `c`: full below the current word, erased above it.
abbrev pub count_word : ℕ → ℕ → ℕ
count_word c i = level_word (min 8 (c - 8 * i))

abbrev pub Stores : (ℕ → ℕ) → Page → ℕ → Type 0
Stores words page c = (i : ℕ) → i < words_per_page → words (page_offset page + i) ≡ count_word c i

pub page_in_bank : (page : Page) (i : ℕ) → i < words_per_page → page_offset page + i < 131072
page_in_bank high i h = omega arith
page_in_bank low i h = omega arith

pub read_page :
    (flash : Device) (page : Page) (i : ℕ)
    → i < words_per_page
    → read flash (page_offset page + i) ≡ success_with_value (flash.words (page_offset page + i))
unfolding read
read_page flash page i h = ground (arith, page_in_bank page i h)

scan_word_programmed :
    (k i : ℕ) (further : ℕ × ℕ)
    → k < 8
    → scan_word (success_with_value (level_word (suc k))) i further ≡ (i, suc k)
unfolding scan_word
scan_word_programmed k i further h =
    rw (← write_pattern-level_word k h)
      (ground (arith, write_pattern-lt k, decode_word-write_pattern k h))

scan_word_above :
    (c i : ℕ) (further : ℕ × ℕ)
    → c ≤ 8 * i
    → scan_word (success_with_value (count_word c i)) i further ≡ further
unfolding scan_word level_word
scan_word_above c i further h = let e : min 8 (c - 8 * i) ≡ 0 = omega arith in rw e

scan_word_current :
    (c i : ℕ) (further : ℕ × ℕ)
    → 8 * i < c
    → c ≤ 8 * suc i
    → scan_word (success_with_value (count_word c i)) i further ≡ (i, c - 8 * i)
scan_word_current c i further h k =
    let e : min 8 (c - 8 * i) ≡ suc (c - 8 * i - 1) = omega arith in
    let f : suc (c - 8 * i - 1) ≡ c - 8 * i = omega arith in
    rw e (scan_word_programmed (c - 8 * i - 1) i further (omega arith) ∙ ap (λ (m : ℕ). (i, m)) f)

read_stored :
    (flash : Device) (page : Page) (c i : ℕ)
    → Stores flash.words page c
    → i < words_per_page
    → read flash (page_offset page + i) ≡ success_with_value (count_word c i)
read_stored flash page c i st h = read_page flash page i h ∙ ap success_with_value (st i h)

scan_page_count :
    (flash : Device) (page : Page) (c : ℕ)
    → Stores flash.words page c
    → (n : ℕ) → n ≤ words_per_page
    → c ≤ 8 * n
    → 8 * (scan_page flash (page_offset page) n).0 + (scan_page flash (page_offset page) n).1 ≡ c
unfolding scan_page
scan_page_count flash page c st zero hn hc = omega arith
scan_page_count flash page c st (suc n) hn hc =
    rw (read_stored flash page c n st hn) (elim (Bool-cases (ltb (8 * n) c)) [
      | inl current ↦ rw (scan_word_current c n _ (ground arith) hc) (ground arith)
      | inr above ↦
          rw (scan_word_above c n _ (ground arith))
            (scan_page_count flash page c st n (omega arith) (ground arith))
    ])

-- A page that stores a count of at most 4096 reads back as that count.
pub read_page_count_lem :
    (flash : Device) (page : Page) (c : ℕ)
    → Stores flash.words page c
    → c ≤ counts_per_page
    → read_page_count page flash ≡ c
unfolding read_page_count
read_page_count_lem flash page c st h =
    scan_page_count flash page c st words_per_page (omega arith) (omega arith)

-- The scan answers at most 4096 on any contents whatever.
scan_word_bound :
    (value i : ℕ) (further : ℕ × ℕ)
    → (8 * further.0 + further.1 ≤ 8 * i)
    → let r = scan_word (success_with_value value) i further in 8 * r.0 + r.1 ≤ 8 * suc i
unfolding scan_word decode_word
scan_word_bound value i further h = ground arith

scan_page_bound :
    (flash : Device) (page : Page) (n : ℕ)
    → n ≤ words_per_page
    → 8 * (scan_page flash (page_offset page) n).0 + (scan_page flash (page_offset page) n).1
      ≤ 8 * n
unfolding scan_page
scan_page_bound flash page zero h = omega arith
scan_page_bound flash page (suc n) h =
    rw (read_page flash page n h)
      (scan_word_bound _ n _ (scan_page_bound flash page n (omega arith)))

pub read_page_count-le :
    (flash : Device) (page : Page) → read_page_count page flash ≤ counts_per_page
unfolding read_page_count
read_page_count-le flash page =
    omega (arith, scan_page_bound flash page words_per_page (omega arith))

-- An erased page stores 0, and only that.
all_erased-stored :
    (flash : Device) (page : Page) (c : ℕ)
    → Stores flash.words page c
    → c ≡ 0
    → (n i : ℕ) → i + n ≤ words_per_page
    → all_erased flash (page_offset page + i) n ≡ true
unfolding all_erased level_word
all_erased-stored flash page c st z zero i h = refl
all_erased-stored flash page c st z (suc n) i h =
    let e : min 8 (c - 8 * i) ≡ 0 = omega arith in
    let f : page_offset page + i + 1 ≡ page_offset page + (i + 1) = omega arith in
    rw (read_stored flash page c i st (omega arith), e, f)
      (all_erased-stored flash page c st z n (i + 1) (omega arith))

pub page_empty_zero :
    (flash : Device) (page : Page) → Stores flash.words page 0 → page_empty page flash ≡ true
unfolding page_empty
page_empty_zero flash page st =
    let e : page_offset page + 0 ≡ page_offset page = omega arith in
    rw e at (all_erased-stored flash page 0 st refl words_per_page 0 (omega arith))

all_erased_head :
    (flash : Device) (start n value : ℕ)
    → read flash start ≡ success_with_value value
    → value ≢ erased_word
    → all_erased flash start (suc n) ≡ false
unfolding all_erased
all_erased_head flash start n value e h = rw e (ground arith)

page_empty_first :
    (flash : Device) (page : Page)
    → flash.words (page_offset page + 0) ≢ erased_word
    → page_empty page flash ≡ false
unfolding page_empty
page_empty_first flash page h =
    let e : page_offset page + 0 ≡ page_offset page = omega arith in
    rw e at (all_erased_head flash _ 511 _ (read_page flash page 0 (omega arith)) h)

pub page_empty_nonzero :
    (flash : Device) (page : Page) (c : ℕ)
    → Stores flash.words page c
    → 0 < c
    → page_empty page flash ≡ false
page_empty_nonzero flash page c st h =
    let e : min 8 (c - 8 * 0) ≡ suc (min 8 c - 1) = omega arith in
    page_empty_first flash page (
      rw (st 0 (omega arith), e, ← write_pattern-level_word (min 8 c - 1) (omega arith))
        (omega (arith, write_pattern-lt (min 8 c - 1))))

-- Of the counts up to 4096 that the low page may store, exactly 4096 makes it full.
pub low_page_full_lem :
    (flash : Device) (c : ℕ)
    → Stores flash.words low c
    → c ≤ counts_per_page
    → low_page_full flash ≡ (c == counts_per_page)
unfolding low_page_full
low_page_full_lem flash c st h =
    rw (read_stored flash low c 511 st (omega arith))
      (ground (arith, level_word-eq_zero (min 8 (c - 8 * 511))))

all_erased-tail :
    (flash : Device) (start n : ℕ)
    → all_erased flash start (suc n) ≡ true
    → all_erased flash (start + 1) n ≡ true
unfolding all_erased
all_erased-tail flash start n e = ground arith

all_erased-word :
    (flash : Device) (page : Page) (n start i : ℕ)
    → start + n ≤ words_per_page
    → all_erased flash (page_offset page + start) n ≡ true
    → i < n
    → flash.words (page_offset page + (start + i)) ≡ erased_word
unfolding all_erased
all_erased-word flash page zero start i h e k = absurd (omega arith)
all_erased-word flash page (suc n) start zero h e k =
    let z : start + zero ≡ start = omega arith in
    rw z (ground (arith, read_page flash page start (omega arith)))
all_erased-word flash page (suc n) start (suc i) h e k =
    let a : page_offset page + start + 1 ≡ page_offset page + (start + 1) = omega arith in
    let b : start + suc i ≡ start + 1 + i = omega arith in
    rw b (
      all_erased-word flash page n (start + 1) i (omega arith)
        (rw a at (all_erased-tail flash (page_offset page + start) n e)) (omega arith))

pub page_empty-Stores :
    (flash : Device) (page : Page) → page_empty page flash ≡ true → Stores flash.words page 0
unfolding page_empty level_word
page_empty-Stores flash page e i k =
    let a : page_offset page ≡ page_offset page + 0 = omega arith in
    let z : min 8 (0 - 8 * i) ≡ 0 = omega arith in
    let b : 0 + i ≡ i = omega arith in
    rw (z, ← b)
      (all_erased-word flash page words_per_page 0 i (omega arith)
        (subst (λ m. all_erased flash m words_per_page ≡ true) a e) (omega arith))

-- A page is found empty exactly when it stores the count 0, that is, when every word is erased.
pub page_empty_iff :
    (flash : Device) (page : Page) → (page_empty page flash ≡ true) ↔ Stores flash.words page 0
page_empty_iff flash page = (page_empty-Stores flash page, page_empty_zero flash page)
