-- ===== src/NvCounter/Page/Update.antt =====
-- What the writes and erases that internal.rs starts leave in the two pages.
use tock_on_titan.Common.{
  ℕ, suc, ◌+◌, ◌-◌, ◌*◌, ◌/◌, ◌%◌, ◌≤◌, ◌<◌, ◌≡◌, min, arith, [], ◌∷◌, none, some, Bool-cases, inl,
  inr, ◌==◌, false, ◌≢◌, ◌∙◌, sym, ap,
}
use tock_on_titan.ReturnCode.{success, ebusy, esize}
use tock_on_titan.NvCounter.Device.{
  Device, Operation, writing, write, effect, words_per_page, erase_words, write_words,
}
use tock_on_titan.NvCounter.Page.{
  Page, high, low, page_offset, page_number, counts_per_page, write_pattern, start_increment,
  read_page_count,
}
use tock_on_titan.NvCounter.Page.Decode.{write_pattern-level_word, level_word}
use tock_on_titan.NvCounter.Page.Count.{Stores, count_word, read_page_count_lem}

abbrev pub other_page : Page → Page
other_page high = low
other_page low = high

-- The write that counts `c` up in `page`.
abbrev pub increment_operation : Page → ℕ → Operation
increment_operation page c =
    writing (words_per_page * page_number page + c / 8) (write_pattern (c % 8) ∷ [])

pub start_increment_idle :
    (page : Page) (c buffer : ℕ) (flash : Device)
    → c < counts_per_page
    → flash.ongoing ≡ none
    → start_increment page c flash buffer
      ≡ (success, none, record flash { ongoing = some (increment_operation page c) })
unfolding start_increment write
start_increment_idle high c buffer flash h e = ground arith
start_increment_idle low c buffer flash h e = ground arith

pub start_increment_full :
    (page : Page) (c buffer : ℕ) (flash : Device)
    → counts_per_page ≤ c
    → start_increment page c flash buffer ≡ (esize, some buffer, flash)
unfolding start_increment
start_increment_full page c buffer flash h = ground arith

pub start_increment_busy :
    (page : Page) (c buffer : ℕ) (flash : Device) (op : Operation)
    → c < counts_per_page
    → flash.ongoing ≡ some op
    → start_increment page c flash buffer ≡ (ebusy, some (write_pattern (c % 8)), flash)
unfolding start_increment write
start_increment_busy page c buffer flash op h e = ground arith

-- The pattern written is the word of the next count.
pub pattern-count_word : (c : ℕ) → write_pattern (c % 8) ≡ count_word (c + 1) (c / 8)
pattern-count_word c =
    let e : min 8 (c + 1 - 8 * (c / 8)) ≡ suc (c % 8) = omega arith in
    rw e (write_pattern-level_word (c % 8) (omega arith))

pub count_word-away : (c i : ℕ) → (i == c / 8) ≡ false → count_word c i ≡ count_word (c + 1) i
count_word-away c i away = let e : min 8 (c + 1 - 8 * i) ≡ min 8 (c - 8 * i) = ground arith in rw e

write_words_at :
    (target v : ℕ) (words : ℕ → ℕ) (i : ℕ) → i ≡ target → write_words target (v ∷ []) words i ≡ v
write_words_at target v words i e = let z : i - target ≡ 0 = omega arith in rw z (ground arith)

write_words_off :
    (target v : ℕ) (words : ℕ → ℕ) (i : ℕ)
    → i ≢ target
    → write_words target (v ∷ []) words i ≡ words i
write_words_off target v words i h = ground arith

-- The write that counts `c` up, once completed, makes the page store `c + 1`.
pub Stores-increment :
    (words : ℕ → ℕ) (page : Page) (c : ℕ)
    → Stores words page c
    → c < counts_per_page
    → Stores
        (write_words (words_per_page * page_number page + c / 8) (write_pattern (c % 8) ∷ []) words)
        page
        (c + 1)
Stores-increment words page c st h i k = elim (Bool-cases (i == c / 8)) [
  | inl here ↦
      let e : i ≡ c / 8 = ground arith in
      write_words_at (words_per_page * page_number page + c / 8) _ words (page_offset page + i)
        (omega (arith, e))
      ∙ pattern-count_word c
      ∙ ap (count_word (c + 1)) (sym e)
  | inr away ↦
      let f : i ≢ c / 8 = ground arith in
      write_words_off _ _ words _ (omega (arith, f)) ∙ st i k ∙ count_word-away c i away
]

-- The write in one page leaves the other page alone.
pub Stores-increment_other :
    (words : ℕ → ℕ) (page : Page) (c n : ℕ)
    → Stores words (other_page page) n
    → c < counts_per_page
    → Stores
        (write_words (words_per_page * page_number page + c / 8) (write_pattern (c % 8) ∷ []) words)
        (other_page page)
        n
Stores-increment_other words high c n st h i k = write_words_off _ _ words _ (omega arith) ∙ st i k
Stores-increment_other words low c n st h i k = write_words_off _ _ words _ (omega arith) ∙ st i k

pub Stores-erase :
    (words : ℕ → ℕ) (page : Page) → Stores (erase_words (page_number page) words) page 0
unfolding level_word
Stores-erase words page i k = let e : min 8 (0 - 8 * i) ≡ 0 = omega arith in rw e (ground arith)

pub Stores-erase_other :
    (words : ℕ → ℕ) (page : Page) (n : ℕ)
    → Stores words (other_page page) n
    → Stores (erase_words (page_number page) words) (other_page page) n
Stores-erase_other words high n st i k = ground (arith, st i k)
Stores-erase_other words low n st i k = ground (arith, st i k)

-- Over flash that is idle and of which a page stores `c`, below 4096, and the other page `n`, an
-- increment of the page is accepted and takes the buffer; the write that it starts, once completed,
-- makes the page store `c + 1` and read back as `c + 1`, and leaves `n` in the other page.
pub start_increment_counts :
    (flash : Device) (page : Page) (c n buffer : ℕ)
    → flash.ongoing ≡ none
    → Stores flash.words page c
    → Stores flash.words (other_page page) n
    → c < counts_per_page
    → (op : Operation) × (start_increment page c flash buffer
        ≡ (success, none, record flash { ongoing = some op }))
      × Stores (effect op flash.words) page (c + 1)
      × (read_page_count page (record { words = effect op flash.words; ongoing = none }) ≡ c + 1)
      × Stores (effect op flash.words) (other_page page) n
start_increment_counts flash page c n buffer idle st other h =
    let stored = Stores-increment flash.words page c st h in
    let after : Device = record {
      words = effect (increment_operation page c) flash.words;
      ongoing = none;
    } in
    (
      increment_operation page c,
      start_increment_idle page c buffer flash h idle,
      stored,
      read_page_count_lem after page (c + 1) stored (omega arith),
      Stores-increment_other flash.words page c n other h,
    )
