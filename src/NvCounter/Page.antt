-- ===== src/NvCounter/Page.antt =====
-- kernel/h1/src/nvcounter/internal.rs: the count that a flash page stores, and how it grows.
-- A word counts to eight by clearing four bits at a time.
pub mod Decode
pub mod Count
pub mod Update
pub mod Value
pub mod Torn
use tock_on_titan.Common.{
  ℕ, zero, suc, ◌+◌, ◌-◌, ◌*◌, ◌/◌, ◌%◌, ◌^◌, bit_and, Bool, true, false, List, [], ◌∷◌, Option,
  none, some, ltb, leb, ◌==◌, if◌then◌else◌, ◌&&◌, not,
}
use mathlib.Core.Option
use tock_on_titan.ReturnCode.{
  ReturnCode, success, fail, ebusy, esize, einval, enomem, enosupport, success_with_value, other,
}
use tock_on_titan.NvCounter.Device.{Device, read, write, words_per_page, erased_word}

abbrev pub counts_per_word : ℕ
counts_per_word = 8

abbrev pub counts_per_page : ℕ
counts_per_page = counts_per_word * words_per_page

pub data Page : Type 0 where
  high low : Page

-- `page as usize`
abbrev pub page_number : Page → ℕ
page_number high = 254
page_number low = 255

abbrev pub page_offset : Page → ℕ
page_offset page = page_number page * words_per_page

-- The count of a word that is not erased; a state between two patterns is rounded up.
unfoldable pub decode_word : ℕ → ℕ
decode_word value =
    if bit_and value 0x3CFFFFFF == 0x3CFFFFFF
    then 1
    else if bit_and value 0xC3FFFFFF == 0x00FFFFFF
    then 2
    else if bit_and value 0xFF3CFFFF == 0x003CFFFF
    then 3
    else if bit_and value 0xFFC3FFFF == 0x0000FFFF
    then 4
    else if bit_and value 0xFFFF3CFF == 0x00003CFF
    then 5
    else if bit_and value 0xFFFFC3FF == 0x000000FF
    then 6
    else if bit_and value 0xFFFFFF3C == 0x0000003C
    then 7
    else 8

-- One round of the scan: the answer, if the word at `i` decides it, else the answer further down.
scan_word : ReturnCode → ℕ → ℕ × ℕ → ℕ × ℕ
scan_word (success_with_value value) i further =
    if value == erased_word then further else (i, decode_word value)
scan_word _ i further = (0, 0)

-- `for i in (0..n).rev()`
scan_page : Device → ℕ → ℕ → ℕ × ℕ
unfolding scan_word
scan_page flash offset zero = (0, 0)
scan_page flash offset (suc i) = scan_word (read flash (offset + i)) i (scan_page flash offset i)

unfoldable pub read_page_count : Page → Device → ℕ
unfolding scan_page
read_page_count page flash =
    let (current_index, current_count) = scan_page flash (page_offset page) words_per_page in
    counts_per_word * current_index + current_count

abbrev pub write_pattern : ℕ → ℕ
write_pattern zero = 0x3CFFFFFF
write_pattern (suc zero) = 0x00FFFFFF
write_pattern (suc (suc zero)) = 0x003CFFFF
write_pattern (suc (suc (suc zero))) = 0x0000FFFF
write_pattern (suc (suc (suc (suc zero)))) = 0x00003CFF
write_pattern (suc (suc (suc (suc (suc zero))))) = 0x000000FF
write_pattern (suc (suc (suc (suc (suc (suc zero)))))) = 0x0000003C
write_pattern (suc (suc (suc (suc (suc (suc (suc k))))))) = 0x00000000

-- The one word of a `[u32; 1]` slice that `write` hands back. It is the slice that was handed in, as
-- `write-returns` of Device/Bounds says, so `try_into().unwrap()` does not panic.
abbrev pub buffer_word : List ℕ → ℕ
buffer_word [] = 0
buffer_word (w ∷ ws) = w

-- The `[u32; 1]` buffer is the word that it holds; it is absent while the driver has it.
unfoldable pub start_increment : Page → ℕ → Device → ℕ → ReturnCode × Option ℕ × Device
start_increment page current_value flash buffer =
    if leb counts_per_page current_value
    then (esize, some buffer, flash)
    else let (return_code, returned, flash') =
        write flash (words_per_page * page_number page + current_value / counts_per_word)
          (write_pattern (current_value % counts_per_word) ∷ []) in
      (return_code, Option.map buffer_word returned, flash')

-- `flash.read(word) == ReturnCode::SuccessWithValue { value }`
abbrev pub reads_value : ReturnCode → ℕ → Bool
reads_value (success_with_value v) value = v == value
reads_value _ value = false

-- `(page_start..page_end).all(..)`, over the `n` words from `start`.
all_erased : Device → ℕ → ℕ → Bool
all_erased flash start zero = true
all_erased flash start (suc n) =
    reads_value (read flash start) erased_word && all_erased flash (start + 1) n

unfoldable pub page_empty : Page → Device → Bool
unfolding all_erased
page_empty page flash = all_erased flash (page_offset page) words_per_page

unfoldable pub low_page_full : Device → Bool
low_page_full flash =
    reads_value (read flash (page_number low * words_per_page + words_per_page - 1)) 0x00000000

-- `high_count & 1 != 0`
abbrev pub is_odd : ℕ → Bool
is_odd n = n % 2 == 1

-- The value in u32 arithmetic.
unfoldable pub counter_value : ℕ → ℕ → ℕ
counter_value high_count low_count =
    if is_odd high_count
    then ((counts_per_page + 1) * ((high_count + 1) % 2 ^ 32 / 2) + 0) % 2 ^ 32
    else ((counts_per_page + 1) * (high_count / 2) + low_count) % 2 ^ 32
