-- ===== src/NvCounter/Device.antt =====
-- The flash as the counter sees it: trait `Flash` of kernel/h1/src/hil/flash/flash.rs, with the
-- argument checks and the busy rule of `FlashImpl` in kernel/h1/src/hil/flash/driver.rs and the
-- read of kernel/h1/src/hil/flash/h1_hw.rs. `words` are the words of memory from the flash's start.
-- An operation is started, stays ongoing, and takes effect when the hardware completes it.
pub mod Bounds
use tock_on_titan.Common.{
  ℕ, ◌+◌, ◌-◌, ◌*◌, ◌%◌, ◌^◌, Bool, ◌&&◌, List, Option, none, some, ltb, leb, if◌then◌else◌, length,
  get_or,
}
use tock_on_titan.ReturnCode.{ReturnCode, success, ebusy, esize, einval, success_with_value}

abbrev pub words_per_page : ℕ
words_per_page = 512

abbrev pub words_per_bank : ℕ
words_per_bank = 0x10000

abbrev pub max_write_size : ℕ
max_write_size = 32

abbrev pub erased_word : ℕ
erased_word = 0xffffffff

pub data Operation : Type 0 where
  erasing : ℕ → Operation
  writing : ℕ → List ℕ → Operation

pub record Device : Type 0 where
  pub words : ℕ → ℕ
  pub ongoing : Option Operation

-- `get_bank_from_target(target).is_some()`
abbrev pub is_in_bank : ℕ → Bool
is_in_bank target = ltb target (2 * words_per_bank)

-- In bytes; the hardware compares a word's offset with it.
abbrev pub h1_flash_size : ℕ
h1_flash_size = 0x80000

unfoldable pub read : Device → ℕ → ReturnCode
read d word = if ltb h1_flash_size word then esize else success_with_value (d.words word)

-- The offset of the page wraps, as if the page were `page % 2 ^ 23`.
begin_erase : Option Operation → ℕ → Device → ReturnCode × Device
begin_erase (some op) page d = (ebusy, d)
begin_erase none page d =
    if is_in_bank (page * words_per_page % 2 ^ 32)
    then (success, record d { ongoing = some (erasing (page % 2 ^ 23)) })
    else (einval, d)

unfoldable pub erase : Device → ℕ → ReturnCode × Device
unfolding begin_erase
erase d page = begin_erase d.ongoing page d

begin_write : Option Operation → ℕ → List ℕ → Device → ReturnCode × Option (List ℕ) × Device
begin_write (some op) target buffer d = (ebusy, some buffer, d)
begin_write none target buffer d =
    if is_in_bank target
    then (success, none, record d { ongoing = some (writing target buffer) })
    else (einval, some buffer, d)

-- The buffer comes back at once unless the write has begun.
unfoldable pub write : Device → ℕ → List ℕ → ReturnCode × Option (List ℕ) × Device
unfolding begin_write
write d target buffer =
    if ltb max_write_size (length buffer)
    then (esize, some buffer, d)
    else begin_write d.ongoing target buffer d

-- What a completed erase or write leaves in the flash.
abbrev pub erase_words : ℕ → (ℕ → ℕ) → ℕ → ℕ
erase_words page words i =
    if leb (page * words_per_page) i && ltb i (page * words_per_page + words_per_page)
    then erased_word
    else words i

abbrev pub write_words : ℕ → List ℕ → (ℕ → ℕ) → ℕ → ℕ
write_words target buffer words i =
    if leb target i && ltb i (target + length buffer)
    then get_or buffer (i - target) (words i)
    else words i

abbrev pub effect : Operation → (ℕ → ℕ) → ℕ → ℕ
effect (erasing page) words = erase_words page words
effect (writing target buffer) words = write_words target buffer words
