-- ===== src/NvCounter/Device/Bounds.antt =====
-- Which words the flash reads, and which buffer it hands back.
use tock_on_titan.Common.{
  ℕ, ◌*◌, ◌≤◌, ◌≡◌, ◌⊎◌, inl, inr, refl, arith, false, Bool-cases, ltb, List, length, Option, none,
  some,
}
use tock_on_titan.ReturnCode.{success_with_value}
use tock_on_titan.NvCounter.Device.{
  Device, Operation, write, begin_write, max_write_size, read, is_in_bank, words_per_bank,
  h1_flash_size,
}

-- The words past the two banks, up to the one whose offset in words is the flash's size in bytes,
-- are in no bank, and yet a read of them succeeds.
pub read-past_end :
    (d : Device) (word : ℕ)
    → 2 * words_per_bank ≤ word
    → word ≤ h1_flash_size
    → (is_in_bank word ≡ false) × (read d word ≡ success_with_value (d.words word))
unfolding read
read-past_end d word a b = (ground arith, ground arith)

begin_write-returns :
    (ongoing : Option Operation) (target : ℕ) (buffer : List ℕ) (d : Device)
    → ((begin_write ongoing target buffer d).1 ≡ none)
      ⊎ ((begin_write ongoing target buffer d).1 ≡ some buffer)
unfolding begin_write
begin_write-returns (some op) target buffer d = inr refl
begin_write-returns none target buffer d = elim (Bool-cases (is_in_bank target)) [
  | inl inside ↦ rw inside (inl refl)
  | inr outside ↦ rw outside (inr refl)
]

-- A write hands back no other buffer than its own.
write-returns :
    (d : Device) (target : ℕ) (buffer : List ℕ)
    → ((write d target buffer).1 ≡ none) ⊎ ((write d target buffer).1 ≡ some buffer)
unfolding write begin_write
write-returns d target buffer = elim (Bool-cases (ltb max_write_size (length buffer))) [
  | inl long ↦ rw long (inr refl)
  | inr short ↦ rw short (begin_write-returns d.ongoing target buffer d)
]
