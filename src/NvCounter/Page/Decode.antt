-- ===== src/NvCounter/Page/Decode.antt =====
-- internal.rs: the write patterns, and what a word of a page decodes to.
use tock_on_titan.Common.{
  ℕ, zero, suc, ◌+◌, ◌-◌, ◌*◌, ◌^◌, ◌≤◌, ◌<◌, ◌≡◌, refl, bit_and, arith, ◌==◌,
}
use tock_on_titan.NvCounter.Device.{erased_word}
use tock_on_titan.NvCounter.Page.{decode_word, write_pattern}

-- A byte after none, one and two of its counts: the first clears its outer four bits.
abbrev counted_byte : ℕ → ℕ
counted_byte zero = 0xff
counted_byte (suc zero) = 0x3c
counted_byte (suc (suc k)) = 0x00

-- The word that stands for `k` counts: each of its bytes counts to two, from the highest byte down.
unfoldable pub level_word : ℕ → ℕ
level_word k =
    counted_byte k * 2 ^ 24
    + counted_byte (k - 2) * 2 ^ 16
    + counted_byte (k - 4) * 2 ^ 8
    + counted_byte (k - 6)

pub level_word-zero : level_word 0 ≡ erased_word
unfolding level_word
level_word-zero = refl

-- The pattern that counts a word with `k` counts up is that of the next count.
pub write_pattern-level_word : (k : ℕ) → k < 8 → write_pattern k ≡ level_word (suc k)
unfolding level_word
write_pattern-level_word zero h = refl
write_pattern-level_word (suc zero) h = refl
write_pattern-level_word (suc (suc zero)) h = refl
write_pattern-level_word (suc (suc (suc zero))) h = refl
write_pattern-level_word (suc (suc (suc (suc zero)))) h = refl
write_pattern-level_word (suc (suc (suc (suc (suc zero))))) h = refl
write_pattern-level_word (suc (suc (suc (suc (suc (suc zero)))))) h = refl
write_pattern-level_word (suc (suc (suc (suc (suc (suc (suc zero))))))) h = refl
write_pattern-level_word (suc (suc (suc (suc (suc (suc (suc (suc k)))))))) h = absurd (omega arith)

pub decode_word-write_pattern : (k : ℕ) → k < 8 → decode_word (write_pattern k) ≡ k + 1
unfolding decode_word
decode_word-write_pattern zero h = refl
decode_word-write_pattern (suc zero) h = refl
decode_word-write_pattern (suc (suc zero)) h = refl
decode_word-write_pattern (suc (suc (suc zero))) h = refl
decode_word-write_pattern (suc (suc (suc (suc zero)))) h = refl
decode_word-write_pattern (suc (suc (suc (suc (suc zero))))) h = refl
decode_word-write_pattern (suc (suc (suc (suc (suc (suc zero)))))) h = refl
decode_word-write_pattern (suc (suc (suc (suc (suc (suc (suc zero))))))) h = refl
decode_word-write_pattern (suc (suc (suc (suc (suc (suc (suc (suc k)))))))) h = absurd (omega arith)

-- A programmed word is never the erased one.
pub write_pattern-lt : (k : ℕ) → write_pattern k < erased_word
write_pattern-lt zero = omega arith
write_pattern-lt (suc zero) = omega arith
write_pattern-lt (suc (suc zero)) = omega arith
write_pattern-lt (suc (suc (suc zero))) = omega arith
write_pattern-lt (suc (suc (suc (suc zero)))) = omega arith
write_pattern-lt (suc (suc (suc (suc (suc zero))))) = omega arith
write_pattern-lt (suc (suc (suc (suc (suc (suc zero)))))) = omega arith
write_pattern-lt (suc (suc (suc (suc (suc (suc (suc k))))))) = omega arith

-- Each of the eight writes to a word only clears bits: a bit that the new pattern has set is set
-- in the word before it, which is the previous pattern or, for the first, the erased word.
write_pattern_clears : (k : ℕ) → k < 8 → bit_and (level_word k) (write_pattern k) ≡ write_pattern k
unfolding level_word
write_pattern_clears zero h = refl
write_pattern_clears (suc zero) h = refl
write_pattern_clears (suc (suc zero)) h = refl
write_pattern_clears (suc (suc (suc zero))) h = refl
write_pattern_clears (suc (suc (suc (suc zero)))) h = refl
write_pattern_clears (suc (suc (suc (suc (suc zero))))) h = refl
write_pattern_clears (suc (suc (suc (suc (suc (suc zero)))))) h = refl
write_pattern_clears (suc (suc (suc (suc (suc (suc (suc zero))))))) h = refl
write_pattern_clears (suc (suc (suc (suc (suc (suc (suc (suc k)))))))) h = absurd (omega arith)

-- Of the words of a count only the full one is 0.
pub level_word-eq_zero : (k : ℕ) → k ≤ 8 → (level_word k == 0) ≡ (k == 8)
unfolding level_word
level_word-eq_zero zero h = refl
level_word-eq_zero (suc zero) h = refl
level_word-eq_zero (suc (suc zero)) h = refl
level_word-eq_zero (suc (suc (suc zero))) h = refl
level_word-eq_zero (suc (suc (suc (suc zero)))) h = refl
level_word-eq_zero (suc (suc (suc (suc (suc zero))))) h = refl
level_word-eq_zero (suc (suc (suc (suc (suc (suc zero)))))) h = refl
level_word-eq_zero (suc (suc (suc (suc (suc (suc (suc zero))))))) h = refl
level_word-eq_zero (suc (suc (suc (suc (suc (suc (suc (suc zero)))))))) h = refl
level_word-eq_zero (suc (suc (suc (suc (suc (suc (suc (suc (suc k))))))))) h = absurd (omega arith)
