-- ===== src/Usb/Types/Strings.antt =====
-- The bytes of a string descriptor: the loop fills the high half of a word, then the next word.
use tock_on_titan.Common.{
  ℕ, zero, suc, ◌+◌, ◌*◌, ◌/◌, ◌%◌, ◌^◌, ◌<◌, ◌≤◌, ◌≡◌, refl, ap, ◌∙◌, bit_or, List, [], ◌∷◌, ◌++◌,
  append_assoc, some, ◌==◌, length, length-append, get_or, drop, take, arith, true, false, All,
}
use tock_on_titan.Common.OrBits.{bit_or-above}
use tock_on_titan.Usb.Types.{
  put_character, put_characters, returning, new_string, string_into_u32_buf,
}
use tock_on_titan.Usb.Types.Bytes.{le_bytes, put-append, bytes_of_half_word}

-- The words of characters, two in each, the first in the low half; and the bytes of characters.
unfoldable pub pack : List ℕ → List ℕ
pack [] = []
pack (c ∷ []) = c ∷ []
pack (c ∷ d ∷ cs) = bit_or c (d * 2 ^ 16) ∷ pack cs

unfoldable pub bytes_of_characters : List ℕ → List ℕ
bytes_of_characters [] = []
bytes_of_characters (c ∷ cs) = c % 256 ∷ c / 2 ^ 8 % 256 ∷ bytes_of_characters cs

abbrev pub AreCharacters : List ℕ → Type 0
AreCharacters = All (λ c. c < 2 ^ 16)

get_or-append :
    (pre : List ℕ) (i x : ℕ) (rest : List ℕ) → length pre ≡ i → get_or (pre ++ x ∷ rest) i 0 ≡ x
get_or-append [] zero x rest e = refl
get_or-append [] (suc i) x rest e = absurd (omega arith)
get_or-append (p ∷ pre) zero x rest e = absurd (omega arith)
get_or-append (p ∷ pre) (suc i) x rest e = get_or-append pre i x rest (omega arith)

put_character-odd :
    (pre : List ℕ) (k c x : ℕ) (rest : List ℕ)
    → length pre ≡ suc k
    → put_character (k * 2 + 1) c (pre ++ x ∷ rest) ≡ some (pre ++ c ∷ rest)
unfolding put_character
put_character-odd pre k c x rest e =
    let odd : ((k * 2 + 1) % 2 == 1) ≡ true = ground arith in
    let i : (k * 2 + 1) / 2 + 1 ≡ suc k = omega arith in
    rw (odd, i) (put-append pre (suc k) c x rest e)

put_character-even :
    (pre : List ℕ) (k d c : ℕ) (rest : List ℕ)
    → length pre ≡ suc k
    → put_character (suc (k * 2 + 1)) d (pre ++ c ∷ rest)
      ≡ some (pre ++ bit_or c (d * 2 ^ 16) ∷ rest)
unfolding put_character
put_character-even pre k d c rest e =
    let even : (suc (k * 2 + 1) % 2 == 1) ≡ false = ground arith in
    let i : suc (k * 2 + 1) / 2 ≡ suc k = omega arith in
    rw (even, i, get_or-append pre (suc k) c rest e)
      (put-append pre (suc k) (bit_or c (d * 2 ^ 16)) c rest e)

put_characters-append :
    (cs pre rest : List ℕ) (k : ℕ)
    → length pre ≡ suc k
    → length cs ≤ 2 * length rest
    → put_characters (k * 2 + 1) cs (pre ++ rest)
      ≡ some (pre ++ (pack cs ++ drop (length (pack cs)) rest))
unfolding put_characters pack
put_characters-append [] pre rest k e fits = refl
put_characters-append (c ∷ cs) pre [] k e fits = absurd (omega arith)
put_characters-append (c ∷ []) pre (x ∷ rest) k e fits =
    rw (put_characters, put_character-odd pre k c x rest e) refl
put_characters-append (c ∷ d ∷ cs) pre (x ∷ rest) k e fits =
    let w : ℕ = bit_or c (d * 2 ^ 16) in
    let index : suc k * 2 + 1 ≡ suc (suc (k * 2 + 1)) = omega arith in
    let next =
      put_characters-append cs (pre ++ w ∷ []) rest (suc k)
        (omega (arith, length-append pre (w ∷ []))) (omega arith) in
    rw (put_characters, put_character-odd pre k c x rest e)
      (rw (put_characters, put_character-even pre k d c rest e)
        (rw
          (
            append_assoc pre (w ∷ []) rest,
            append_assoc pre (w ∷ []) (pack cs ++ drop (length (pack cs)) rest),
            index,
          )
          at next))

bytes_of_halves :
    (c d : ℕ) (ws : List ℕ)
    → c < 2 ^ 16
    → d < 2 ^ 16
    → le_bytes (bit_or c (d * 2 ^ 16) ∷ ws)
      ≡ c % 256 ∷ c / 2 ^ 8 % 256 ∷ d % 256 ∷ d / 2 ^ 8 % 256 ∷ le_bytes ws
unfolding le_bytes
bytes_of_halves c d ws p q =
    let n : ℕ = c + d * 2 ^ 16 in
    let lowest : n % 256 ≡ c % 256 = omega arith in
    let second : n / 2 ^ 8 % 256 ≡ c / 2 ^ 8 % 256 = omega arith in
    let third : n / 2 ^ 16 % 256 ≡ d % 256 = omega arith in
    let fourth : n / 2 ^ 24 % 256 ≡ d / 2 ^ 8 % 256 = omega arith in
    rw (bit_or-above 16 c d p) (rw (lowest, second, third, fourth) refl)

take-step :
    (count n a b c d : ℕ) (rest bytes : List ℕ)
    → count ≡ suc (suc (suc (suc n)))
    → take n rest ≡ bytes
    → take count (a ∷ b ∷ c ∷ d ∷ rest) ≡ a ∷ b ∷ c ∷ d ∷ bytes
take-step count n a b c d rest bytes e same = rw e (ap (λ t. a ∷ b ∷ c ∷ d ∷ t) same)

le_bytes-pack :
    (cs rest : List ℕ)
    → AreCharacters cs
    → take (2 * length cs) (le_bytes (pack cs ++ rest)) ≡ bytes_of_characters cs
unfolding le_bytes pack bytes_of_characters
le_bytes-pack [] rest h = refl
le_bytes-pack (c ∷ []) rest h = refl
le_bytes-pack (c ∷ d ∷ cs) rest (p, (q, h)) =
    ap (take (2 * length (c ∷ d ∷ cs))) (bytes_of_halves c d (pack cs ++ rest) p q)
    ∙ take-step (2 * length (c ∷ d ∷ cs)) (2 * length cs) (c % 256) (c / 2 ^ 8 % 256) (d % 256)
        (d / 2 ^ 8 % 256) (le_bytes (pack cs ++ rest)) (bytes_of_characters cs) (omega arith)
        (le_bytes-pack cs rest h)

-- A string of at most 126 characters of 16 bits is written into the 64 words of a FIFO buffer,
-- without a panic, and the number returned is that of its bytes: the length in bytes, the type 3,
-- and each character with its low byte first.
pub string_into_u32_buf_lem :
    (str words : List ℕ)
    → AreCharacters str
    → length str ≤ 126
    → length words ≡ 64
    → (filled : List ℕ) × (string_into_u32_buf (new_string str) words
        ≡ some (2 + 2 * length str, filled))
      × (take (2 + 2 * length str) (le_bytes filled)
          ≡ (2 + 2 * length str) ∷ 3 ∷ bytes_of_characters str)
unfolding string_into_u32_buf new_string le_bytes bytes_of_characters
string_into_u32_buf_lem str [] chars short e = absurd (omega arith)
string_into_u32_buf_lem [] (x ∷ words) chars short e =
    (bit_or 2 (3 * 2 ^ 8) ∷ words, ap (returning 2) (put-append [] 0 _ x words refl), refl)
string_into_u32_buf_lem (c ∷ cs) (x ∷ words) (p, chars) short e =
    let size : ℕ = 2 + 2 * length (c ∷ cs) in
    let b : (length (c ∷ cs) * 2 + 2) % 256 ≡ size = omega arith in
    let w : ℕ = bit_or (bit_or size (3 * 2 ^ 8)) (c * 2 ^ 16) in
    let rest = pack cs ++ drop (length (pack cs)) words in
    (
      w ∷ rest,
      rw (b, put-append [] 0 w x words refl)
          (rw (put_characters-append cs (w ∷ []) words 0 refl (omega arith)) refl),
      ap (take size) (bytes_of_half_word size 3 c rest (omega arith) (omega arith) p)
          ∙ take-step size (2 * length cs) size 3 (c % 256) (c / 2 ^ 8 % 256) (le_bytes rest)
              (bytes_of_characters cs) (omega arith)
              (le_bytes-pack cs (drop (length (pack cs)) words) chars),
    )
