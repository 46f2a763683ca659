-- ===== src/Flash/Driver/CarriesOut.antt =====
-- driver.rs: what it means that the driver carries out an operation of the flash.
use tock_on_titan.Common.{
  ℕ, ◌+◌, ◌*◌, ◌≤◌, ◌<◌, arith, true, ◌&&◌, ◌⊎◌, ◌∷◌, Option, none, some, ltb, leb, Bool-cases, inl,
  inr, ◌≡◌, sym, ◌∙◌,
}
use tock_on_titan.ReturnCode.{ReturnCode, is_success}
use tock_on_titan.NvCounter.Device.{Operation, effect, words_per_bank}
use tock_on_titan.Flash.SmartProgram.{Bank, bank_zero, bank_one}
use tock_on_titan.Flash.Driver.{get_bank_from_target}
use tock_on_titan.Flash.Driver.Hardware.{Outside, Told, World}

-- The operation has been carried out in the world `result`, which came from `w`: the client has
-- been told, once, and the driver is idle; no words but those of the operation have changed, and
-- with a success the flash holds what the operation leaves.
abbrev pub CarriesOut : Operation → (ReturnCode → Told) → ℕ → ℕ → World → Option World → Type 0
CarriesOut op told first count w result =
    (code : ReturnCode) × (w' : World) × (result ≡ some w')
    × (w'.driver.smart_program_state ≡ none)
    × (w'.told ≡ told code ∷ w.told)
    × ((i : ℕ) → Outside first count i → w'.words i ≡ w.words i)
    × (is_success code ≡ true → (i : ℕ) → w'.words i ≡ effect op w.words i)

inside_or_Outside :
    (first count i : ℕ) → ((first ≤ i) × (i < first + count)) ⊎ Outside first count i
inside_or_Outside first count i = elim (Bool-cases (leb first i && ltb i (first + count))) [
  | inl e ↦ inl (ground arith, ground arith)
  | inr e ↦ inr (ground arith)
]

-- What holds outside of a range and inside of it holds everywhere.
pub everywhere :
    (first count : ℕ) (words before wanted : ℕ → ℕ)
    → ((i : ℕ) → Outside first count i → words i ≡ before i)
    → ((i : ℕ) → Outside first count i → wanted i ≡ before i)
    → ((i : ℕ) → first ≤ i → i < first + count → words i ≡ wanted i)
    → (i : ℕ) → words i ≡ wanted i
everywhere first count words before wanted out same inside i =
    elim (inside_or_Outside first count i) [
      | inl (a, b) ↦ inside i a b
      | inr o ↦ out i o ∙ sym (same i o)
    ]

pub bank-of_target :
    (target : ℕ)
    → target < 2 * words_per_bank
    → (bank : Bank) × (get_bank_from_target target ≡ some bank)
unfolding get_bank_from_target
bank-of_target target h = elim (Bool-cases (ltb target words_per_bank)) [
  | inl e ↦ (bank_zero, rw e)
  | inr e ↦ (bank_one, let f : ltb target (2 * words_per_bank) ≡ true = ground arith in rw (e, f))
]
