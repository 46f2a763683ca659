-- ===== src/NvCounter/Capsule/Initialize.antt =====
-- `FlashCounter::initialize`, from any contents of the flash.
use tock_on_titan.Common.{
  ℕ, ◌+◌, ◌<◌, ◌≡◌, refl, ap, arith, List, [], ◌∷◌, ◌++◌, none, some, true, false, inl, inr,
  Bool-cases,
}
use tock_on_titan.ReturnCode.{success, einval}
use tock_on_titan.NvCounter.Device.{erasing, effect, erase}
use tock_on_titan.NvCounter.Page.{high, low, counts_per_page, counter_value, page_empty}
use tock_on_titan.NvCounter.Page.Count.{Stores, page_empty_zero, page_empty-Stores}
use tock_on_titan.NvCounter.Page.Update.{increment_operation, Stores-erase, Stores-erase_other}
use tock_on_titan.NvCounter.Capsule.{
  FlashCounter, initialize, ClientCall, initialize_done, begin_initialize, complete, erase_done,
  continue_initialize, write_done, restart_initialize,
}
use tock_on_titan.NvCounter.Capsule.Increment.{Holds, counter, device}
use tock_on_titan.NvCounter.Capsule.Complete.{Holds-high}
use tock_on_titan.NvCounter.Capsule.Counts.{Counts, counts, resting}

zero_value : counter_value 0 0 ≡ 0
unfolding counter_value
zero_value = refl

abbrev erased_low : (ℕ → ℕ) → ℕ → ℕ
erased_low words = effect (erasing 255) words

abbrev erased_both : (ℕ → ℕ) → ℕ → ℕ
erased_both words = effect (erasing 254) (erased_low words)

abbrev told : List ClientCall → List ClientCall
told cs = cs ++ (initialize_done success ∷ [])

Holds-zero : (words : ℕ → ℕ) → Stores words high 0 → Stores words low 0 → Holds words 0 0
Holds-zero words h l = record {
  high_stored = h;
  low_stored = l;
  high_bound = omega arith;
  low_bound = omega arith;
}

module _ (words : ℕ → ℕ) (b : ℕ) (cs : List ClientCall) where
  continue_empty :
      page_empty high (device words none) ≡ true
      → continue_initialize (counter words none (some b) (some initialize) cs)
        ≡ counter words none (some b) none (told cs)
  unfolding continue_initialize
  continue_empty e = rw e

  continue_counted :
      page_empty high (device words none) ≡ false
      → continue_initialize (counter words none (some b) (some initialize) cs)
        ≡ counter words (some (erasing 254)) (some b) (some initialize) cs
  unfolding continue_initialize erase
  continue_counted e = rw e

-- Init1 and, if the high page was not empty, Init2: one completion or two.
pub data Initializes (cs : List ClientCall) : FlashCounter → Type 0 where
  once : (c c' : FlashCounter) → complete c ≡ some c' → Counts 0 (told cs) c' → Initializes cs c
  twice :
      (c c' c'' : FlashCounter)
      → complete c ≡ some c'
      → c'.calls ≡ cs
      → complete c' ≡ some c''
      → Counts 0 (told cs) c''
      → Initializes cs c

-- From rest, over any contents of the flash, an initialization is accepted; after one completion,
-- or two, the client has been told of success, once and at the end, and the counter holds 0.
pub initialize_refines :
    (words : ℕ → ℕ) (b : ℕ) (cs : List ClientCall)
    → (c : FlashCounter) × (begin_initialize (counter words none (some b) none cs) ≡ (success, c))
      × Initializes cs c
unfolding begin_initialize erase complete erase_done
initialize_refines words b cs = (
  counter words (some (erasing 255)) (some b) (some initialize) cs,
  refl,
  elim (Bool-cases (page_empty high (device (erased_low words) none))) [
    | inl empty ↦ once _ _ (ap some (continue_empty (erased_low words) b cs empty)) (
        counts _ 0 0 _ _ refl
          (Holds-zero _ (page_empty-Stores _ high empty) (Stores-erase words low)) zero_value
          (resting b))
    | inr counted ↦
        let st = Stores-erase (erased_low words) high in
        twice _ _ _ (ap some (continue_counted (erased_low words) b cs counted)) refl
          (ap some (
            continue_empty (erased_both words) b cs
              (page_empty_zero (device (erased_both words) none) high st)))
          (counts _ 0 0 _ _ refl
            (Holds-zero _ st
              (Stores-erase_other (erased_low words) high 0 (Stores-erase words low)))
            zero_value (resting b))
  ],
)

-- An initialization requested while Rollover3 runs is accepted, and then never carried out: when
-- the write completes, the capsule asks to erase page 255 * 512 and the client is told EINVAL,
-- the flash keeping the counter's value.
pub initialize_in_rollover3 :
    (words : ℕ → ℕ) (h l : ℕ) (cs : List ClientCall)
    → Holds words h l
    → h < counts_per_page
    → (c c' : FlashCounter) × (begin_initialize
          (counter words (some (increment_operation high h)) none none cs)
        ≡ (success, c))
      × (complete c ≡ some c')
      × (c'.calls ≡ cs ++ (initialize_done einval ∷ []))
      × (c'.flash.ongoing ≡ none)
      × Holds c'.flash.words (h + 1) l
unfolding begin_initialize erase complete write_done restart_initialize
initialize_in_rollover3 words h l cs s k = (_, _, refl, refl, refl, refl, Holds-high s k)
