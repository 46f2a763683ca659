-- ===== src/NvCounter/Tests.antt =====
-- The theorems of the counter at concrete contents of the flash, and runs of the code.
use tock_on_titan.Common.{
  ℕ, ◌+◌, ◌-◌, ◌*◌, ◌≡◌, ◌↔◌, true, refl, min, arith, [], ◌∷◌, none, some, false, ◌==◌,
  if◌then◌else◌,
}
use tock_on_titan.ReturnCode.{success, fail, esize, einval}
use tock_on_titan.NvCounter.Device.{Operation, erased_word, effect}
use tock_on_titan.NvCounter.Page.{
  page_empty, Page, start_increment, high, low, read_page_count, counter_value,
}
use tock_on_titan.NvCounter.Page.Decode.{level_word}
use tock_on_titan.NvCounter.Page.Count.{Stores, read_page_count_lem, page_empty_iff}
use tock_on_titan.NvCounter.Page.Update.{increment_operation, start_increment_counts}
use tock_on_titan.NvCounter.Page.Torn.{Torn, torn_word, read_page_count-Torn}
use tock_on_titan.NvCounter.Capsule.{
  FlashCounter, increment, initialize_done, begin_initialize, read_and_increment, complete,
}
use tock_on_titan.NvCounter.Capsule.Increment.{Holds, counter, device, begin_full}
use tock_on_titan.NvCounter.Capsule.Complete.{Holds-incr1, Holds-high}
use tock_on_titan.NvCounter.Capsule.Counts.{Counts, counts, resting, in_rollover3}
use tock_on_titan.NvCounter.Capsule.Refine.{
  Increments, read_and_increment_refines, background_keeps_value,
}
use tock_on_titan.NvCounter.Capsule.Initialize.{
  Initializes, initialize_refines, initialize_in_rollover3,
}
use tock_on_titan.NvCounter.Capsule.Failure.{Recovers, increment_failure-Recovers}

abbrev blank : ℕ → ℕ
blank i = erased_word

blank-Stores : (page : Page) → Stores blank page 0
unfolding level_word
blank-Stores page i k = let e : min 8 (0 - 8 * i) ≡ 0 = omega arith in rw e refl

blank-Holds : Holds blank 0 0
blank-Holds = record {
  high_stored = blank-Stores high;
  low_stored = blank-Stores low;
  high_bound = omega arith;
  low_bound = omega arith;
}

-- One count in the low page.
abbrev counted : ℕ → ℕ
counted = effect (increment_operation low 0) blank

-- One count in the high page: Rollover2 has erased the low page.
abbrev rolled : ℕ → ℕ
rolled = effect (increment_operation high 0) blank

counted-Holds : Holds counted 0 1
counted-Holds = Holds-incr1 blank-Holds (omega arith)

rolled-Holds : Holds rolled 1 0
rolled-Holds = Holds-high blank-Holds (omega arith)

-- Both pages full.
abbrev zeroes : ℕ → ℕ
zeroes i = 0

zeroes-Stores : (page : Page) → Stores zeroes page 4096
unfolding level_word
zeroes-Stores page i k = let e : min 8 (4096 - 8 * i) ≡ 8 = omega arith in rw e refl

zeroes-Holds : Holds zeroes 4096 4096
zeroes-Holds = record {
  high_stored = zeroes-Stores high;
  low_stored = zeroes-Stores low;
  high_bound = omega arith;
  low_bound = omega arith;
}

one_value : counter_value 0 1 ≡ 1
unfolding counter_value
one_value = refl

rolled_value : counter_value 1 0 ≡ 4097
unfolding counter_value
rolled_value = refl

counted-Counts : Counts 1 [] (counter counted none (some 0) none [])
counted-Counts = counts _ 0 1 _ _ refl counted-Holds one_value (resting 0)

rolled-Counts : Counts 4097 [] (counter rolled (some (increment_operation high 1)) none none [])
rolled-Counts = counts _ 1 0 _ _ refl rolled-Holds rolled_value (in_rollover3 _ refl refl refl)

read_and_increment_refines_example : Increments 1 [] (counter counted none (some 0) none [])
read_and_increment_refines_example = read_and_increment_refines 1 [] _ counted-Counts (omega arith)

background_keeps_value_example :
    (c' : FlashCounter) × (complete
        (counter rolled (some (increment_operation high 1)) none none [])
      ≡ some c')
    × Counts 4097 [] c'
background_keeps_value_example = background_keeps_value 4097 [] _ rolled-Counts

-- The first count of the low page, cut off when one of its four bits was cleared.
abbrev half_counted : ℕ → ℕ
half_counted i = if i == 130560 then torn_word 0 7 else erased_word

half_Torn : Torn half_counted low 0 7
unfolding level_word
half_Torn = record {
  torn = refl;
  kept = λ i k away.
      let e : min 8 (0 - 8 * i) ≡ 0 = omega arith in
      let f : (130560 + i == 130560) ≡ false = ground arith in rw (e, f) refl;
}

read_page_count-Torn_example :
    read_page_count low (record { words = half_counted; ongoing = none }) ≡ 1
read_page_count-Torn_example = read_page_count-Torn _ low 0 7 half_Torn (omega arith) (omega arith)

initialize_refines_example :
    (c : FlashCounter) × (begin_initialize (counter zeroes none (some 0) none []) ≡ (success, c))
    × Initializes [] c
initialize_refines_example = initialize_refines zeroes 0 []

increment_failure-Recovers_example :
    Recovers 1 [] fail half_counted (counter counted none (some 0) none [])
increment_failure-Recovers_example =
    increment_failure-Recovers 1 [] _ fail half_counted counted-Counts (omega arith) refl

begin_full_example :
    read_and_increment (counter zeroes none (some 0) none [])
    ≡ some (esize, counter zeroes none (some 0) none [])
begin_full_example = begin_full zeroes-Holds [] 0 refl refl

abbrev waiting : FlashCounter
waiting = counter blank (some (increment_operation low 0)) none (some increment) []

initialize_in_rollover3_example :
    (c c' : FlashCounter) × (begin_initialize
        (counter rolled (some (increment_operation high 1)) none none [])
      ≡ (success, c))
    × (complete c ≡ some c')
    × (c'.calls ≡ initialize_done einval ∷ [])
    × (c'.flash.ongoing ≡ none)
    × Holds c'.flash.words 2 0
initialize_in_rollover3_example = initialize_in_rollover3 rolled 1 0 [] rolled-Holds (omega arith)

read_page_count_lem_example : read_page_count low (device counted none) ≡ 1
read_page_count_lem_example =
    read_page_count_lem (device counted none) low 1 counted-Holds.low_stored (omega arith)

start_increment_counts_example :
    (op : Operation) × (start_increment low 1 (device counted none) 0
      ≡ (success, none, device counted (some op)))
    × Stores (effect op counted) low 2
    × (read_page_count low (device (effect op counted) none) ≡ 2)
    × Stores (effect op counted) high 0
start_increment_counts_example =
    start_increment_counts (device counted none) low 1 0 0 refl counted-Holds.low_stored
      counted-Holds.high_stored (omega arith)

page_empty_iff_example : (page_empty high (device zeroes none) ≡ true) ↔ Stores zeroes high 0
page_empty_iff_example = page_empty_iff (device zeroes none) high
