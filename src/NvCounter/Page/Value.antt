-- ===== src/NvCounter/Page/Value.antt =====
-- `counter_value` over the steps of an increment.
use tock_on_titan.Common.{ℕ, ◌+◌, ◌≤◌, ◌<◌, ◌≡◌, arith, true, false}
use tock_on_titan.NvCounter.Page.{counts_per_page, is_odd, counter_value}

-- The largest value, as capsule.rs states it.
abbrev pub max_value : ℕ
max_value = 8394752

-- Incr1 adds one.
pub counter_value-incr1 :
    (h l : ℕ)
    → is_odd h ≡ false
    → h ≤ counts_per_page
    → l < counts_per_page
    → counter_value h (l + 1) ≡ counter_value h l + 1
unfolding counter_value
counter_value-incr1 h l even k j = ground arith

-- Rollover1 adds one.
pub counter_value-rollover1 :
    (h l : ℕ)
    → is_odd h ≡ false
    → h < counts_per_page
    → counter_value (h + 1) l ≡ counter_value h counts_per_page + 1
unfolding counter_value
counter_value-rollover1 h l even k = ground arith

-- Rollover2 and Rollover3 add nothing.
pub counter_value-rollover2 : (h l m : ℕ) → is_odd h ≡ true → counter_value h l ≡ counter_value h m
unfolding counter_value
counter_value-rollover2 h l m odd = ground arith

pub counter_value-rollover3 :
    (h l : ℕ) → is_odd h ≡ true → h < counts_per_page → counter_value (h + 1) 0 ≡ counter_value h l
unfolding counter_value
counter_value-rollover3 h l odd k = ground arith

pub counter_value-lt_max :
    (h l : ℕ)
    → h ≤ counts_per_page
    → l ≤ counts_per_page
    → counter_value h l < max_value
    → (is_odd h ≡ false) × (l ≡ counts_per_page)
    → h < counts_per_page
unfolding counter_value
counter_value-lt_max h l hh hl k (even, full) = ground arith

-- Counts of at most 4096 give a value of at most 8394752.
pub counter_value-le_max :
    (h l : ℕ) → h ≤ counts_per_page → l ≤ counts_per_page → counter_value h l ≤ max_value
unfolding counter_value
counter_value-le_max h l hh hl = ground arith
