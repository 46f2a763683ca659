-- ===== src/NvCounter/Capsule/Refine.antt =====
-- The capsule against its abstract view: an increment, and the completions between increments.
use tock_on_titan.Common.{
  ℕ, ◌+◌, ◌≤◌, ◌<◌, ◌≡◌, refl, ◌∙◌, ap, arith, List, none, some, Option, true, false, ◌==◌, inl,
  inr, Bool-cases, ltb, subst,
}
use tock_on_titan.ReturnCode.{success_with_value}
use tock_on_titan.NvCounter.Device.{Operation, erasing}
use tock_on_titan.NvCounter.Page.{high, low, counts_per_page, is_odd, counter_value}
use tock_on_titan.NvCounter.Page.Value.{
  max_value, counter_value-incr1, counter_value-rollover1, counter_value-rollover2,
  counter_value-rollover3, counter_value-lt_max,
}
use tock_on_titan.NvCounter.Page.Update.{increment_operation}
use tock_on_titan.NvCounter.Capsule.{
  FlashCounter, increment, ClientCall, read_and_increment, complete,
}
use tock_on_titan.NvCounter.Capsule.Increment.{
  Holds, counter, begin_incr1_lem, begin_rollover1_lem, begin_rollover2_lem, begin_rollover3_lem,
  join_rollover2, join_rollover3,
}
use tock_on_titan.NvCounter.Capsule.Complete.{
  Holds-incr1, Holds-high, Holds-erase, complete_incr1, complete_rollover1, complete_rollover2,
  complete_rollover3, complete_rollover3_requested,
}
use tock_on_titan.NvCounter.Capsule.Counts.{
  Ready, resting, in_rollover2, in_rollover3, Counts, counts, Finishes, finished, waits,
}

module _ {words : ℕ → ℕ} {h : ℕ} (v : ℕ) (cs : List ClientCall) where
  finishing_incr1 :
      {l : ℕ}
      → Holds words h l
      → counter_value h l ≡ v
      → is_odd h ≡ false
      → l < counts_per_page
      → Finishes v cs 1 (counter words (some (increment_operation low l)) none (some increment) cs)
  finishing_incr1 {l} s e even k = waits 0 h l _ _ refl s e (complete_incr1 s cs even k) (
      finished _ (
        counts _ h (l + 1) _ _ refl (Holds-incr1 s k)
          (omega (arith, counter_value-incr1 h l even s.high_bound k, e)) (resting _)))

  finishing_rollover1 :
      {l : ℕ}
      → Holds words h l
      → counter_value h l ≡ v
      → is_odd h ≡ false
      → h < counts_per_page
      → l ≡ counts_per_page
      → Finishes v cs 1 (counter words (some (increment_operation high h)) none (some increment) cs)
  finishing_rollover1 {l} s e even k full =
      let f : counter_value h counts_per_page ≡ v = rw (← full) e in
      waits 0 h l _ _ refl s e (complete_rollover1 s cs even k full) (
        finished _ (
          counts _ (h + 1) l _ _ refl (Holds-high s k)
            (omega (arith, counter_value-rollover1 h l even k, f))
            (in_rollover2 _ (ground arith) (rw full))))

  pub odd_bound : {l : ℕ} → Holds words h l → is_odd h ≡ true → h < counts_per_page
  odd_bound s odd = let k = s.high_bound in ground arith

module _ {words : ℕ → ℕ} {h : ℕ} (v : ℕ) (cs : List ClientCall) where
  finishing_rollover3 :
      {l : ℕ}
      → Holds words h l
      → counter_value h l ≡ v
      → is_odd h ≡ true
      → l ≡ 0
      → Finishes v cs 2 (counter words (some (increment_operation high h)) none (some increment) cs)
  finishing_rollover3 {l} s e odd z =
      let k = odd_bound v cs s odd in
      waits 1 h l _ _ refl s e (complete_rollover3_requested s cs k z) (
        finishing_incr1 v cs (rw z at (Holds-high s k)) (counter_value-rollover3 h l odd k ∙ e)
          (ground arith) (omega arith))

module _ {words : ℕ → ℕ} {h : ℕ} (v : ℕ) (cs : List ClientCall) where
  finishing_rollover2 :
      {l : ℕ} (b : ℕ)
      → Holds words h l
      → counter_value h l ≡ v
      → is_odd h ≡ true
      → Finishes v cs 3 (counter words (some (erasing 255)) (some b) (some increment) cs)
  finishing_rollover2 {l} b s e odd =
      waits 2 h l _ _ refl s e
        (complete_rollover2 s cs b (some increment) (inr refl) (odd_bound v cs s odd))
        (finishing_rollover3 v cs (Holds-erase s) (counter_value-rollover2 h 0 l odd ∙ e) odd refl)

-- What `read_and_increment` promises at the value `v`: the answer is `v`, and the client is told
-- of success after 1, 2 or 3 completions, when the flash holds `v + 1`.
abbrev pub Increments : ℕ → List ClientCall → FlashCounter → Type 0
Increments v cs c =
    (c' : FlashCounter) × (n : ℕ) × (read_and_increment c ≡ some (success_with_value v, c'))
    × (1 ≤ n)
    × (n ≤ 3)
    × Finishes v cs n c'

rest-Increments :
    (words : ℕ → ℕ) (h l b : ℕ) (cs : List ClientCall)
    → Holds words h l
    → counter_value h l < max_value
    → Increments (counter_value h l) cs (counter words none (some b) none cs)
rest-Increments words h l b cs s k = elim (Bool-cases (is_odd h)) [
  | inl odd ↦ elim (Bool-cases (l == 0)) [
    | inl zeroed ↦
        let z : l ≡ 0 = ground arith in
        (
          _,
          2,
          begin_rollover3_lem s cs b odd (odd_bound 0 cs s odd) z,
          omega arith,
          omega arith,
          finishing_rollover3 (counter_value h l) cs s refl odd z,
        )
    | inr counted ↦ (
      _,
      3,
      begin_rollover2_lem s cs (some b) odd counted,
      omega arith,
      omega arith,
      finishing_rollover2 (counter_value h l) cs b s refl odd,
    )
  ]
  | inr even ↦ elim (Bool-cases (ltb l counts_per_page)) [
    | inl room ↦ (
      _,
      1,
      begin_incr1_lem s cs b even (ground arith),
      omega arith,
      omega arith,
      finishing_incr1 (counter_value h l) cs s refl even (ground arith),
    )
    | inr full ↦
        let lb = s.low_bound in
        let e : l ≡ counts_per_page = ground arith in
        let hb = counter_value-lt_max h l s.high_bound s.low_bound k (even, e) in
        (
          _,
          1,
          begin_rollover1_lem s cs b even hb e,
          omega arith,
          omega arith,
          finishing_rollover1 (counter_value h l) cs s refl even hb e,
        )
  ]
]

Ready-Increments :
    (words : ℕ → ℕ) (h l : ℕ) (cs : List ClientCall) (ongoing : Option Operation) (b : Option ℕ)
    → Ready h l ongoing b
    → Holds words h l
    → counter_value h l < max_value
    → Increments (counter_value h l) cs (counter words ongoing b none cs)
Ready-Increments words h l cs _ _ (resting b) s k = rest-Increments words h l b cs s k
Ready-Increments words h l cs _ _ (in_rollover2 b odd counted) s k = (
  _,
  3,
  join_rollover2 s cs b odd counted,
  omega arith,
  omega arith,
  finishing_rollover2 (counter_value h l) cs b s refl odd,
)
Ready-Increments words h l cs _ _ (in_rollover3 op e odd z) s k = (
  _,
  2,
  join_rollover3 s cs op odd z,
  omega arith,
  omega arith,
  rw e (finishing_rollover3 (counter_value h l) cs s refl odd z),
)

-- A counter with a client, below its largest value and waited for by no client, answers its value
-- `v` to `read_and_increment`, also while Rollover2 or Rollover3 runs in the background or has
-- been cut off by a reset. After 1 to 3 successful completions the client has been told of
-- success, once, and the flash holds `v + 1`; before each of them it holds `v`.
pub read_and_increment_refines :
    (v : ℕ) (cs : List ClientCall) (c : FlashCounter)
    → Counts v cs c
    → v < max_value
    → Increments v cs c
read_and_increment_refines v cs c (counts words h l ongoing b e s val r) k = rw e (
    subst (λ m. Increments m cs (counter words ongoing b none cs)) val
      (Ready-Increments words h l cs ongoing b r s (omega (arith, val))))

background-Ready :
    (words : ℕ → ℕ) (h l : ℕ) (cs : List ClientCall) (ongoing : Option Operation) (b : Option ℕ)
    → Ready h l ongoing b
    → Holds words h l
    → (c' : FlashCounter) × (complete (counter words ongoing b none cs) ≡ some c')
      × Counts (counter_value h l) cs c'
unfolding complete
background-Ready words h l cs _ _ (resting b) s =
    (_, refl, counts words h l none (some b) refl s refl (resting b))
background-Ready words h l cs _ _ (in_rollover2 b odd counted) s = (
  _,
  complete_rollover2 s cs b none (inl refl) (odd_bound 0 cs s odd),
  counts _ h 0 _ _ refl (Holds-erase s) (counter_value-rollover2 h 0 l odd)
      (in_rollover3 _ refl odd refl),
)
background-Ready words h l cs _ _ (in_rollover3 op e odd z) s =
    let k = odd_bound 0 cs s odd in
    rw e (
      _,
      complete_rollover3 s cs,
      counts _ (h + 1) l _ _ refl (Holds-high s k)
          (ap (counter_value (h + 1)) z ∙ counter_value-rollover3 h l odd k) (resting _),
    )

-- The completions that come while no client waits change neither the value nor what the client
-- has been told, and lead again to a state that no client waits in.
pub background_keeps_value :
    (v : ℕ) (cs : List ClientCall) (c : FlashCounter)
    → Counts v cs c
    → (c' : FlashCounter) × (complete c ≡ some c') × Counts v cs c'
background_keeps_value v cs c (counts words h l ongoing b e s val r) = rw e (
    subst
      (λ m.
        (c' : FlashCounter) × (complete (counter words ongoing b none cs) ≡ some c')
        × Counts m cs c')
      val (background-Ready words h l cs ongoing b r s))
