-- ===== src/NvCounter/Capsule/Failure.antt =====
-- The error paths of the capsule.
use tock_on_titan.Common.{
  ℕ, ◌<◌, ◌≡◌, refl, arith, List, [], ◌∷◌, ◌++◌, none, some, Option, false, ◌==◌, ◌⊎◌, inl, inr,
  Bool-cases, ltb, subst,
}
use tock_on_titan.ReturnCode.{ReturnCode, success, fail, ebusy, success_with_value, is_success}
use tock_on_titan.NvCounter.Device.{Operation, erasing, writing}
use tock_on_titan.NvCounter.Page.{counts_per_page, is_odd, counter_value}
use tock_on_titan.NvCounter.Page.Value.{max_value, counter_value-lt_max}
use tock_on_titan.NvCounter.Capsule.{
  FlashCounter, Task, increment, ClientCall, increment_done, begin_initialize, read_and_increment,
  complete_failed, erase_done, erase_failed, write_done,
}
use tock_on_titan.NvCounter.Capsule.Increment.{
  Holds, counter, begin_incr1_lem, begin_rollover1_lem, begin_rollover2_lem, begin_rollover3_lem,
  join_rollover2, join_rollover3,
}
use tock_on_titan.NvCounter.Capsule.Counts.{
  Ready, resting, in_rollover2, in_rollover3, Counts, counts,
}
use tock_on_titan.NvCounter.Capsule.Refine.{odd_bound}
use tock_on_titan.NvCounter.Capsule.Initialize.{Initializes, initialize_refines}

-- While a client waits, both requests answer EBUSY and change nothing.
pub busy_while_waiting :
    (c : FlashCounter) (t : Task)
    → c.task ≡ some t
    → (begin_initialize c ≡ (ebusy, c)) × (read_and_increment c ≡ some (ebusy, c))
unfolding begin_initialize read_and_increment
busy_while_waiting c t e = (ground arith, ground arith)

-- An increment under way: its erase, while the capsule has the buffer, or its write of one word,
-- while the driver has it.
data Incrementing (words : ℕ → ℕ) (cs : List ClientCall) : FlashCounter → Type 0 where
  erases :
      (page b : ℕ)
      → Incrementing words cs (counter words (some (erasing page)) (some b) (some increment) cs)
  writes :
      (target word : ℕ)
      → Incrementing words cs
          (counter words (some (writing target (word ∷ []))) none (some increment) cs)

Begins : ℕ → (ℕ → ℕ) → List ClientCall → FlashCounter → Type 0
Begins v words cs c =
    (c' : FlashCounter) × (read_and_increment c ≡ some (success_with_value v, c'))
    × Incrementing words cs c'

rest-Begins :
    (words : ℕ → ℕ) (h l b : ℕ) (cs : List ClientCall)
    → Holds words h l
    → counter_value h l < max_value
    → Begins (counter_value h l) words cs (counter words none (some b) none cs)
unfolding Begins
rest-Begins words h l b cs s k = elim (Bool-cases (is_odd h)) [
  | inl odd ↦ elim (Bool-cases (l == 0)) [
    | inl zeroed ↦
        (_, begin_rollover3_lem s cs b odd (odd_bound 0 cs s odd) (ground arith), writes _ _)
    | inr counted ↦ (_, begin_rollover2_lem s cs (some b) odd counted, erases 255 b)
  ]
  | inr even ↦ elim (Bool-cases (ltb l counts_per_page)) [
    | inl room ↦ (_, begin_incr1_lem s cs b even (ground arith), writes _ _)
    | inr full ↦
        let lb = s.low_bound in
        let e : l ≡ counts_per_page = ground arith in
        let hb = counter_value-lt_max h l s.high_bound s.low_bound k (even, e) in
        (_, begin_rollover1_lem s cs b even hb e, writes _ _)
  ]
]

Ready-Begins :
    (words : ℕ → ℕ) (h l : ℕ) (cs : List ClientCall) (ongoing : Option Operation) (b : Option ℕ)
    → Ready h l ongoing b
    → Holds words h l
    → counter_value h l < max_value
    → Begins (counter_value h l) words cs (counter words ongoing b none cs)
unfolding Begins
Ready-Begins words h l cs _ _ (resting b) s k = rest-Begins words h l b cs s k
Ready-Begins words h l cs _ _ (in_rollover2 b odd counted) s k =
    (_, join_rollover2 s cs b odd counted, erases 255 b)
Ready-Begins words h l cs _ _ (in_rollover3 op e odd z) s k =
    (_, join_rollover3 s cs op odd z, rw e (writes _ _))

-- What the client is told when an increment fails: FAIL after an erase, the code of the flash after
-- a write; then nothing is ongoing and the capsule has its buffer.
Fails : (ℕ → ℕ) → List ClientCall → ReturnCode → FlashCounter → Type 0
Fails left cs code c =
    (told : ReturnCode) × (b : ℕ) × (complete_failed code left c
      ≡ some (counter left none (some b) none (cs ++ (increment_done told ∷ []))))
    × ((told ≡ fail) ⊎ (told ≡ code))

Incrementing-Fails :
    (words left : ℕ → ℕ) (cs : List ClientCall) (code : ReturnCode) (c : FlashCounter)
    → Incrementing words cs c
    → is_success code ≡ false
    → Fails left cs code c
unfolding Fails complete_failed erase_done erase_failed write_done
Incrementing-Fails words left cs code _ (erases page b) e = (fail, b, rw e refl, inl refl)
Incrementing-Fails words left cs code _ (writes target word) e = (code, word, rw e refl, inr refl)

-- The increment begins, its flash operation fails, and the counter is initialized.
abbrev pub Recovers : ℕ → List ClientCall → ReturnCode → (ℕ → ℕ) → FlashCounter → Type 0
Recovers v cs code left c =
    (begun failed restarted : FlashCounter) × (told : ReturnCode) × (read_and_increment c
      ≡ some (success_with_value v, begun))
    × (complete_failed code left begun ≡ some failed)
    × (failed.calls ≡ cs ++ (increment_done told ∷ []))
    × ((told ≡ fail) ⊎ (told ≡ code))
    × (begin_initialize failed ≡ (success, restarted))
    × Initializes failed.calls restarted

-- A counter with a client, below its largest value and waited for by no client, answers its value
-- to `read_and_increment`; when the flash operation that is then ongoing fails, whatever it leaves
-- in the flash, the capsule does not panic, the client is told once, of FAIL or of the code that the
-- flash gives, and an initialization is accepted, which after one completion or two has told the
-- client of success, and the counter holds 0.
pub increment_failure-Recovers :
    (v : ℕ) (cs : List ClientCall) (c : FlashCounter) (code : ReturnCode) (left : ℕ → ℕ)
    → Counts v cs c
    → v < max_value
    → is_success code ≡ false
    → Recovers v cs code left c
unfolding Begins Fails
increment_failure-Recovers v cs c code left (counts words h l ongoing b e s val r) k failure =
    let (begun, answer, going) : Begins v words cs c = rw e (
      subst (λ m. Begins m words cs (counter words ongoing b none cs)) val
        (Ready-Begins words h l cs ongoing b r s (omega (arith, val)))) in
    let (told, b', failed, code_told) = Incrementing-Fails words left cs code begun going failure in
    let (restarted, accepted, init) =
      initialize_refines left b' (cs ++ (increment_done told ∷ [])) in
    (begun, _, restarted, told, answer, failed, refl, code_told, accepted, init)
