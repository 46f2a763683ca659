-- ===== src/NvCounter/Capsule/Complete.antt =====
-- What the capsule does when the flash operation of each step completes.
use tock_on_titan.Common.{
  ℕ, ◌+◌, ◌%◌, ◌<◌, ◌≡◌, refl, arith, List, [], ◌∷◌, ◌++◌, none, some, Option, true, false, ◌==◌,
  ◌⊎◌, inl, inr,
}
use tock_on_titan.ReturnCode.{success}
use tock_on_titan.NvCounter.Device.{erasing, erase, effect}
use tock_on_titan.NvCounter.Page.{high, low, counts_per_page, write_pattern, is_odd}
use tock_on_titan.NvCounter.Page.Count.{
  read_page_count_lem, page_empty_zero, page_empty_nonzero, low_page_full_lem,
}
use tock_on_titan.NvCounter.Page.Update.{
  increment_operation, start_increment_idle, Stores-increment, Stores-increment_other, Stores-erase,
  Stores-erase_other,
}
use tock_on_titan.NvCounter.Capsule.{
  Task, increment, ClientCall, increment_done, complete, erase_done, write_done, continue_rollover,
  continue_incr1, finish_increment,
}
use tock_on_titan.NvCounter.Capsule.Increment.{Holds, counter, device}

module _ {words : ℕ → ℕ} {h l : ℕ} (s : Holds words h l) where
  -- The flash after each step holds the counts that the table at the head of capsule.rs gives.
  pub Holds-incr1 : l < counts_per_page → Holds (effect (increment_operation low l) words) h (l + 1)
  Holds-incr1 k = record {
    high_stored = Stores-increment_other words low l h s.high_stored k;
    low_stored = Stores-increment words low l s.low_stored k;
    high_bound = s.high_bound;
    low_bound = omega arith;
  }

  pub Holds-high : h < counts_per_page → Holds (effect (increment_operation high h) words) (h + 1) l
  Holds-high k = record {
    high_stored = Stores-increment words high h s.high_stored k;
    low_stored = Stores-increment_other words high h l s.low_stored k;
    high_bound = omega arith;
    low_bound = s.low_bound;
  }

  pub Holds-erase : Holds (effect (erasing 255) words) h 0
  Holds-erase = record {
    high_stored = Stores-erase_other words low h s.high_stored;
    low_stored = Stores-erase words low;
    high_bound = s.high_bound;
    low_bound = omega arith;
  }

-- Incr1 or Rollover1 finished over flash that holds `h` and `l`, with `l` positive.
module _ {words : ℕ → ℕ} {h l : ℕ} (s : Holds words h l) (b : ℕ) (cs : List ClientCall) where
  pub finish_incr1 :
      is_odd h ≡ false
      → finish_increment (counter words none (some b) (some increment) cs)
        ≡ counter words none (some b) none (cs ++ (increment_done success ∷ []))
  unfolding finish_increment
  finish_incr1 even =
      rw (read_page_count_lem (device words none) high h s.high_stored s.high_bound, even)
        (ground arith)

  pub finish_rollover1 :
      is_odd h ≡ true
      → l ≡ counts_per_page
      → finish_increment (counter words none (some b) (some increment) cs)
        ≡ counter words (some (erasing 255)) (some b) none (cs ++ (increment_done success ∷ []))
  unfolding finish_increment erase
  finish_rollover1 odd e =
      let full : (l == counts_per_page) ≡ true = rw e in
      rw (
        read_page_count_lem (device words none) high h s.high_stored s.high_bound,
        low_page_full_lem (device words none) l s.low_stored s.low_bound,
        odd,
        full,
      )

-- Rollover3 is started over flash whose low page is erased.
continue_rollover_lem :
    {words : ℕ → ℕ} {h l : ℕ} (s : Holds words h l) (b : ℕ) (task : Option Task)
    (cs : List ClientCall)
    → h < counts_per_page
    → continue_rollover (counter words none (some b) task cs)
      ≡ some (counter words (some (increment_operation high h)) none task cs)
unfolding continue_rollover
continue_rollover_lem {words} {h} s b task cs k = rw (
  read_page_count_lem (device words none) high h s.high_stored s.high_bound,
  start_increment_idle high h b (device words none) k refl,
)

module _ {words : ℕ → ℕ} {h l : ℕ} (s : Holds words h l) (cs : List ClientCall) where
  pub complete_incr1 :
      is_odd h ≡ false
      → l < counts_per_page
      → complete (counter words (some (increment_operation low l)) none (some increment) cs)
        ≡ some (
            counter
              (effect (increment_operation low l) words)
              none
              (some (write_pattern (l % 8)))
              none
              (cs ++ (increment_done success ∷ [])))
  unfolding complete write_done
  complete_incr1 even k =
      let s' = Holds-incr1 s k in
      rw (
        page_empty_nonzero (device (effect (increment_operation low l) words) none) low (l + 1)
            s'.low_stored (omega arith),
        finish_incr1 s' _ cs even,
      )

  pub complete_rollover1 :
      is_odd h ≡ false
      → h < counts_per_page
      → l ≡ counts_per_page
      → complete (counter words (some (increment_operation high h)) none (some increment) cs)
        ≡ some (
            counter
              (effect (increment_operation high h) words)
              (some (erasing 255))
              (some (write_pattern (h % 8)))
              none
              (cs ++ (increment_done success ∷ [])))
  unfolding complete write_done
  complete_rollover1 even k e =
      let s' = Holds-high s k in
      let odd : is_odd (h + 1) ≡ true = ground arith in
      rw (
        page_empty_nonzero (device (effect (increment_operation high h) words) none) low l
            s'.low_stored (omega arith),
        finish_rollover1 s' _ cs odd e,
      )

  -- Rollover2 finished, with or without a further request.
  pub complete_rollover2 :
      (b : ℕ) (task : Option Task)
      → (task ≡ none) ⊎ (task ≡ some increment)
      → h < counts_per_page
      → complete (counter words (some (erasing 255)) (some b) task cs)
        ≡ some
            (counter (effect (erasing 255) words) (some (increment_operation high h)) none task cs)
  unfolding complete erase_done
  complete_rollover2 b task t k = elim t [
    | inl e ↦ rw e (continue_rollover_lem (Holds-erase s) b none cs k)
    | inr e ↦ rw e (continue_rollover_lem (Holds-erase s) b (some increment) cs k)
  ]

  -- Rollover3 finished with nothing further to do.
  pub complete_rollover3 :
      complete (counter words (some (increment_operation high h)) none none cs)
      ≡ some (
          counter
            (effect (increment_operation high h) words)
            none
            (some (write_pattern (h % 8)))
            none
            cs)
  unfolding complete write_done
  complete_rollover3 = refl

  -- Rollover3 finished with a further request: the low page counts from 0.
  pub complete_rollover3_requested :
      h < counts_per_page
      → l ≡ 0
      → complete (counter words (some (increment_operation high h)) none (some increment) cs)
        ≡ some (
            counter
              (effect (increment_operation high h) words)
              (some (increment_operation low 0))
              none
              (some increment)
              cs)
  unfolding complete write_done continue_incr1
  complete_rollover3_requested k e =
      let s' : Holds (effect (increment_operation high h) words) (h + 1) 0 =
        rw e at (Holds-high s k) in
      let flash = device (effect (increment_operation high h) words) none in
      rw (
        page_empty_zero flash low s'.low_stored,
        read_page_count_lem flash low 0 s'.low_stored s'.low_bound,
        start_increment_idle low 0 (write_pattern (h % 8)) flash (omega arith) refl,
      )
