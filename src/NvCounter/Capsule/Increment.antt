-- ===== src/NvCounter/Capsule/Increment.antt =====
-- The steps of an increment, one lemma for each step named at the head of capsule.rs.
use tock_on_titan.Common.{
  ℕ, ◌≤◌, ◌<◌, ◌≡◌, refl, arith, List, none, some, Option, true, false, ◌==◌,
}
use tock_on_titan.ReturnCode.{esize, success_with_value}
use tock_on_titan.NvCounter.Device.{Device, Operation, erasing, erase}
use tock_on_titan.NvCounter.Page.{high, low, counts_per_page, counter_value, is_odd}
use tock_on_titan.NvCounter.Page.Count.{Stores, read_page_count_lem}
use tock_on_titan.NvCounter.Page.Update.{
  increment_operation, start_increment_idle, start_increment_full,
}
use tock_on_titan.NvCounter.Capsule.{
  FlashCounter, Task, increment, ClientCall, begin_step, read_and_increment,
}

-- The two pages store the counts `h` and `l`.
pub record Holds (words : ℕ → ℕ) (h l : ℕ) : Type 0 where
  pub high_stored : Stores words high h
  pub low_stored : Stores words low l
  pub high_bound : h ≤ counts_per_page
  pub low_bound : l ≤ counts_per_page

-- A counter with a client.
abbrev pub counter :
    (ℕ → ℕ) → Option Operation → Option ℕ → Option Task → List ClientCall → FlashCounter
counter words ongoing buffer task calls = record {
  has_client = true;
  flash = record { words = words; ongoing = ongoing };
  write_buffer = buffer;
  task = task;
  calls = calls;
}

abbrev pub device : (ℕ → ℕ) → Option Operation → Device
device words ongoing = record { words = words; ongoing = ongoing }

module _ {words : ℕ → ℕ} {h l : ℕ} (s : Holds words h l) (cs : List ClientCall) where
  -- The counts that the pages store decide the step.
  begin_step_lem :
      (ongoing : Option Operation) (b : Option ℕ)
      → read_and_increment (counter words ongoing b none cs)
        ≡ begin_step h l (counter words ongoing b none cs)
  unfolding read_and_increment
  begin_step_lem ongoing b = rw (
    read_page_count_lem (device words ongoing) high h s.high_stored s.high_bound,
    read_page_count_lem (device words ongoing) low l s.low_stored s.low_bound,
  )

  pub begin_incr1_lem :
      (b : ℕ)
      → is_odd h ≡ false
      → l < counts_per_page
      → read_and_increment (counter words none (some b) none cs)
        ≡ some (
          success_with_value (counter_value h l),
          counter words (some (increment_operation low l)) none (some increment) cs,
        )
  unfolding begin_step
  begin_incr1_lem b even k =
      rw (begin_step_lem, even, start_increment_idle low l b (device words none) k refl)

  pub begin_rollover1_lem :
      (b : ℕ)
      → is_odd h ≡ false
      → h < counts_per_page
      → l ≡ counts_per_page
      → read_and_increment (counter words none (some b) none cs)
        ≡ some (
          success_with_value (counter_value h l),
          counter words (some (increment_operation high h)) none (some increment) cs,
        )
  unfolding begin_step
  begin_rollover1_lem b even k e = rw (
    begin_step_lem,
    even,
    start_increment_full low l b (device words none) (omega arith),
    start_increment_idle high h b (device words none) k refl,
  )

  -- When both pages are full and the flash and the counter are at rest, an increment is refused
  -- with ESIZE at once, and nothing changes.
  pub begin_full :
      (b : ℕ)
      → h ≡ counts_per_page
      → l ≡ counts_per_page
      → read_and_increment (counter words none (some b) none cs)
        ≡ some (esize, counter words none (some b) none cs)
  unfolding begin_step
  begin_full b e f =
      let even : is_odd h ≡ false = rw e in
      rw (
        begin_step_lem,
        even,
        start_increment_full low l b (device words none) (omega arith),
        start_increment_full high h b (device words none) (omega arith),
      )

  pub begin_rollover2_lem :
      (b : Option ℕ)
      → is_odd h ≡ true
      → (l == 0) ≡ false
      → read_and_increment (counter words none b none cs)
        ≡ some (
          success_with_value (counter_value h l),
          counter words (some (erasing 255)) b (some increment) cs,
        )
  unfolding begin_step erase
  begin_rollover2_lem b odd k = rw (begin_step_lem, odd, k)

  pub begin_rollover3_lem :
      (b : ℕ)
      → is_odd h ≡ true
      → h < counts_per_page
      → l ≡ 0
      → read_and_increment (counter words none (some b) none cs)
        ≡ some (
          success_with_value (counter_value h l),
          counter words (some (increment_operation high h)) none (some increment) cs,
        )
  unfolding begin_step
  begin_rollover3_lem b odd k e =
      let z : (l == 0) ≡ true = rw e in
      rw (begin_step_lem, odd, z, start_increment_idle high h b (device words none) k refl)

  -- While Rollover2 runs in the background the request waits for it.
  pub join_rollover2 :
      (b : ℕ)
      → is_odd h ≡ true
      → (l == 0) ≡ false
      → read_and_increment (counter words (some (erasing 255)) (some b) none cs)
        ≡ some (
          success_with_value (counter_value h l),
          counter words (some (erasing 255)) (some b) (some increment) cs,
        )
  unfolding begin_step erase
  join_rollover2 b odd k = rw (begin_step_lem, odd, k)

  -- While Rollover3 runs in the background the request waits for it.
  pub join_rollover3 :
      (op : Operation)
      → is_odd h ≡ true
      → l ≡ 0
      → read_and_increment (counter words (some op) none none cs)
        ≡ some (
          success_with_value (counter_value h l),
          counter words (some op) none (some increment) cs,
        )
  unfolding begin_step
  join_rollover3 op odd e = let z : (l == 0) ≡ true = rw e in rw (begin_step_lem, odd, z)
