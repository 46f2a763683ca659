-- ===== src/NvCounter/Capsule/Counts.antt =====
-- The abstract view of the capsule: a value, and an increment of it that takes some completions.
use tock_on_titan.Common.{
  ℕ, suc, ◌+◌, ◌≡◌, List, [], ◌∷◌, ◌++◌, none, some, Option, true, false, ◌==◌,
}
use tock_on_titan.ReturnCode.{success}
use tock_on_titan.NvCounter.Device.{Operation, erasing}
use tock_on_titan.NvCounter.Page.{high, is_odd, counter_value}
use tock_on_titan.NvCounter.Page.Update.{increment_operation}
use tock_on_titan.NvCounter.Capsule.{FlashCounter, increment, ClientCall, increment_done, complete}
use tock_on_titan.NvCounter.Capsule.Increment.{Holds, counter}

-- What may be ongoing while no client waits: nothing, Rollover2 or Rollover3.
pub data Ready (h l : ℕ) : Option Operation → Option ℕ → Type 0 where
  resting : (b : ℕ) → Ready h l none (some b)
  in_rollover2 :
      (b : ℕ) → is_odd h ≡ true → (l == 0) ≡ false → Ready h l (some (erasing 255)) (some b)
  in_rollover3 :
      (op : Operation)
      → op ≡ increment_operation high h
      → is_odd h ≡ true
      → l ≡ 0
      → Ready h l (some op) none

-- No client waits, and the flash holds the value `v`.
pub data Counts (v : ℕ) (cs : List ClientCall) (c : FlashCounter) : Type 0 where
  counts :
      (words : ℕ → ℕ) (h l : ℕ) (ongoing : Option Operation) (b : Option ℕ)
      → c ≡ counter words ongoing b none cs
      → Holds words h l
      → counter_value h l ≡ v
      → Ready h l ongoing b
      → Counts v cs c

-- After `n` completions the client has been told of success and the flash holds `v + 1`; until
-- then the task goes on, and the flash holds `v` before each completion.
pub data Finishes (v : ℕ) (cs : List ClientCall) : ℕ → FlashCounter → Type 0 where
  finished :
      (c : FlashCounter)
      → Counts (v + 1) (cs ++ (increment_done success ∷ [])) c
      → Finishes v cs 0 c
  waits :
      (n h l : ℕ) (c c' : FlashCounter)
      → c.task ≡ some increment
      → Holds c.flash.words h l
      → counter_value h l ≡ v
      → complete c ≡ some c'
      → Finishes v cs n c'
      → Finishes v cs (suc n) c
