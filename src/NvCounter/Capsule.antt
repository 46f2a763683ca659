-- ===== src/NvCounter/Capsule.antt =====
-- kernel/h1/src/nvcounter/capsule.rs: `FlashCounter`, its three entry points and its two flash
-- callbacks. The client's callbacks are recorded in order, newest last; the capsule makes each of
-- them as its last action, so a client that calls back in is a later call in the same order.
-- `none` is a panic: `write_buffer.take().unwrap()` while the driver has the buffer, and
-- `data.try_into().unwrap()` on a buffer that is not of one word.
pub mod Increment
pub mod Complete
pub mod Counts
pub mod Refine
pub mod Initialize
pub mod Failure
use tock_on_titan.Common.{
  ℕ, ◌+◌, ◌*◌, Bool, true, false, ◌&&◌, List, [], ◌∷◌, ◌++◌, Option, none, some, bind, ◌==◌,
  if◌then◌else◌,
}
use tock_on_titan.ReturnCode.{
  ReturnCode, success, fail, ebusy, esize, einval, enomem, enosupport, success_with_value, other,
  is_success, is_success_or_busy,
}
use tock_on_titan.NvCounter.Device.{
  Device, Operation, erasing, writing, erase, effect, words_per_page,
}
use tock_on_titan.NvCounter.Page.{
  high, low, page_number, read_page_count, start_increment, page_empty, low_page_full,
  counter_value, is_odd,
}

pub data Task : Type 0 where
  initialize increment : Task

-- The calls of trait `Client` in traits.rs.
pub data ClientCall : Type 0 where
  initialize_done increment_done : ReturnCode → ClientCall

pub record FlashCounter : Type 0 where
  pub has_client : Bool
  pub flash : Device
  pub write_buffer : Option ℕ
  pub task : Option Task
  pub calls : List ClientCall

-- `FlashCounter::new`, over a flash and the word in the buffer.
unfoldable pub new : ℕ → Device → FlashCounter
new word flash = record {
  has_client = false;
  flash = flash;
  write_buffer = some word;
  task = none;
  calls = [];
}

unfoldable pub set_client : FlashCounter → FlashCounter
set_client c = record c { has_client = true }

abbrev pub notify : FlashCounter → ClientCall → FlashCounter
notify c call = if c.has_client then record c { calls = c.calls ++ (call ∷ []) } else c

-- `self.task.set(None)` and the callback.
abbrev pub finish_task : FlashCounter → ClientCall → FlashCounter
finish_task c call = notify (record c { task = none }) call

unfoldable pub begin_initialize : FlashCounter → ReturnCode × FlashCounter
begin_initialize c = elim c.task [
  | some t ↦ (ebusy, c)
  | none ↦
      let (code, flash') = erase c.flash (page_number low) in
      if is_success_or_busy code
      then (success, record c { flash = flash'; task = some initialize })
      else (code, record c { flash = flash' })
]

-- The `success` closure on SUCCESS or EBUSY, else the code itself.
abbrev pub succeed_if : ReturnCode → ℕ → ℕ → FlashCounter → ReturnCode × FlashCounter
succeed_if code high_count low_count c =
    if is_success_or_busy code
    then (
      success_with_value (counter_value high_count low_count),
      record c { task = some increment },
    )
    else (code, c)

-- High is odd and low is erased: Rollover3 is running, or has to be started.
begin_rollover3 : ℕ → ℕ → FlashCounter → ReturnCode × FlashCounter
begin_rollover3 high_count low_count c = elim c.write_buffer [
  | none ↦ succeed_if success high_count low_count c
  | some buffer ↦
      let (code, returned, flash') = start_increment high high_count c.flash buffer in
      succeed_if code high_count low_count (record c { flash = flash'; write_buffer = returned })
]

-- High is odd and low is not erased: Rollover2.
begin_rollover2 : ℕ → ℕ → FlashCounter → ReturnCode × FlashCounter
begin_rollover2 high_count low_count c =
    let (code, flash') = erase c.flash (page_number low) in
    succeed_if code high_count low_count (record c { flash = flash' })

-- The low page is maxed out: Rollover1.
begin_rollover1 : ℕ → ℕ → FlashCounter → Option (ReturnCode × FlashCounter)
begin_rollover1 high_count low_count c = bind c.write_buffer λ buffer.
    let (code, returned, flash') = start_increment high high_count c.flash buffer in
    some
      (succeed_if code high_count low_count (record c { flash = flash'; write_buffer = returned }))

after_incr1 : ReturnCode → ℕ → ℕ → FlashCounter → Option (ReturnCode × FlashCounter)
after_incr1 esize high_count low_count c = begin_rollover1 high_count low_count c
after_incr1 code high_count low_count c = some (succeed_if code high_count low_count c)

-- High is even: Incr1, or Rollover1 if that answers ESIZE.
begin_incr1 : ℕ → ℕ → FlashCounter → Option (ReturnCode × FlashCounter)
begin_incr1 high_count low_count c = bind c.write_buffer λ buffer.
    let (code, returned, flash') = start_increment low low_count c.flash buffer in
    after_incr1 code high_count low_count (record c { flash = flash'; write_buffer = returned })

unfoldable pub begin_step : ℕ → ℕ → FlashCounter → Option (ReturnCode × FlashCounter)
unfolding begin_rollover3 begin_rollover2 begin_incr1 after_incr1 begin_rollover1
begin_step high_count low_count c =
    if is_odd high_count
    then (if low_count == 0
        then some (begin_rollover3 high_count low_count c)
        else some (begin_rollover2 high_count low_count c))
    else begin_incr1 high_count low_count c

unfoldable pub read_and_increment : FlashCounter → Option (ReturnCode × FlashCounter)
read_and_increment c = elim c.task [
  | some t ↦ some (ebusy, c)
  | none ↦ begin_step (read_page_count high c.flash) (read_page_count low c.flash) c
]

-- Any erase failure ends the task.
unfoldable pub erase_failed : Option Task → FlashCounter → FlashCounter
erase_failed none c = c
erase_failed (some initialize) c = finish_task c (initialize_done fail)
erase_failed (some increment) c = finish_task c (increment_done fail)

-- Init1 or Init2 finished.
unfoldable pub continue_initialize : FlashCounter → FlashCounter
continue_initialize c =
    if page_empty high c.flash
    then finish_task c (initialize_done success)
    else let (code, flash') = erase c.flash (page_number high) in
      let c' = record c { flash = flash' } in
      if is_success code then c' else finish_task c' (initialize_done code)

-- `if self.task.take() == Some(Task::Increment)`
rollover3_refused : Option Task → FlashCounter → FlashCounter
rollover3_refused (some increment) c = finish_task c (increment_done fail)
rollover3_refused _ c = record c { task = none }

-- `if let Some(returned_buffer) = buffer`: the write was not started.
rollover3_started : ReturnCode × Option ℕ × Device → FlashCounter → FlashCounter
rollover3_started (code, none, flash') c = record c { flash = flash'; write_buffer = none }
rollover3_started (code, some word, flash') c =
    rollover3_refused c.task (record c { flash = flash'; write_buffer = some word })

-- Rollover2 finished: start Rollover3.
unfoldable pub continue_rollover : FlashCounter → Option FlashCounter
unfolding rollover3_refused rollover3_started
continue_rollover c = bind c.write_buffer λ buffer.
    some (rollover3_started (start_increment high (read_page_count high c.flash) c.flash buffer) c)

erase_succeeded : Option Task → FlashCounter → Option FlashCounter
erase_succeeded (some initialize) c = some (continue_initialize c)
erase_succeeded _ c = continue_rollover c

unfoldable pub erase_done : ReturnCode → FlashCounter → Option FlashCounter
unfolding erase_succeeded
erase_done code c =
    if is_success code then erase_succeeded c.task c else some (erase_failed c.task c)

-- `self.flash.erase(Page::Low as usize * WORDS_PER_PAGE)`, as it is written.
unfoldable pub restart_initialize : FlashCounter → FlashCounter
restart_initialize c =
    let (code, flash') = erase c.flash (page_number low * words_per_page) in
    let c' = record c { flash = flash' } in
    if is_success code then c' else finish_task c' (initialize_done code)

-- Rollover3 finished and a further increment is requested: Incr1.
unfoldable pub continue_incr1 : FlashCounter → Option FlashCounter
continue_incr1 c = bind c.write_buffer λ buffer.
    let (code, returned, flash') =
      start_increment low (read_page_count low c.flash) c.flash buffer in
    let c' = record c { flash = flash'; write_buffer = returned } in
    some (if is_success code then c' else finish_task c' (increment_done code))

-- Incr1 or Rollover1 finished; after Rollover1 comes Rollover2, in the background.
unfoldable pub finish_increment : FlashCounter → FlashCounter
finish_increment c =
    let flash' =
      if low_page_full c.flash && is_odd (read_page_count high c.flash)
      then (erase c.flash (page_number low)).1
      else c.flash in
    finish_task (record c { flash = flash' }) (increment_done success)

write_finished : ReturnCode → Option Task → FlashCounter → Option FlashCounter
write_finished code none c = some c
write_finished code (some initialize) c = some (restart_initialize c)
write_finished code (some increment) c =
    if is_success code
    then (if page_empty low c.flash then continue_incr1 c else some (finish_increment c))
    else some (finish_task c (increment_done code))

unfoldable pub write_done : List ℕ → ReturnCode → FlashCounter → Option FlashCounter
unfolding write_finished
write_done (word ∷ []) code c = write_finished code c.task (record c { write_buffer = some word })
write_done [] code c = none
write_done (word ∷ more ∷ words) code c = none

-- The driver is idle again before it calls back.
deliver : ReturnCode → Option Operation → (ℕ → ℕ) → FlashCounter → Option FlashCounter
deliver code none words c = some c
deliver code (some (erasing page)) words c =
    erase_done code (record c { flash = record { words = words; ongoing = none } })
deliver code (some (writing target buffer)) words c =
    write_done buffer code (record c { flash = record { words = words; ongoing = none } })

completed_words : Option Operation → (ℕ → ℕ) → ℕ → ℕ
completed_words none words = words
completed_words (some op) words = effect op words

-- The ongoing flash operation, if there is one, succeeds.
unfoldable pub complete : FlashCounter → Option FlashCounter
unfolding deliver completed_words
complete c = deliver success c.flash.ongoing (completed_words c.flash.ongoing c.flash.words) c

-- The ongoing flash operation fails with `code` and leaves `words` behind.
unfoldable pub complete_failed : ReturnCode → (ℕ → ℕ) → FlashCounter → Option FlashCounter
unfolding deliver
complete_failed code words c = deliver code c.flash.ongoing words c
