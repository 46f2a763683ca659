-- ===== src/Flash/Driver/Answers.antt =====
-- driver.rs: what the driver answers to an erase and a write.
use tock_on_titan.Common.{
  ℕ, ◌^◌, ◌≤◌, ◌<◌, arith, Bool, true, false, List, [], Option, none, some, ◌≡◌,
}
use tock_on_titan.ReturnCode.{einval}
use tock_on_titan.NvCounter.Device
use tock_on_titan.NvCounter.Device.{
  Device, Operation, words_per_page, words_per_bank, max_write_size, is_in_bank,
}
use tock_on_titan.Flash.SmartProgram.{Reading}
use tock_on_titan.Flash.Driver.{
  FlashImpl, get_bank_from_target, program_in_progress, begin_erase, erase, begin_write, write,
}

abbrev pub is_ongoing : Option Operation → Bool
is_ongoing none = false
is_ongoing (some op) = true

-- The driver and the flash of the counter, both busy or both idle, answer alike: to an erase of a
-- page, and to a write, with the buffer that comes back at once or is kept.
pub answers_agree :
    (frequency : ℕ) (r : Reading) (d : FlashImpl) (device : Device) (page target : ℕ)
    (buffer : List ℕ)
    → program_in_progress d ≡ is_ongoing device.ongoing
    → ((erase frequency page r d).0 ≡ (Device.erase device page).0)
      × ((write frequency target buffer r d).0 ≡ (Device.write device target buffer).0)
      × ((write frequency target buffer r d).1 ≡ (Device.write device target buffer).1)
unfolding erase begin_erase write begin_write Device.erase Device.write get_bank_from_target
answers_agree frequency r d device page target buffer e = (ground arith, ground arith, ground arith)

pub erase-past_end :
    (frequency page : ℕ) (r : Reading) (d : FlashImpl)
    → 256 ≤ page
    → page < 2 ^ 23
    → d.smart_program_state ≡ none
    → erase frequency page r d ≡ (einval, d, [])
unfolding erase program_in_progress begin_erase get_bank_from_target
erase-past_end frequency page r d a b e = ground arith
