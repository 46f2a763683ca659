-- ===== src/Flash/VirtualFlash/OverDriver.antt =====
-- virtual_flash.rs over driver.rs, as the boards put them together.
use tock_on_titan.Common.{ℕ, ◌^◌, ◌≤◌, ◌<◌, ◌++◌, List, ◌∷◌, none, some, All, ◌≡◌, ap, ◌∙◌}
use tock_on_titan.ReturnCode.{success, einval}
use tock_on_titan.NvCounter.Device
use tock_on_titan.NvCounter.Device.{words_per_page}
use tock_on_titan.Flash.SmartProgram.{Reading}
use tock_on_titan.Flash.Driver.Answers.{erase-past_end}
use tock_on_titan.Flash.Driver.Hardware.{
  FlashModule, World, perform_all, erase_in, write_in, alarms,
}
use tock_on_titan.Flash.Driver.Hardware.Progress.{alarms-idle}
use tock_on_titan.Flash.VirtualFlash.{Flash, MuxFlash, user_erase}
use tock_on_titan.Flash.VirtualFlash.Requests.{Request, requests}
use tock_on_titan.Flash.VirtualFlash.Serves.{IsIdle}
use tock_on_titan.Flash.VirtualFlash.Blocks.{erase_blocks}

module _ (frequency : ℕ) (hw : FlashModule) (r : Reading) where
  -- `FlashImpl` as the driver of the multiplexer; `r` is what the hardware and the clock answer
  -- when an operation is started.
  abbrev pub over_driver : Flash World
  over_driver = record {
    erase = λ page w. erase_in frequency hw page r w;
    read = λ word w. Device.read (record { words = w.words; ongoing = none }) word;
    write = λ target buffer w. write_in frequency hw target buffer r w;
  }

  erase_in-past_end :
      (page : ℕ) (w : World)
      → 256 ≤ page
      → page < 2 ^ 23
      → w.driver.smart_program_state ≡ none
      → erase_in frequency hw page r w ≡ (einval, w)
  unfolding erase_in
  erase_in-past_end page w a b e =
      ap (λ x. (x.0, perform_all x.2 (record w { driver = x.1 })))
        (erase-past_end frequency page r w.driver a b e)

  -- An idle user, with idle users linked before it, requests an erase of a page past the end of the
  -- flash, with a number below 2 ^ 23, while nothing is in flight and the driver and the hardware
  -- are idle. The request is answered with SUCCESS; the driver refuses it, and from then on the
  -- operation stays in flight: whatever the users request and however often the alarm fires then, no
  -- request reaches the driver, no callback is made, and the flash stays as it is.
  pub erase_past_end_blocks :
      (u page : ℕ) (before after : List ℕ) (qs : List Request) (rs : List Reading)
      (s : MuxFlash World)
      → 256 ≤ page
      → page < 2 ^ 23
      → s.users ≡ before ++ (u ∷ after)
      → All (IsIdle s.user) before
      → IsIdle s.user u
      → s.in_flight ≡ none
      → s.driver.driver.smart_program_state ≡ none
      → s.driver.triggered ≡ none
      → ((user_erase over_driver u page s).0 ≡ success)
        × ((requests over_driver qs (user_erase over_driver u page s).1).in_flight ≡ some u)
        × (alarms frequency hw rs
              (requests over_driver qs (user_erase over_driver u page s).1).driver
            ≡ some s.driver)
  erase_past_end_blocks u page before after qs rs s a b linked free idle_user e idle off =
      let (answer, (flight, driver)) =
        erase_blocks over_driver u page before after qs s linked free idle_user e in
      (
        answer,
        flight,
        ap (alarms frequency hw rs)
              (driver ∙ ap (λ x. x.1) (erase_in-past_end page s.driver a b idle))
            ∙ alarms-idle frequency hw rs s.driver idle off,
      )
