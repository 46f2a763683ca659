-- ===== src/Flash/VirtualFlash/Tests.antt =====
-- virtual_flash.rs at concrete requests, over the driver.
use tock_on_titan.Common.{List, [], ◌∷◌, some, ◌≡◌, refl, arith}
use tock_on_titan.ReturnCode.{success}
use tock_on_titan.Flash.SmartProgram.Outcome.{failure}
use tock_on_titan.Flash.Driver.{new_driver}
use tock_on_titan.Flash.Driver.Hardware.{World, alarms}
use tock_on_titan.Flash.Driver.Ideal.{ideal, erased_world}
use tock_on_titan.Flash.VirtualFlash.{Flash, MuxFlash, new_mux, user_erase, user_set_client}
use tock_on_titan.Flash.VirtualFlash.Requests.{
  asks_erase, asks_write, Event, requested, erase_ended, requests, steps,
}
use tock_on_titan.Flash.VirtualFlash.Serves.{IsServed, mux_steps-IsServed}
use tock_on_titan.Flash.VirtualFlash.OverDriver.{over_driver, erase_past_end_blocks}

abbrev board : Flash World
board = over_driver 256000 ideal (failure 0 0)

-- Users 1 and 2 of a new multiplexer.
abbrev two_users : MuxFlash World
two_users = user_set_client board 2 (user_set_client board 1 (new_mux erased_world))

-- User 1 erases, user 2 waits; when the erase has ended, user 1 writes from its callback.
abbrev busy_day : List Event
busy_day =
    requested (asks_erase 1 3)
    ∷ requested (asks_write 2 600 (5 ∷ []))
    ∷ requested (asks_erase 2 4)
    ∷ erase_ended success (asks_write 1 1536 (6 ∷ []) ∷ [])
    ∷ []

mux_steps-IsServed_example : IsServed (steps board busy_day two_users)
unfolding new_mux user_set_client new_driver
mux_steps-IsServed_example =
    mux_steps-IsServed board busy_day two_users (record { waits = (refl, (refl, tt)); holds = tt })

erase_past_end_blocks_example :
    ((user_erase board 1 256 two_users).0 ≡ success)
    × ((requests board (asks_erase 2 4 ∷ []) (user_erase board 1 256 two_users).1).in_flight
        ≡ some 1)
    × (alarms 256000 ideal
          (failure 0 0 ∷ [])
          (requests board (asks_erase 2 4 ∷ []) (user_erase board 1 256 two_users).1).driver
        ≡ some erased_world)
unfolding new_mux user_set_client new_driver
erase_past_end_blocks_example =
    erase_past_end_blocks 256000 ideal (failure 0 0) 1 256 (2 ∷ []) [] (asks_erase 2 4 ∷ [])
      (failure 0 0 ∷ []) two_users (omega arith) (omega arith) refl (refl, tt) refl refl refl refl
