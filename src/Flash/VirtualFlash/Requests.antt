-- ===== src/Flash/VirtualFlash/Requests.antt =====
-- virtual_flash.rs: what users and the driver do, one after the other.
use tock_on_titan.Common.{ℕ, List, [], ◌∷◌}
use tock_on_titan.ReturnCode.{ReturnCode}
use tock_on_titan.Flash.VirtualFlash.{
  Flash, MuxFlash, user_erase, user_write, mux_erase_done, mux_write_done,
}

-- A call by a user.
pub data Request : Type 0 where
  asks_erase : ℕ → ℕ → Request
  asks_write : ℕ → ℕ → List ℕ → Request

-- A request, or a callback of the driver, in which the client of the user makes requests.
pub data Event : Type 0 where
  requested : Request → Event
  erase_ended : ReturnCode → List Request → Event
  write_ended : List ℕ → ReturnCode → List Request → Event

module _ {D : Type 0} (flash : Flash D) where
  unfoldable pub request : Request → MuxFlash D → MuxFlash D
  request (asks_erase u page) s = (user_erase flash u page s).1
  request (asks_write u target buffer) s = (user_write flash u target buffer s).2

  unfoldable pub requests : List Request → MuxFlash D → MuxFlash D
  requests [] s = s
  requests (q ∷ qs) s = requests qs (request q s)

  unfoldable pub step_event : Event → MuxFlash D → MuxFlash D
  step_event (requested q) s = request q s
  step_event (erase_ended code qs) s = mux_erase_done flash code (requests qs) s
  step_event (write_ended buffer code qs) s = mux_write_done flash buffer code (requests qs) s

  unfoldable pub steps : List Event → MuxFlash D → MuxFlash D
  steps [] s = s
  steps (e ∷ es) s = steps es (step_event e s)
