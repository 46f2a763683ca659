-- ===== src/Otpilot/Drivers.antt =====
-- The drivers that otpilot calls: traits `Flash`, `GlobalSec`, `Reset`, `SpiDevice`, `SpiHost` and
-- `SpiHostH1` of userspace/otpilot/src, and the request handler of the manticore library. A driver
-- answers as it likes, by what it has been called with so far.
use tock_on_titan.Common.{ℕ, List, ◌∷◌, Bool, Option, if◌then◌else◌}
use tock_on_titan.Spiutils.Segment.{SegmentInfo, unknown_segment}
use tock_on_titan.Spiutils.Flash.{AddressMode}

-- The calls that reach a driver. A write carries the bytes that it is to write.
pub data DriverCall : Type 0 where
  flash_erase : ℕ → DriverCall
  flash_write : ℕ → List ℕ → DriverCall
  flash_read : ℕ → ℕ → DriverCall
  wait_operation_done clear_operation : DriverCall
  reset : DriverCall
  end_transaction_with_data : List ℕ → Bool → Bool → DriverCall
  end_transaction_with_status : Bool → Bool → DriverCall
  set_wait_busy_clear_in_transactions : Bool → DriverCall
  read_write_bytes : List ℕ → ℕ → DriverCall
  wait_read_write_done : DriverCall
  process_request : List ℕ → DriverCall

-- Every answer may depend on the calls so far, newest first. `succeeds` is whether the newest call
-- answers `Ok`; `operation_failed` whether the result of the last flash operation is negative; and
-- `read_buffer` what a flash read leaves in the buffer. The segments are read once, at start-up.
pub record Drivers : Type 0 where
  pub succeeds : List DriverCall → Bool
  pub operation_failed : List DriverCall → Bool
  pub read_buffer : List DriverCall → List ℕ
  pub is_write_enable_set : List DriverCall → Bool
  pub address_mode : List DriverCall → AddressMode
  pub inactive_ro : SegmentInfo
  pub inactive_rw : SegmentInfo
  -- The response buffer after a request, and the length of the response; `none` is an error.
  pub manticore_response : List DriverCall → List ℕ → Option (List ℕ × ℕ)

pub record FirmwareController : Type 0 where
  pub erase_segment : SegmentInfo
  pub erase_page : ℕ
  pub write_segment : SegmentInfo
  pub write_offset : ℕ
  pub write_length : ℕ

-- `FirmwareController::new`
unfoldable pub new_controller : FirmwareController
new_controller = record {
  erase_segment = unknown_segment;
  erase_page = 0;
  write_segment = unknown_segment;
  write_offset = 0;
  write_length = 0;
}

-- The process: its firmware controller, the static buffers `WRITE_BUF` and `SPI_TX_BUF`, and the
-- calls made, newest first.
pub record State : Type 0 where
  pub firmware : FirmwareController
  pub write_buf : List ℕ
  pub tx_buf : List ℕ
  pub calls : List DriverCall

-- What a method does: return, return an error, panic, or run out of the rounds that the model gives
-- a loop.
pub data Outcome {ℓ κ} (E : Type ℓ) (A : Type κ) : Type (ℓ ⊔ κ) where
  done : A → Outcome E A
  failed : E → Outcome E A
  panicked unfinished : Outcome E A

abbrev pub M : Type 0 → Type 0 → Type 0
M E A = State → Outcome E A × State

-- A method goes on where the one before it has returned.
abbrev pub proceed : {E A B : Type 0} → Outcome E A → (A → M E B) → M E B
proceed (done a) f s = f a s
proceed (failed e) f s = (failed e, s)
proceed panicked f s = (panicked, s)
proceed unfinished f s = (unfinished, s)

infixl 5 ◌>>=◌ ◌>>◌
abbrev pub ◌>>=◌ : {E A B : Type 0} → M E A → (A → M E B) → M E B
◌>>=◌ m f s = proceed (m s).0 f (m s).1

abbrev pub ◌>>◌ : {E B : Type 0} → M E (Unit {0}) → M E B → M E B
m >> k = m >>= λ _. k

abbrev pub succeed : {E A : Type 0} → A → M E A
succeed a s = (done a, s)

abbrev pub fail : {E A : Type 0} → E → M E A
fail e s = (failed e, s)

abbrev pub panic : {E A : Type 0} → M E A
panic s = (panicked, s)

-- Reads a part of the state.
abbrev pub get : {E A : Type 0} → (State → A) → M E A
get f s = (done (f s), s)

abbrev pub modify : {E : Type 0} → (State → State) → M E (Unit {0})
modify f s = (done tt, f s)

abbrev pub call : {E : Type 0} → DriverCall → M E (Unit {0})
call c = modify (λ s. record s { calls = c ∷ s.calls })

-- A call whose error becomes `e`.
abbrev pub try : {E : Type 0} → Drivers → E → DriverCall → M E (Unit {0})
try d e c s =
    let s' = record s { calls = c ∷ s.calls } in
    if d.succeeds s'.calls then (done tt, s') else (failed e, s')
