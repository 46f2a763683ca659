-- ===== src/Otpilot/SpiProcessor/Payload.antt =====
-- spi_processor.rs: a packet written to the mailbox.
pub mod Inactive
pub mod Ends
pub mod Corrupted
use tock_on_titan.Common.{ℕ, List, Option, none, some, ◌==◌, if◌then◌else◌, take}
use tock_on_titan.Spiutils.Io.{ByteOrder}
use tock_on_titan.Spiutils.Payload.{Header, header_from_wire, compute_checksum}
use tock_on_titan.Spiutils.Payload.Content.{ContentType}
use tock_on_titan.Spiutils.ErrorMessage.Messages.{bad_checksum, content_type_not_supported}
use tock_on_titan.Otpilot.Drivers.{Drivers, ◌>>=◌, panic}
use tock_on_titan.Otpilot.SpiProcessor.{SpiProcessorM, parse}
use tock_on_titan.Otpilot.SpiProcessor.Response.{send_error, process_manticore}
use tock_on_titan.Otpilot.SpiProcessor.Firmware.{process_firmware}

module _ (be : ByteOrder) (d : Drivers) where
  -- `match header.content`, of the `content_len` bytes that the header announces.
  process_content : ContentType → List ℕ → SpiProcessorM (Unit {0})
  process_content ContentType.manticore bytes = process_manticore be d bytes
  process_content ContentType.firmware bytes = process_firmware be d bytes
  process_content ContentType.error bytes = send_error be d content_type_not_supported

  -- A payload that is shorter than its header says panics in `compute_checksum`.
  unfoldable pub process_spi_payload : List ℕ → SpiProcessorM (Unit {0})
  unfolding process_content
  process_spi_payload bytes = do
    r ← parse (header_from_wire be) bytes
    elim (compute_checksum r.0 r.1) [
      | some checksum ↦
          if r.0.checksum == checksum
          then process_content r.0.content (take r.0.content_len r.1)
          else send_error be d bad_checksum
      | none ↦ panic
    ]
