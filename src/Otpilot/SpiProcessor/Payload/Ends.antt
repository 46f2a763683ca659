-- ===== src/Otpilot/SpiProcessor/Payload/Ends.antt =====
-- spi_processor.rs: a payload in the mailbox is handled to the end.
use tock_on_titan.Common.{List, ◌==◌}
use tock_on_titan.Spiutils.Io.{ByteOrder}
use tock_on_titan.Spiutils.Payload.{compute_checksum}
use tock_on_titan.Spiutils.Payload.Content.{ContentType}
use tock_on_titan.Otpilot.Drivers.{Drivers}
use tock_on_titan.Otpilot.Ends.{AlwaysEnds, Ends-bind, Ends-panic, Ends-if, Ends-Option}
use tock_on_titan.Otpilot.SpiProcessor.Ends.{parse-Ends}
use tock_on_titan.Otpilot.SpiProcessor.Response.Ends.{error-Ends, manticore-Ends}
use tock_on_titan.Otpilot.SpiProcessor.Firmware.Ends.{firmware-Ends}
use tock_on_titan.Otpilot.SpiProcessor.Payload.{process_content, process_spi_payload}

module _ (be : ByteOrder) (d : Drivers) where
  content-Ends : (c : ContentType) (bytes : List _) → AlwaysEnds (process_content be d c bytes)
  unfolding process_content
  content-Ends ContentType.manticore bytes = manticore-Ends be d bytes
  content-Ends ContentType.firmware bytes = firmware-Ends be d bytes
  content-Ends ContentType.error bytes = error-Ends be d _

  pub payload-Ends : (bytes : List _) → AlwaysEnds (process_spi_payload be d bytes)
  unfolding process_spi_payload
  payload-Ends bytes = Ends-bind (parse-Ends _ bytes) (λ r.
      Ends-Option (compute_checksum r.0 r.1)
        (λ checksum.
          Ends-if (r.0.checksum == checksum) (content-Ends r.0.content _) (error-Ends be d _))
        Ends-panic)
