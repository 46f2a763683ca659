-- ===== src/Otpilot/SpiProcessor/Payload/Inactive.antt =====
-- spi_processor.rs: what a payload in the mailbox erases and writes.
use tock_on_titan.Common.{List, ◌==◌}
use tock_on_titan.Spiutils.Io.{ByteOrder}
use tock_on_titan.Spiutils.Payload.{compute_checksum}
use tock_on_titan.Spiutils.Payload.Content.{ContentType}
use tock_on_titan.Otpilot.Drivers.{Drivers}
use tock_on_titan.Otpilot.Keeps.{Keeps-bind, Keeps-if, Keeps-Option, Keeps-panic}
use tock_on_titan.Otpilot.OnlyInactive.{IsFlashSegment, KeepsOnlyInactive}
use tock_on_titan.Otpilot.SpiProcessor.Inactive.{parse-OnlyInactive}
use tock_on_titan.Otpilot.SpiProcessor.Response.Inactive.{
  error-OnlyInactive, manticore-OnlyInactive,
}
use tock_on_titan.Otpilot.SpiProcessor.Firmware.Inactive.{firmware-OnlyInactive}
use tock_on_titan.Otpilot.SpiProcessor.Payload.{process_content, process_spi_payload}

module _ (be : ByteOrder) (d : Drivers) (ro : IsFlashSegment d.inactive_ro)
    (rw_segment : IsFlashSegment d.inactive_rw) where
  content-OnlyInactive :
      (c : ContentType) (bytes : List _) → KeepsOnlyInactive d (process_content be d c bytes)
  unfolding process_content
  content-OnlyInactive ContentType.manticore bytes = manticore-OnlyInactive be d bytes
  content-OnlyInactive ContentType.firmware bytes = firmware-OnlyInactive be d ro rw_segment bytes
  content-OnlyInactive ContentType.error bytes = error-OnlyInactive be d _

  pub payload-OnlyInactive : (bytes : List _) → KeepsOnlyInactive d (process_spi_payload be d bytes)
  unfolding process_spi_payload
  payload-OnlyInactive bytes = Keeps-bind (parse-OnlyInactive d _ bytes) (λ r.
      Keeps-Option (compute_checksum r.0 r.1)
        (λ checksum.
          Keeps-if (r.0.checksum == checksum) (content-OnlyInactive r.0.content _)
            (error-OnlyInactive be d _))
        Keeps-panic)
