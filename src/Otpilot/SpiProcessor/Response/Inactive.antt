-- ===== src/Otpilot/SpiProcessor/Response/Inactive.antt =====
-- spi_processor.rs: sending a response leaves the flash memory of the chip as it is.
use tock_on_titan.Common.{ℕ, List, Option, none, some}
use tock_on_titan.Spiutils.Io.{ByteOrder, new_cursor}
use tock_on_titan.Spiutils.Payload.{Header, header_to_wire}
use tock_on_titan.Spiutils.Payload.Content.{ContentType}
use tock_on_titan.Spiutils.Firmware.Message.{Message}
use tock_on_titan.Spiutils.ErrorMessage.Messages as Error
use tock_on_titan.Otpilot.Drivers.{process_request, Drivers, ◌>>=◌}
use tock_on_titan.Otpilot.Keeps.{
  Keeps-bind, Keeps-get, Keeps-fail, Keeps-panic, Keeps-Option, Keeps-Result, Keeps-modify,
}
use tock_on_titan.Otpilot.OnlyInactive.{KeepsOnlyInactive, call-OnlyInactive, try-OnlyInactive}
use tock_on_titan.Otpilot.SpiProcessor.{tock, to_u16}
use tock_on_titan.Otpilot.SpiProcessor.Inactive.{to_u16-OnlyInactive, write-OnlyInactive}
use tock_on_titan.Otpilot.SpiProcessor.Response.{
  send_packet, send_data, send_error, send_manticore_response, process_manticore,
  send_firmware_response,
}

module _ (be : ByteOrder) (d : Drivers) where
  packet-OnlyInactive : (h : Header) → KeepsOnlyInactive d (send_packet be d h)
  unfolding send_packet
  packet-OnlyInactive header =
      Keeps-get (λ s. s.tx_buf) _
        (λ tx_buf.
          Keeps-Result (header_to_wire be header (new_cursor tx_buf))
            (λ c. Keeps-modify _ _ (λ s h. h) (try-OnlyInactive d tock _ tt))
            (λ failed. Keeps-modify _ _ (λ s h. h) (Keeps-fail _)))

  data-OnlyInactive : (c : ContentType) (n : ℕ) → KeepsOnlyInactive d (send_data be d c n)
  unfolding send_data
  data-OnlyInactive c n =
      Keeps-get (λ s. s.tx_buf) _
        (λ tx_buf. Keeps-Option _ (λ checksum. packet-OnlyInactive _) Keeps-panic)

  pub error-OnlyInactive : (m : Error.Message) → KeepsOnlyInactive d (send_error be d m)
  unfolding send_error
  error-OnlyInactive m =
      Keeps-bind (write-OnlyInactive d _)
        (λ n. Keeps-bind (to_u16-OnlyInactive d n) (data-OnlyInactive ContentType.error))

  pub response-OnlyInactive : (m : Message) → KeepsOnlyInactive d (send_firmware_response be d m)
  unfolding send_firmware_response
  response-OnlyInactive m =
      Keeps-bind (write-OnlyInactive d _)
        (λ n. Keeps-bind (to_u16-OnlyInactive d n) (data-OnlyInactive ContentType.firmware))

  manticore_response-OnlyInactive :
      (r : Option (List ℕ × ℕ)) → KeepsOnlyInactive d (send_manticore_response be d r)
  unfolding send_manticore_response
  manticore_response-OnlyInactive none = Keeps-fail _
  manticore_response-OnlyInactive (some (response, n)) =
      let sent : KeepsOnlyInactive d (to_u16 n >>= send_data be d ContentType.manticore) =
        Keeps-bind (to_u16-OnlyInactive d n) (data-OnlyInactive ContentType.manticore) in
      record { keeps = λ s h. sent.keeps _ h }

  pub manticore-OnlyInactive : (bytes : List ℕ) → KeepsOnlyInactive d (process_manticore be d bytes)
  unfolding process_manticore
  manticore-OnlyInactive bytes =
      Keeps-bind (call-OnlyInactive d (process_request bytes) tt)
        (λ _. Keeps-get (λ s. d.manticore_response s.calls bytes) _ manticore_response-OnlyInactive)
