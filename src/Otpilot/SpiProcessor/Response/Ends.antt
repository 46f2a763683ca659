-- ===== src/Otpilot/SpiProcessor/Response/Ends.antt =====
-- spi_processor.rs: sending a response comes to an end.
use tock_on_titan.Common.{ℕ, List, Option, none, some}
use tock_on_titan.Spiutils.Io.{ByteOrder, new_cursor}
use tock_on_titan.Spiutils.Payload.{Header, header_to_wire}
use tock_on_titan.Spiutils.Payload.Content.{ContentType}
use tock_on_titan.Spiutils.Firmware.Message.{Message}
use tock_on_titan.Spiutils.ErrorMessage.Messages as Error
use tock_on_titan.Otpilot.Drivers.{process_request, Drivers, ◌>>=◌}
use tock_on_titan.Otpilot.Ends.{
  Any, AlwaysEnds, Ends-bind, Ends-get, Ends-fail, Ends-panic, Ends-Option, Ends-Result,
  Ends-modify, Ends-call, Ends-try,
}
use tock_on_titan.Otpilot.SpiProcessor.{tock, to_u16}
use tock_on_titan.Otpilot.SpiProcessor.Ends.{to_u16-Ends, write-Ends}
use tock_on_titan.Otpilot.SpiProcessor.Response.{
  send_packet, send_data, send_error, send_manticore_response, process_manticore,
  send_firmware_response,
}

module _ (be : ByteOrder) (d : Drivers) where
  packet-Ends : (h : Header) → AlwaysEnds (send_packet be d h)
  unfolding send_packet
  packet-Ends header =
      Ends-get (λ s. s.tx_buf) _
        (λ tx_buf.
          Ends-Result (header_to_wire be header (new_cursor tx_buf))
            (λ c e. Ends-modify _ _ (Ends-try Any d tock _ (λ s p. p)))
            (λ failed. Ends-modify _ _ (Ends-fail _)))

  data-Ends : (c : ContentType) (n : ℕ) → AlwaysEnds (send_data be d c n)
  unfolding send_data
  data-Ends c n =
      Ends-get (λ s. s.tx_buf) _ (λ tx_buf. Ends-Option _ (λ checksum. packet-Ends _) Ends-panic)

  pub error-Ends : (m : Error.Message) → AlwaysEnds (send_error be d m)
  unfolding send_error
  error-Ends m =
      Ends-bind (write-Ends _) (λ n. Ends-bind (to_u16-Ends n) (data-Ends ContentType.error))

  pub response-Ends : (m : Message) → AlwaysEnds (send_firmware_response be d m)
  unfolding send_firmware_response
  response-Ends m =
      Ends-bind (write-Ends _) (λ n. Ends-bind (to_u16-Ends n) (data-Ends ContentType.firmware))

  manticore_response-Ends : (r : Option (List ℕ × ℕ)) → AlwaysEnds (send_manticore_response be d r)
  unfolding send_manticore_response
  manticore_response-Ends none = Ends-fail _
  manticore_response-Ends (some (response, n)) =
      let sent : AlwaysEnds (to_u16 n >>= send_data be d ContentType.manticore) =
        Ends-bind (to_u16-Ends n) (data-Ends ContentType.manticore) in
      record { ends = λ s h. sent.ends _ h }

  pub manticore-Ends : (bytes : List ℕ) → AlwaysEnds (process_manticore be d bytes)
  unfolding process_manticore
  manticore-Ends bytes =
      Ends-bind (Ends-call Any (process_request bytes) (λ s p. p))
        (λ _. Ends-get (λ s. d.manticore_response s.calls bytes) _ manticore_response-Ends)
