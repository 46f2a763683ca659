-- ===== src/Otpilot/SpiProcessor/Response.antt =====
-- spi_processor.rs: sending a payload, an error and a firmware response, and passing a request on to
-- the manticore library.
pub mod Inactive
pub mod Ends
pub mod Readable
use tock_on_titan.Common.{
  ℕ, ◌+◌, List, ◌++◌, Option, none, some, length, take, drop, ltb, if◌then◌else◌, true, false,
}
use tock_on_titan.Spiutils.Io.{ok, err, ByteOrder, new_cursor}
use tock_on_titan.Spiutils.Payload.{Header, header_len, compute_checksum, header_to_wire}
use tock_on_titan.Spiutils.Payload.Content.{ContentType}
use tock_on_titan.Spiutils.ErrorMessage.Messages as Error
use tock_on_titan.Spiutils.Firmware.Message as FirmwareMessage
use tock_on_titan.Otpilot.Drivers.{
  DriverCall, end_transaction_with_data, process_request, Drivers, State, done, failed, panicked,
  ◌>>=◌, ◌>>◌, succeed, fail, panic, get, modify, call, try,
}
use tock_on_titan.Otpilot.SpiProcessor.{
  SpiProcessorError, to_wire_error, tock, manticore, SpiProcessorM, to_u16, write_tx_buf,
}

module _ (be : ByteOrder) (d : Drivers) where
  -- The header in front of the payload, and the packet sent.
  send_packet : Header → SpiProcessorM (Unit {0})
  send_packet header = do
    tx_buf ← get (λ s. s.tx_buf)
    elim (header_to_wire be header (new_cursor tx_buf)) [
      | ok c ↦
          modify (λ s. record s { tx_buf = c.written ++ c.room })
          >> try d tock (
              end_transaction_with_data
                (take (header_len + header.content_len) (c.written ++ c.room)) true true)
      | err (e, c) ↦
          modify (λ s. record s { tx_buf = c.written ++ c.room }) >> fail (to_wire_error e)
    ]

  unfoldable pub send_data : ContentType → ℕ → SpiProcessorM (Unit {0})
  unfolding send_packet
  send_data content content_len = do
    tx_buf ← get (λ s. s.tx_buf)
    let header : Header = record { content = content; content_len = content_len; checksum = 0 } in
        elim (compute_checksum header (drop header_len tx_buf)) [
          | some checksum ↦ send_packet (record header { checksum = checksum })
          | none ↦ panic
        ]

  unfoldable pub send_error : Error.Message → SpiProcessorM (Unit {0})
  unfolding send_data
  send_error msg = do
    n ← write_tx_buf (Error.message_to_wire msg)
    payload_len ← to_u16 n
    send_data ContentType.error payload_len

  -- The response goes into `SPI_TX_BUF`, which keeps its length.
  send_manticore_response : Option (List ℕ × ℕ) → SpiProcessorM (Unit {0})
  unfolding send_data
  send_manticore_response none = fail manticore
  send_manticore_response (some (response, n)) = do
    modify (λ s.
        let room = drop header_len s.tx_buf in
        record s {
          tx_buf =
              take header_len s.tx_buf
              ++ take (length room) (response ++ drop (length response) room);
        })
    payload_len ← to_u16 n
    send_data ContentType.manticore payload_len

  unfoldable pub process_manticore : List ℕ → SpiProcessorM (Unit {0})
  unfolding send_manticore_response
  process_manticore bytes = do
    call (process_request bytes)
    response ← get (λ s. d.manticore_response s.calls bytes)
    send_manticore_response response

  unfoldable pub send_firmware_response : FirmwareMessage.Message → SpiProcessorM (Unit {0})
  unfolding send_data
  send_firmware_response response = do
    n ← write_tx_buf (FirmwareMessage.message_to_wire be response)
    payload_len ← to_u16 n
    send_data ContentType.firmware payload_len
