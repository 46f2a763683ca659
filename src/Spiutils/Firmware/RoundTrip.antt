-- ===== src/Spiutils/Firmware/RoundTrip.antt =====
-- Reading back a message of firmware.rs behind its header.
use tock_on_titan.Common.{ℕ, ◌+◌, ◌≡◌, refl, arith, List, [], ◌++◌, length, length-append}
use tock_on_titan.Spiutils.Io.{ok, ByteOrder, ◌>>=◌}
use tock_on_titan.Spiutils.Io.Laws.{Writes-none, Writes, Writes->>}
use tock_on_titan.Spiutils.Firmware.Messages.{
  header_len, inactive_segments_info_response_len, update_prepare_request_len,
  update_prepare_response_len, write_chunk_request_len, write_chunk_response_len,
  reboot_request_len, reboot_response_len,
}
use tock_on_titan.Spiutils.Firmware.Message.{
  Message, content, IsMessage, to_wire, from_wire, message_to_wire, message_from_wire,
  inactive_segments_info_request, inactive_segments_info_response, update_prepare_request,
  update_prepare_response, write_chunk_request, write_chunk_response, reboot_request,
  reboot_response,
}
use tock_on_titan.Spiutils.Firmware.Parts.{
  update_prepare_response-RoundTrip, write_chunk_response-RoundTrip, reboot_response-RoundTrip,
  write_chunk_request-Whole, inactive_segments_info_response-RoundTrip,
  update_prepare_request-RoundTrip, reboot_request-RoundTrip, Whole, RoundTrip-Whole, Whole-map,
  firmware_header-RoundTrip,
}

-- The bytes after the header, by the length constants of firmware.rs.
abbrev pub message_len : Message → ℕ
message_len inactive_segments_info_request = 0
message_len (inactive_segments_info_response m) = inactive_segments_info_response_len
message_len (update_prepare_request m) = update_prepare_request_len
message_len (update_prepare_response m) = update_prepare_response_len
message_len (write_chunk_request m) = write_chunk_request_len + length m.chunk
message_len (write_chunk_response m) = write_chunk_response_len
message_len (reboot_request m) = reboot_request_len
message_len (reboot_response m) = reboot_response_len

module _ (be : ByteOrder) where
  body-Whole :
      (m : Message)
      → IsMessage m
      → Whole (to_wire be m) (from_wire be (content m)) m (message_len m)
  unfolding to_wire from_wire
  body-Whole inactive_segments_info_request v = record {
    bytes = [];
    written = Writes-none;
    read_whole = refl;
    size = refl;
  }
  body-Whole (inactive_segments_info_response m) v =
      Whole-map _ (RoundTrip-Whole (inactive_segments_info_response-RoundTrip be m v.0 v.1))
  body-Whole (update_prepare_request m) v =
      Whole-map _ (RoundTrip-Whole (update_prepare_request-RoundTrip m))
  body-Whole (update_prepare_response m) v =
      Whole-map _ (RoundTrip-Whole (update_prepare_response-RoundTrip be m v))
  body-Whole (write_chunk_request m) v = Whole-map _ (write_chunk_request-Whole be m v)
  body-Whole (write_chunk_response m) v =
      Whole-map _ (RoundTrip-Whole (write_chunk_response-RoundTrip be m v))
  body-Whole (reboot_request m) v = Whole-map _ (RoundTrip-Whole (reboot_request-RoundTrip m))
  body-Whole (reboot_response m) v = Whole-map _ (RoundTrip-Whole (reboot_response-RoundTrip m))

  -- Every firmware message whose numbers are in range is written, behind its header, as the number
  -- of bytes that its length constant gives, wherever they fit; where they do not, the writer fails
  -- and has written some of the first of them. From those bytes the header and the message are read
  -- back, with nothing left.
  pub message_round_trip :
      (m : Message)
      → IsMessage m
      → (bytes : List ℕ) × Writes (message_to_wire be m) bytes
        × (message_from_wire be bytes ≡ ok (m, []))
        × (length bytes ≡ header_len + message_len m)
  unfolding message_to_wire message_from_wire
  message_round_trip m v =
      let h = firmware_header-RoundTrip (record { content = content m }) in
      let b = body-Whole m v in
      (
        h.bytes ++ b.bytes,
        Writes->> h.written b.written,
        rw (h.read_back.reads b.bytes, b.read_whole, ◌>>=◌),
        omega (arith, length-append {0} h.bytes b.bytes, h.size, b.size),
      )
