-- ===== src/Spiutils/ErrorMessage/RoundTrip.antt =====
-- protocol/error.rs: reading back an error message behind its header.
use tock_on_titan.Common.{[], ◌++◌, append-nil}
use tock_on_titan.Spiutils.Io.Laws.{
  RoundTrip, Writes, Reads, Writes->>, Writes-none, Reads->>=, Reads-map, Reads-succeed,
}
use tock_on_titan.Spiutils.Wire.{enum-RoundTrip}
use tock_on_titan.Spiutils.Firmware.Parts.{Whole, RoundTrip-Whole}
use tock_on_titan.Spiutils.ErrorMessage.ContentLaws.{ContentType-IsWireEnum}
use tock_on_titan.Spiutils.ErrorMessage.Messages.{
  Header, Message, bad_checksum, content_type_not_supported, content, header_from_wire,
  header_to_wire, to_wire, from_wire, message_to_wire, message_from_wire,
}

error_header-RoundTrip : (h : Header) → RoundTrip (header_to_wire h) header_from_wire h 1
unfolding header_to_wire header_from_wire
error_header-RoundTrip h =
    let s = enum-RoundTrip ContentType-IsWireEnum h.content in
    record {
      bytes = s.bytes;
      written = s.written;
      read_back = Reads-map _ s.read_back;
      size = s.size;
    }

Writes-to_wire : (m : Message) → Writes (to_wire m) []
unfolding to_wire
Writes-to_wire bad_checksum = Writes-none
Writes-to_wire content_type_not_supported = Writes-none

Reads-from_wire : (m : Message) → Reads (from_wire (content m)) [] m
unfolding from_wire content
Reads-from_wire bad_checksum = Reads-succeed bad_checksum
Reads-from_wire content_type_not_supported = Reads-succeed content_type_not_supported

pub error_message-Whole : (m : Message) → Whole (message_to_wire m) message_from_wire m 1
unfolding message_to_wire message_from_wire
error_message-Whole m =
    let h = error_header-RoundTrip (record { content = content m }) in
    RoundTrip-Whole (record {
      bytes = h.bytes ++ [];
      written = Writes->> h.written (Writes-to_wire m);
      read_back = Reads->>= _ h.read_back (Reads-from_wire m);
      size = rw (append-nil h.bytes) h.size;
    })
