-- ===== src/Spiutils/Payload/RoundTrip.antt =====
-- Reading back a payload header of payload.rs.
use tock_on_titan.Common.{◌++◌, ◌∷◌, [], length-append}
use tock_on_titan.Spiutils.Io.{ByteOrder}
use tock_on_titan.Spiutils.Io.Laws.{
  Writes->>, Writes-int, Writes-u8, Reads->>=, Reads-map, Reads-int, Reads-u8, RoundTrip,
}
use tock_on_titan.Spiutils.Wire.{enum-RoundTrip}
use tock_on_titan.Spiutils.Payload.ContentLaws.{ContentType-IsWireEnum}
use tock_on_titan.Spiutils.Payload.{Header, IsHeader, header_len, header_from_wire, header_to_wire}

-- A payload header whose numbers are in range takes four bytes, and reads back from them whatever
-- follows.
pub payload_header-RoundTrip :
    (be : ByteOrder) (h : Header)
    → IsHeader h
    → RoundTrip (header_to_wire be h) (header_from_wire be) h header_len
unfolding header_to_wire header_from_wire
payload_header-RoundTrip be h v =
    let c = enum-RoundTrip ContentType-IsWireEnum h.content in
    record {
      bytes = c.bytes ++ (be.write_uint 2 h.content_len ++ h.checksum ∷ []);
      written = Writes->> c.written (Writes->> (Writes-int be 2 _) (Writes-u8 _));
      read_back =
          Reads->>= _ c.read_back
            (Reads->>= _ (Reads-int be 2 _ v.content_len_u16) (Reads-map _ (Reads-u8 _)));
      size = simp (length-append, c.size, be.length-write);
    }
