-- ===== src/Spiutils/Firmware/Parts.antt =====
-- Reading back the messages of firmware.rs, one by one.
use tock_on_titan.Common.{
  ℕ, ◌+◌, ◌^◌, ◌<◌, ◌≡◌, refl, arith, List, [], ◌++◌, length, length-append, append-nil,
}
use tock_on_titan.Spiutils.Io.{
  ok, ByteOrder, Reader, Writer, ◌>>=◌, succeed, read_bytes, remaining_data,
}
use tock_on_titan.Spiutils.Io.Laws.{
  Writes, Writes->>, Writes-int, Writes-bytes, Reads->>=, Reads-map, Reads-int, Reads-bytes,
  RoundTrip,
}
use tock_on_titan.Spiutils.Wire.{enum-RoundTrip}
use tock_on_titan.Spiutils.Segment.{IsSegmentInfo}
use tock_on_titan.Spiutils.Segment.RoundTrip.{segment_info-RoundTrip}
use tock_on_titan.Spiutils.Firmware.EnumLaws.{
  ContentType-IsWireEnum, SegmentAndLocation-IsWireEnum, UpdatePrepareResult-IsWireEnum,
  WriteChunkResult-IsWireEnum, RebootTime-IsWireEnum, RebootResult-IsWireEnum,
}
use tock_on_titan.Spiutils.Firmware.Messages.{
  Header, InactiveSegmentsInfoResponse, UpdatePrepareRequest, UpdatePrepareResponse,
  WriteChunkRequest, WriteChunkResponse, RebootRequest, RebootResponse, header_len,
  inactive_segments_info_response_len, update_prepare_request_len, update_prepare_response_len,
  write_chunk_request_len, write_chunk_response_len, reboot_request_len, reboot_response_len,
  header_from_wire, header_to_wire, update_prepare_request_from_wire,
  update_prepare_request_to_wire, reboot_request_from_wire, reboot_request_to_wire,
  reboot_response_from_wire, reboot_response_to_wire, inactive_segments_info_response_from_wire,
  inactive_segments_info_response_to_wire, update_prepare_response_from_wire,
  update_prepare_response_to_wire, write_chunk_request_from_wire, write_chunk_request_to_wire,
  write_chunk_response_from_wire, write_chunk_response_to_wire,
}

-- What is written reads back to the end of the input.
pub record Whole {ℓ} {A : Type ℓ} (w : Writer) (p : Reader A) (a : A) (n : ℕ) : Type ℓ where
  pub bytes : List ℕ
  pub written : Writes w bytes
  pub read_whole : p bytes ≡ ok (a, [])
  pub size : length bytes ≡ n

pub RoundTrip-Whole {ℓ} :
    {A : Type ℓ} {w : Writer} {p : Reader A} {a : A} {n : ℕ} → RoundTrip w p a n → Whole w p a n
RoundTrip-Whole r = record {
  bytes = r.bytes;
  written = r.written;
  read_whole = rw append-nil at (r.read_back.reads []);
  size = r.size;
}

module _ (be : ByteOrder) where
  pub update_prepare_response-RoundTrip :
      (m : UpdatePrepareResponse)
      → m.max_chunk_length < 256 ^ 2
      → RoundTrip
          (update_prepare_response_to_wire be m)
          (update_prepare_response_from_wire be)
          m
          update_prepare_response_len
  unfolding update_prepare_response_to_wire update_prepare_response_from_wire
  update_prepare_response-RoundTrip m h =
      let s = enum-RoundTrip SegmentAndLocation-IsWireEnum m.segment in
      let r = enum-RoundTrip UpdatePrepareResult-IsWireEnum m.result in
      record {
        bytes = s.bytes ++ (be.write_uint 2 m.max_chunk_length ++ r.bytes);
        written = Writes->> s.written (Writes->> (Writes-int be 2 _) r.written);
        read_back =
            Reads->>= _ s.read_back (Reads->>= _ (Reads-int be 2 _ h) (Reads-map _ r.read_back));
        size = simp (length-append, s.size, r.size, be.length-write);
      }

  pub write_chunk_response-RoundTrip :
      (m : WriteChunkResponse)
      → m.offset < 256 ^ 4
      → RoundTrip
          (write_chunk_response_to_wire be m)
          (write_chunk_response_from_wire be)
          m
          write_chunk_response_len
  unfolding write_chunk_response_to_wire write_chunk_response_from_wire
  write_chunk_response-RoundTrip m h =
      let s = enum-RoundTrip SegmentAndLocation-IsWireEnum m.segment in
      let r = enum-RoundTrip WriteChunkResult-IsWireEnum m.result in
      record {
        bytes = s.bytes ++ (be.write_uint 4 m.offset ++ r.bytes);
        written = Writes->> s.written (Writes->> (Writes-int be 4 _) r.written);
        read_back =
            Reads->>= _ s.read_back (Reads->>= _ (Reads-int be 4 _ h) (Reads-map _ r.read_back));
        size = simp (length-append, s.size, r.size, be.length-write);
      }

pub reboot_response-RoundTrip :
    (m : RebootResponse)
    → RoundTrip (reboot_response_to_wire m) reboot_response_from_wire m reboot_response_len
unfolding reboot_response_to_wire reboot_response_from_wire
reboot_response-RoundTrip m =
    let t = enum-RoundTrip RebootTime-IsWireEnum m.time in
    let r = enum-RoundTrip RebootResult-IsWireEnum m.result in
    record {
      bytes = t.bytes ++ r.bytes;
      written = Writes->> t.written r.written;
      read_back = Reads->>= _ t.read_back (Reads-map _ r.read_back);
      size = simp (length-append, t.size, r.size);
    }

read_rest : (bytes : List ℕ) → read_bytes (remaining_data bytes) bytes ≡ ok (bytes, [])
unfolding remaining_data
read_rest bytes = rw append-nil at ((Reads-bytes (length bytes) bytes refl).reads [])

-- The chunk is what remains of the input, so it is read back only at the end.
pub write_chunk_request-Whole :
    (be : ByteOrder) (m : WriteChunkRequest)
    → m.offset < 256 ^ 4
    → Whole
        (write_chunk_request_to_wire be m)
        (write_chunk_request_from_wire be)
        m
        (write_chunk_request_len + length m.chunk)
unfolding write_chunk_request_to_wire write_chunk_request_from_wire
write_chunk_request-Whole be m h =
    let s = enum-RoundTrip SegmentAndLocation-IsWireEnum m.segment in
    record {
      bytes = s.bytes ++ (be.write_uint 4 m.offset ++ m.chunk);
      written = Writes->> s.written (Writes->> (Writes-int be 4 _) (Writes-bytes m.chunk));
      read_whole = rw (
        s.read_back.reads (be.write_uint 4 m.offset ++ m.chunk),
        (Reads-int be 4 m.offset h).reads m.chunk,
        read_rest m.chunk,
        ◌>>=◌,
      );
      size = omega (
        arith,
        length-append {0} s.bytes (be.write_uint 4 m.offset ++ m.chunk),
        length-append {0} (be.write_uint 4 m.offset) m.chunk,
        s.size,
        be.length-write 4 m.offset,
      );
    }

pub Whole-map {ℓ κ} :
    {A : Type ℓ} {B : Type κ} {w : Writer} {p : Reader A} {a : A} {n : ℕ} (f : A → B)
    → Whole w p a n
    → Whole w (p >>= λ x. succeed (f x)) (f a) n
Whole-map f r = record {
  bytes = r.bytes;
  written = r.written;
  read_whole = rw (r.read_whole, ◌>>=◌);
  size = r.size;
}

pub inactive_segments_info_response-RoundTrip :
    (be : ByteOrder) (m : InactiveSegmentsInfoResponse)
    → IsSegmentInfo m.ro
    → IsSegmentInfo m.rw
    → RoundTrip
        (inactive_segments_info_response_to_wire be m)
        (inactive_segments_info_response_from_wire be)
        m
        inactive_segments_info_response_len
unfolding inactive_segments_info_response_to_wire inactive_segments_info_response_from_wire
inactive_segments_info_response-RoundTrip be m a b =
    let ra = segment_info-RoundTrip be m.ro a in
    let rb = segment_info-RoundTrip be m.rw b in
    record {
      bytes = ra.bytes ++ rb.bytes;
      written = Writes->> ra.written rb.written;
      read_back = Reads->>= _ ra.read_back (Reads-map _ rb.read_back);
      size = simp (length-append, ra.size, rb.size);
    }

pub update_prepare_request-RoundTrip :
    (m : UpdatePrepareRequest)
    → RoundTrip
        (update_prepare_request_to_wire m)
        update_prepare_request_from_wire
        m
        update_prepare_request_len
unfolding update_prepare_request_to_wire update_prepare_request_from_wire
update_prepare_request-RoundTrip m =
    let s = enum-RoundTrip SegmentAndLocation-IsWireEnum m.segment in
    record {
      bytes = s.bytes;
      written = s.written;
      read_back = Reads-map _ s.read_back;
      size = s.size;
    }

pub reboot_request-RoundTrip :
    (m : RebootRequest)
    → RoundTrip (reboot_request_to_wire m) reboot_request_from_wire m reboot_request_len
unfolding reboot_request_to_wire reboot_request_from_wire
reboot_request-RoundTrip m =
    let s = enum-RoundTrip RebootTime-IsWireEnum m.time in
    record {
      bytes = s.bytes;
      written = s.written;
      read_back = Reads-map _ s.read_back;
      size = s.size;
    }

pub firmware_header-RoundTrip :
    (h : Header) → RoundTrip (header_to_wire h) header_from_wire h header_len
unfolding header_to_wire header_from_wire
firmware_header-RoundTrip h =
    let s = enum-RoundTrip ContentType-IsWireEnum h.content in
    record {
      bytes = s.bytes;
      written = s.written;
      read_back = Reads-map _ s.read_back;
      size = s.size;
    }
