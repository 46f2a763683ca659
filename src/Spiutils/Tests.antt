-- ===== src/Spiutils/Tests.antt =====
-- The theorems of the byte formats at concrete messages.
use tock_on_titan.Common.{ℕ, ◌+◌, ◌*◌, ◌<◌, ◌≡◌, ◌≢◌, ◌↔◌, arith, List, [], ◌∷◌, some, length}
use tock_on_titan.Spiutils.Io.{ok}
use tock_on_titan.Spiutils.NetworkOrder.{network_order}
use tock_on_titan.Spiutils.Io.Laws.{Writes, RoundTrip}
use tock_on_titan.Spiutils.Segment.{
  SegmentInfo, IsSegmentInfo, RuntimeSegmentInfo, runtime_segment_info_len,
  runtime_segment_info_from_wire, runtime_segment_info_to_wire, BuildInfo, build_info_len,
  build_info_from_wire, build_info_to_wire,
}
use tock_on_titan.Spiutils.Segment.RoundTrip.{infos-RoundTrip}
use tock_on_titan.Spiutils.Payload
use tock_on_titan.Spiutils.Payload.{compute_checksum}
use tock_on_titan.Spiutils.Payload.Content
use tock_on_titan.Spiutils.Payload.Checksum.{compute_checksum_detects}
use tock_on_titan.Spiutils.Firmware.Enums.{SegmentAndLocation}
use tock_on_titan.Spiutils.Firmware.Messages.{header_len}
use tock_on_titan.Spiutils.Firmware.Message.{
  Message, message_to_wire, message_from_wire, write_chunk_request,
}
use tock_on_titan.Spiutils.Firmware.RoundTrip.{message_len, message_round_trip}
use tock_on_titan.Spiutils.Flash
use tock_on_titan.Spiutils.Wire.{from_wire_value}
use tock_on_titan.Spiutils.Flash.OpCodes.{OpCode, op_code}
use tock_on_titan.Spiutils.Flash.OpCodeLaws.{op_code_parses_iff}
use tock_on_titan.Spiutils.Flash.RoundTrip.{flash_header-RoundTrip}

abbrev chunk_request : Message
chunk_request =
    write_chunk_request
      (record { segment = SegmentAndLocation.rw_b; offset = 0x1234; chunk = 0xab ∷ 0xcd ∷ [] })

message_round_trip_example :
    (bytes : List ℕ) × Writes (message_to_wire network_order chunk_request) bytes
    × (message_from_wire network_order bytes ≡ ok (chunk_request, []))
    × (length bytes ≡ header_len + message_len chunk_request)
message_round_trip_example = message_round_trip network_order chunk_request (omega arith)

abbrev payload_header : Payload.Header
payload_header = record { content = Content.firmware; content_len = 3; checksum = 0x2a }

compute_checksum_detects_example :
    compute_checksum payload_header (1 ∷ 2 ∷ 3 ∷ [])
    ≢ compute_checksum payload_header (1 ∷ 6 ∷ 3 ∷ [])
compute_checksum_detects_example =
    compute_checksum_detects payload_header (1 ∷ []) (3 ∷ []) 2 6 (omega arith) (omega arith)
      (omega arith, tt) (omega arith, tt) (omega arith) (omega arith) (λ e. omega (arith, e))

abbrev read_header : Flash.Header
read_header = record { opcode = OpCode.fast_read; address = some 0x010203 }

flash_header-RoundTrip_example :
    RoundTrip
      (Flash.header_to_wire network_order 3 read_header)
      (Flash.header_from_wire network_order 3)
      read_header
      5
unfolding Flash.has_address Flash.has_dummy_byte
flash_header-RoundTrip_example = flash_header-RoundTrip network_order 3 read_header (omega arith)

abbrev release : BuildInfo
release = record { epoch = 1; major = 2; minor = 3; timestamp = 1600000000 }

op_code_parses_iff_example :
    (from_wire_value op_code 0x9f ≡ some OpCode.read_jedec)
    ↔ (op_code.to_wire_value OpCode.read_jedec ≡ 0x9f)
op_code_parses_iff_example = op_code_parses_iff 0x9f OpCode.read_jedec

abbrev segment : SegmentAndLocation → ℕ → SegmentInfo
segment identifier page = record {
  identifier = identifier;
  address = 0x40000 + page * 2048;
  size = 0x3800;
  start_page = page;
  page_count = 7;
}

abbrev running : RuntimeSegmentInfo
running = record {
  active_ro = segment SegmentAndLocation.ro_a 0;
  active_rw = segment SegmentAndLocation.rw_a 8;
  inactive_ro = segment SegmentAndLocation.ro_b 128;
  inactive_rw = segment SegmentAndLocation.rw_b 136;
}

segment_IsSegmentInfo :
    (identifier : SegmentAndLocation) (page : ℕ)
    → page < 256
    → IsSegmentInfo (segment identifier page)
segment_IsSegmentInfo identifier page h = record {
  address_u32 = omega arith;
  size_u32 = omega arith;
  start_page_u32 = omega arith;
  page_count_u32 = omega arith;
}

infos-RoundTrip_example :
    RoundTrip
      (runtime_segment_info_to_wire network_order running)
      (runtime_segment_info_from_wire network_order)
      running
      runtime_segment_info_len
    × RoundTrip
        (build_info_to_wire network_order release)
        (build_info_from_wire network_order)
        release
        build_info_len
infos-RoundTrip_example =
    infos-RoundTrip network_order network_order running release
      (segment_IsSegmentInfo SegmentAndLocation.ro_a 0 (omega arith))
      (segment_IsSegmentInfo SegmentAndLocation.rw_a 8 (omega arith))
      (segment_IsSegmentInfo SegmentAndLocation.ro_b 128 (omega arith))
      (segment_IsSegmentInfo SegmentAndLocation.rw_b 136 (omega arith))
      (record {
        epoch_u32 = omega arith;
        major_u32 = omega arith;
        minor_u32 = omega arith;
        timestamp_u64 = omega arith;
      })
