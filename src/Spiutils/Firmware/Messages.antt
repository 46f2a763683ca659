-- ===== src/Spiutils/Firmware/Messages.antt =====
-- shared-lib/spiutils/src/protocol/firmware.rs: the message structs, their lengths on the wire,
-- and how each is written and read. A message with no field is the constructor that names it.
use tock_on_titan.Common.{ℕ, ◌+◌, ◌*◌, List}
use tock_on_titan.Spiutils.Io.{
  ok, ByteOrder, Reader, Writer, ◌>>=◌, ◌>>◌, succeed, read_int, write_int, read_bytes, write_bytes,
  remaining_data,
}
use tock_on_titan.Spiutils.Wire.{enum_from_wire, enum_to_wire}
use tock_on_titan.Spiutils.Segment.{
  SegmentInfo, segment_info_from_wire, segment_info_to_wire, segment_info_len, BuildInfo,
  build_info_from_wire, build_info_to_wire, build_info_len,
}
use tock_on_titan.Spiutils.Firmware.Enums.{
  ContentType, SegmentAndLocation, UpdatePrepareResult, WriteChunkResult, RebootTime, RebootResult,
  content_type, segment_and_location, update_prepare_result, write_chunk_result, reboot_time,
  reboot_result,
}

pub record Header : Type 0 where
  pub content : ContentType

pub record InactiveSegmentsInfoResponse : Type 0 where
  pub ro : SegmentInfo
  pub rw : SegmentInfo

pub record FirmwareInfo : Type 0 where
  pub segment : SegmentAndLocation
  pub build_info : BuildInfo

pub record UpdatePrepareRequest : Type 0 where
  pub segment : SegmentAndLocation

pub record UpdatePrepareResponse : Type 0 where
  pub segment : SegmentAndLocation
  pub max_chunk_length : ℕ
  pub result : UpdatePrepareResult

pub record WriteChunkRequest : Type 0 where
  pub segment : SegmentAndLocation
  pub offset : ℕ
  pub chunk : List ℕ

pub record WriteChunkResponse : Type 0 where
  pub segment : SegmentAndLocation
  pub offset : ℕ
  pub result : WriteChunkResult

pub record RebootRequest : Type 0 where
  pub time : RebootTime

pub record RebootResponse : Type 0 where
  pub time : RebootTime
  pub result : RebootResult

abbrev pub header_len : ℕ
header_len = 1

abbrev pub inactive_segments_info_response_len : ℕ
inactive_segments_info_response_len = 2 * segment_info_len

abbrev pub firmware_info_len : ℕ
firmware_info_len = 1 + build_info_len

abbrev pub update_prepare_request_len : ℕ
update_prepare_request_len = 1

abbrev pub update_prepare_response_len : ℕ
update_prepare_response_len = 4

abbrev pub write_chunk_request_len : ℕ
write_chunk_request_len = 5

abbrev pub write_chunk_response_len : ℕ
write_chunk_response_len = 6

abbrev pub reboot_request_len : ℕ
reboot_request_len = 1

abbrev pub reboot_response_len : ℕ
reboot_response_len = 2

unfoldable pub header_from_wire : Reader Header
header_from_wire = do content ← enum_from_wire content_type; succeed (record { content = content })

unfoldable pub header_to_wire : Header → Writer
header_to_wire h = enum_to_wire content_type h.content

unfoldable pub update_prepare_request_from_wire : Reader UpdatePrepareRequest
update_prepare_request_from_wire = do
  segment ← enum_from_wire segment_and_location
  succeed (record { segment = segment })

unfoldable pub update_prepare_request_to_wire : UpdatePrepareRequest → Writer
update_prepare_request_to_wire m = enum_to_wire segment_and_location m.segment

unfoldable pub reboot_request_from_wire : Reader RebootRequest
reboot_request_from_wire = do time ← enum_from_wire reboot_time; succeed (record { time = time })

unfoldable pub reboot_request_to_wire : RebootRequest → Writer
reboot_request_to_wire m = enum_to_wire reboot_time m.time

unfoldable pub reboot_response_from_wire : Reader RebootResponse
reboot_response_from_wire = do
  time ← enum_from_wire reboot_time
  result ← enum_from_wire reboot_result
  succeed (record { time = time; result = result })

unfoldable pub reboot_response_to_wire : RebootResponse → Writer
reboot_response_to_wire m = enum_to_wire reboot_time m.time >> enum_to_wire reboot_result m.result

module _ (be : ByteOrder) where
  unfoldable pub inactive_segments_info_response_from_wire : Reader InactiveSegmentsInfoResponse
  inactive_segments_info_response_from_wire = do
    ro ← segment_info_from_wire be
    rw_segment ← segment_info_from_wire be
    succeed (record { ro = ro; rw = rw_segment })

  unfoldable pub inactive_segments_info_response_to_wire : InactiveSegmentsInfoResponse → Writer
  inactive_segments_info_response_to_wire m =
      segment_info_to_wire be m.ro >> segment_info_to_wire be m.rw

  unfoldable pub update_prepare_response_from_wire : Reader UpdatePrepareResponse
  update_prepare_response_from_wire = do
    segment ← enum_from_wire segment_and_location
    max_chunk_length ← read_int be 2
    result ← enum_from_wire update_prepare_result
    succeed (record { segment = segment; max_chunk_length = max_chunk_length; result = result })

  unfoldable pub update_prepare_response_to_wire : UpdatePrepareResponse → Writer
  update_prepare_response_to_wire m =
      enum_to_wire segment_and_location m.segment
      >> write_int be 2 m.max_chunk_length
      >> enum_to_wire update_prepare_result m.result

  -- The data is all that remains.
  unfoldable pub write_chunk_request_from_wire : Reader WriteChunkRequest
  write_chunk_request_from_wire = do
    segment ← enum_from_wire segment_and_location
    offset ← read_int be 4
    data_len ← λ r. ok (remaining_data r, r)
    chunk ← read_bytes data_len
    succeed (record { segment = segment; offset = offset; chunk = chunk })

  unfoldable pub write_chunk_request_to_wire : WriteChunkRequest → Writer
  write_chunk_request_to_wire m =
      enum_to_wire segment_and_location m.segment >> write_int be 4 m.offset >> write_bytes m.chunk

  unfoldable pub write_chunk_response_from_wire : Reader WriteChunkResponse
  write_chunk_response_from_wire = do
    segment ← enum_from_wire segment_and_location
    offset ← read_int be 4
    result ← enum_from_wire write_chunk_result
    succeed (record { segment = segment; offset = offset; result = result })

  unfoldable pub write_chunk_response_to_wire : WriteChunkResponse → Writer
  write_chunk_response_to_wire m =
      enum_to_wire segment_and_location m.segment
      >> write_int be 4 m.offset
      >> enum_to_wire write_chunk_result m.result

-- `BuildInfo` inside a firmware message keeps its own byte order.
module _ (le : ByteOrder) where
  unfoldable pub firmware_info_from_wire : Reader FirmwareInfo
  firmware_info_from_wire = do
    segment ← enum_from_wire segment_and_location
    build_info ← build_info_from_wire le
    succeed (record { segment = segment; build_info = build_info })

  unfoldable pub firmware_info_to_wire : FirmwareInfo → Writer
  firmware_info_to_wire m =
      enum_to_wire segment_and_location m.segment >> build_info_to_wire le m.build_info
