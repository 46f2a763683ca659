-- ===== src/Spiutils/Firmware/Enums.antt =====
-- shared-lib/spiutils/src/protocol/firmware.rs: its wire enums.
use tock_on_titan.Common.{ℕ, [], ◌∷◌}
use Prim.Native.String.{String}
use tock_on_titan.Spiutils.Wire.{WireEnum}

-- `ContentType` of firmware.rs: a request and its response.
pub data ContentType : Type 0 where
  update_prepare_request update_prepare_response write_chunk_request write_chunk_response
        inactive_segments_info_request inactive_segments_info_response reboot_request
        reboot_response :
      ContentType

content_type_value : ContentType → ℕ
content_type_value ContentType.update_prepare_request = 0x01
content_type_value ContentType.update_prepare_response = 0x02
content_type_value ContentType.write_chunk_request = 0x03
content_type_value ContentType.write_chunk_response = 0x04
content_type_value ContentType.inactive_segments_info_request = 0x05
content_type_value ContentType.inactive_segments_info_response = 0x06
content_type_value ContentType.reboot_request = 0x07
content_type_value ContentType.reboot_response = 0x08

content_type_name : ContentType → String
content_type_name ContentType.update_prepare_request = "UpdatePrepareRequest"
content_type_name ContentType.update_prepare_response = "UpdatePrepareResponse"
content_type_name ContentType.write_chunk_request = "WriteChunkRequest"
content_type_name ContentType.write_chunk_response = "WriteChunkResponse"
content_type_name ContentType.inactive_segments_info_request = "InactiveSegmentsInfoRequest"
content_type_name ContentType.inactive_segments_info_response = "InactiveSegmentsInfoResponse"
content_type_name ContentType.reboot_request = "RebootRequest"
content_type_name ContentType.reboot_response = "RebootResponse"

unfoldable pub content_type : WireEnum ContentType
unfolding content_type_value content_type_name
content_type = record {
  arms =
      (0x01, "UpdatePrepareRequest", ContentType.update_prepare_request)
      ∷ (0x02, "UpdatePrepareResponse", ContentType.update_prepare_response)
      ∷ (0x03, "WriteChunkRequest", ContentType.write_chunk_request)
      ∷ (0x04, "WriteChunkResponse", ContentType.write_chunk_response)
      ∷ (0x05, "InactiveSegmentsInfoRequest", ContentType.inactive_segments_info_request)
      ∷ (0x06, "InactiveSegmentsInfoResponse", ContentType.inactive_segments_info_response)
      ∷ (0x07, "RebootRequest", ContentType.reboot_request)
      ∷ (0x08, "RebootResponse", ContentType.reboot_response)
      ∷ [];
  to_wire_value = content_type_value;
  name = content_type_name;
}

-- A segment and its location.
pub data SegmentAndLocation : Type 0 where
  unknown ro_a ro_b rw_a rw_b : SegmentAndLocation

segment_and_location_value : SegmentAndLocation → ℕ
segment_and_location_value SegmentAndLocation.unknown = 0xff
segment_and_location_value SegmentAndLocation.ro_a = 0x01
segment_and_location_value SegmentAndLocation.ro_b = 0x02
segment_and_location_value SegmentAndLocation.rw_a = 0x03
segment_and_location_value SegmentAndLocation.rw_b = 0x04

segment_and_location_name : SegmentAndLocation → String
segment_and_location_name SegmentAndLocation.unknown = "Unknown"
segment_and_location_name SegmentAndLocation.ro_a = "RoA"
segment_and_location_name SegmentAndLocation.ro_b = "RoB"
segment_and_location_name SegmentAndLocation.rw_a = "RwA"
segment_and_location_name SegmentAndLocation.rw_b = "RwB"

unfoldable pub segment_and_location : WireEnum SegmentAndLocation
unfolding segment_and_location_value segment_and_location_name
segment_and_location = record {
  arms =
      (0xff, "Unknown", SegmentAndLocation.unknown)
      ∷ (0x01, "RoA", SegmentAndLocation.ro_a)
      ∷ (0x02, "RoB", SegmentAndLocation.ro_b)
      ∷ (0x03, "RwA", SegmentAndLocation.rw_a)
      ∷ (0x04, "RwB", SegmentAndLocation.rw_b)
      ∷ [];
  to_wire_value = segment_and_location_value;
  name = segment_and_location_name;
}

-- The result of an update prepare request.
pub data UpdatePrepareResult : Type 0 where
  success error invalid_segment_and_location : UpdatePrepareResult

update_prepare_result_value : UpdatePrepareResult → ℕ
update_prepare_result_value UpdatePrepareResult.success = 0x00
update_prepare_result_value UpdatePrepareResult.error = 0x01
update_prepare_result_value UpdatePrepareResult.invalid_segment_and_location = 0x02

update_prepare_result_name : UpdatePrepareResult → String
update_prepare_result_name UpdatePrepareResult.success = "Success"
update_prepare_result_name UpdatePrepareResult.error = "Error"
update_prepare_result_name UpdatePrepareResult.invalid_segment_and_location =
    "InvalidSegmentAndLocation"

unfoldable pub update_prepare_result : WireEnum UpdatePrepareResult
unfolding update_prepare_result_value update_prepare_result_name
update_prepare_result = record {
  arms =
      (0x00, "Success", UpdatePrepareResult.success)
      ∷ (0x01, "Error", UpdatePrepareResult.error)
      ∷ (0x02, "InvalidSegmentAndLocation", UpdatePrepareResult.invalid_segment_and_location)
      ∷ [];
  to_wire_value = update_prepare_result_value;
  name = update_prepare_result_name;
}

-- The result of a write chunk request.
pub data WriteChunkResult : Type 0 where
  success error invalid_segment_and_location invalid_offset data_too_long compare_failed :
      WriteChunkResult

write_chunk_result_value : WriteChunkResult → ℕ
write_chunk_result_value WriteChunkResult.success = 0x00
write_chunk_result_value WriteChunkResult.error = 0x01
write_chunk_result_value WriteChunkResult.invalid_segment_and_location = 0x02
write_chunk_result_value WriteChunkResult.invalid_offset = 0x03
write_chunk_result_value WriteChunkResult.data_too_long = 0x04
write_chunk_result_value WriteChunkResult.compare_failed = 0x05

write_chunk_result_name : WriteChunkResult → String
write_chunk_result_name WriteChunkResult.success = "Success"
write_chunk_result_name WriteChunkResult.error = "Error"
write_chunk_result_name WriteChunkResult.invalid_segment_and_location = "InvalidSegmentAndLocation"
write_chunk_result_name WriteChunkResult.invalid_offset = "InvalidOffset"
write_chunk_result_name WriteChunkResult.data_too_long = "DataTooLong"
write_chunk_result_name WriteChunkResult.compare_failed = "CompareFailed"

unfoldable pub write_chunk_result : WireEnum WriteChunkResult
unfolding write_chunk_result_value write_chunk_result_name
write_chunk_result = record {
  arms =
      (0x00, "Success", WriteChunkResult.success)
      ∷ (0x01, "Error", WriteChunkResult.error)
      ∷ (0x02, "InvalidSegmentAndLocation", WriteChunkResult.invalid_segment_and_location)
      ∷ (0x03, "InvalidOffset", WriteChunkResult.invalid_offset)
      ∷ (0x04, "DataTooLong", WriteChunkResult.data_too_long)
      ∷ (0x05, "CompareFailed", WriteChunkResult.compare_failed)
      ∷ [];
  to_wire_value = write_chunk_result_value;
  name = write_chunk_result_name;
}

-- When to reboot.
pub data RebootTime : Type 0 where
  immediate delayed : RebootTime

reboot_time_value : RebootTime → ℕ
reboot_time_value RebootTime.immediate = 0x00
reboot_time_value RebootTime.delayed = 0x01

reboot_time_name : RebootTime → String
reboot_time_name RebootTime.immediate = "Immediate"
reboot_time_name RebootTime.delayed = "Delayed"

unfoldable pub reboot_time : WireEnum RebootTime
unfolding reboot_time_value reboot_time_name
reboot_time = record {
  arms = (0x00, "Immediate", RebootTime.immediate) ∷ (0x01, "Delayed", RebootTime.delayed) ∷ [];
  to_wire_value = reboot_time_value;
  name = reboot_time_name;
}

-- The result of a reboot request.
pub data RebootResult : Type 0 where
  success error : RebootResult

reboot_result_value : RebootResult → ℕ
reboot_result_value RebootResult.success = 0x00
reboot_result_value RebootResult.error = 0x01

reboot_result_name : RebootResult → String
reboot_result_name RebootResult.success = "Success"
reboot_result_name RebootResult.error = "Error"

unfoldable pub reboot_result : WireEnum RebootResult
unfolding reboot_result_value reboot_result_name
reboot_result = record {
  arms = (0x00, "Success", RebootResult.success) ∷ (0x01, "Error", RebootResult.error) ∷ [];
  to_wire_value = reboot_result_value;
  name = reboot_result_name;
}
