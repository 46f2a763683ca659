-- ===== src/Spiutils/Firmware/EnumLaws.antt =====
-- The laws of the enums of firmware.rs.
use tock_on_titan.Common.{All, ◌<◌, ◌≡◌, refl, arith, some}
use tock_on_titan.Spiutils.Wire.{IsWireEnum, Agrees, from_wire_value, from_name}
use tock_on_titan.Spiutils.Firmware.Enums.{
  ContentType, SegmentAndLocation, UpdatePrepareResult, WriteChunkResult, RebootTime, RebootResult,
  content_type, segment_and_location, update_prepare_result, write_chunk_result, reboot_time,
  reboot_result,
}

content_type_from_value :
    (x : ContentType) → from_wire_value content_type (content_type.to_wire_value x) ≡ some x
unfolding content_type
content_type_from_value ContentType.update_prepare_request = refl
content_type_from_value ContentType.update_prepare_response = refl
content_type_from_value ContentType.write_chunk_request = refl
content_type_from_value ContentType.write_chunk_response = refl
content_type_from_value ContentType.inactive_segments_info_request = refl
content_type_from_value ContentType.inactive_segments_info_response = refl
content_type_from_value ContentType.reboot_request = refl
content_type_from_value ContentType.reboot_response = refl

from_name-content_type : (x : ContentType) → from_name content_type (content_type.name x) ≡ some x
unfolding content_type
from_name-content_type ContentType.update_prepare_request = refl
from_name-content_type ContentType.update_prepare_response = refl
from_name-content_type ContentType.write_chunk_request = refl
from_name-content_type ContentType.write_chunk_response = refl
from_name-content_type ContentType.inactive_segments_info_request = refl
from_name-content_type ContentType.inactive_segments_info_response = refl
from_name-content_type ContentType.reboot_request = refl
from_name-content_type ContentType.reboot_response = refl

content_type_is_byte : (x : ContentType) → content_type.to_wire_value x < 256
unfolding content_type
content_type_is_byte ContentType.update_prepare_request = omega arith
content_type_is_byte ContentType.update_prepare_response = omega arith
content_type_is_byte ContentType.write_chunk_request = omega arith
content_type_is_byte ContentType.write_chunk_response = omega arith
content_type_is_byte ContentType.inactive_segments_info_request = omega arith
content_type_is_byte ContentType.inactive_segments_info_response = omega arith
content_type_is_byte ContentType.reboot_request = omega arith
content_type_is_byte ContentType.reboot_response = omega arith

content_type_arms : All (Agrees content_type) (content_type.arms)
unfolding content_type
content_type_arms = (
  (refl, refl),
  (
    (refl, refl),
    (
      (refl, refl),
      ((refl, refl), ((refl, refl), ((refl, refl), ((refl, refl), ((refl, refl), tt))))),
    ),
  ),
)

pub ContentType-IsWireEnum : IsWireEnum content_type
ContentType-IsWireEnum = record {
  from_value = content_type_from_value;
  from_own_name = from_name-content_type;
  value_is_byte = content_type_is_byte;
  arms_agree = content_type_arms;
}

segment_and_location_from_value :
    (x : SegmentAndLocation)
    → from_wire_value segment_and_location (segment_and_location.to_wire_value x) ≡ some x
unfolding segment_and_location
segment_and_location_from_value SegmentAndLocation.unknown = refl
segment_and_location_from_value SegmentAndLocation.ro_a = refl
segment_and_location_from_value SegmentAndLocation.ro_b = refl
segment_and_location_from_value SegmentAndLocation.rw_a = refl
segment_and_location_from_value SegmentAndLocation.rw_b = refl

from_name-segment_and_location :
    (x : SegmentAndLocation) → from_name segment_and_location (segment_and_location.name x) ≡ some x
unfolding segment_and_location
from_name-segment_and_location SegmentAndLocation.unknown = refl
from_name-segment_and_location SegmentAndLocation.ro_a = refl
from_name-segment_and_location SegmentAndLocation.ro_b = refl
from_name-segment_and_location SegmentAndLocation.rw_a = refl
from_name-segment_and_location SegmentAndLocation.rw_b = refl

segment_and_location_is_byte : (x : SegmentAndLocation) → segment_and_location.to_wire_value x < 256
unfolding segment_and_location
segment_and_location_is_byte SegmentAndLocation.unknown = omega arith
segment_and_location_is_byte SegmentAndLocation.ro_a = omega arith
segment_and_location_is_byte SegmentAndLocation.ro_b = omega arith
segment_and_location_is_byte SegmentAndLocation.rw_a = omega arith
segment_and_location_is_byte SegmentAndLocation.rw_b = omega arith

segment_and_location_arms : All (Agrees segment_and_location) (segment_and_location.arms)
unfolding segment_and_location
segment_and_location_arms =
    ((refl, refl), ((refl, refl), ((refl, refl), ((refl, refl), ((refl, refl), tt)))))

pub SegmentAndLocation-IsWireEnum : IsWireEnum segment_and_location
SegmentAndLocation-IsWireEnum = record {
  from_value = segment_and_location_from_value;
  from_own_name = from_name-segment_and_location;
  value_is_byte = segment_and_location_is_byte;
  arms_agree = segment_and_location_arms;
}

update_prepare_result_from_value :
    (x : UpdatePrepareResult)
    → from_wire_value update_prepare_result (update_prepare_result.to_wire_value x) ≡ some x
unfolding update_prepare_result
update_prepare_result_from_value UpdatePrepareResult.success = refl
update_prepare_result_from_value UpdatePrepareResult.error = refl
update_prepare_result_from_value UpdatePrepareResult.invalid_segment_and_location = refl

from_name-update_prepare_result :
    (x : UpdatePrepareResult)
    → from_name update_prepare_result (update_prepare_result.name x) ≡ some x
unfolding update_prepare_result
from_name-update_prepare_result UpdatePrepareResult.success = refl
from_name-update_prepare_result UpdatePrepareResult.error = refl
from_name-update_prepare_result UpdatePrepareResult.invalid_segment_and_location = refl

update_prepare_result_is_byte :
    (x : UpdatePrepareResult) → update_prepare_result.to_wire_value x < 256
unfolding update_prepare_result
update_prepare_result_is_byte UpdatePrepareResult.success = omega arith
update_prepare_result_is_byte UpdatePrepareResult.error = omega arith
update_prepare_result_is_byte UpdatePrepareResult.invalid_segment_and_location = omega arith

update_prepare_result_arms : All (Agrees update_prepare_result) (update_prepare_result.arms)
unfolding update_prepare_result
update_prepare_result_arms = ((refl, refl), ((refl, refl), ((refl, refl), tt)))

pub UpdatePrepareResult-IsWireEnum : IsWireEnum update_prepare_result
UpdatePrepareResult-IsWireEnum = record {
  from_value = update_prepare_result_from_value;
  from_own_name = from_name-update_prepare_result;
  value_is_byte = update_prepare_result_is_byte;
  arms_agree = update_prepare_result_arms;
}

write_chunk_result_from_value :
    (x : WriteChunkResult)
    → from_wire_value write_chunk_result (write_chunk_result.to_wire_value x) ≡ some x
unfolding write_chunk_result
write_chunk_result_from_value WriteChunkResult.success = refl
write_chunk_result_from_value WriteChunkResult.error = refl
write_chunk_result_from_value WriteChunkResult.invalid_segment_and_location = refl
write_chunk_result_from_value WriteChunkResult.invalid_offset = refl
write_chunk_result_from_value WriteChunkResult.data_too_long = refl
write_chunk_result_from_value WriteChunkResult.compare_failed = refl

from_name-write_chunk_result :
    (x : WriteChunkResult) → from_name write_chunk_result (write_chunk_result.name x) ≡ some x
unfolding write_chunk_result
from_name-write_chunk_result WriteChunkResult.success = refl
from_name-write_chunk_result WriteChunkResult.error = refl
from_name-write_chunk_result WriteChunkResult.invalid_segment_and_location = refl
from_name-write_chunk_result WriteChunkResult.invalid_offset = refl
from_name-write_chunk_result WriteChunkResult.data_too_long = refl
from_name-write_chunk_result WriteChunkResult.compare_failed = refl

write_chunk_result_is_byte : (x : WriteChunkResult) → write_chunk_result.to_wire_value x < 256
unfolding write_chunk_result
write_chunk_result_is_byte WriteChunkResult.success = omega arith
write_chunk_result_is_byte WriteChunkResult.error = omega arith
write_chunk_result_is_byte WriteChunkResult.invalid_segment_and_location = omega arith
write_chunk_result_is_byte WriteChunkResult.invalid_offset = omega arith
write_chunk_result_is_byte WriteChunkResult.data_too_long = omega arith
write_chunk_result_is_byte WriteChunkResult.compare_failed = omega arith

write_chunk_result_arms : All (Agrees write_chunk_result) (write_chunk_result.arms)
unfolding write_chunk_result
write_chunk_result_arms = (
  (refl, refl),
  ((refl, refl), ((refl, refl), ((refl, refl), ((refl, refl), ((refl, refl), tt))))),
)

pub WriteChunkResult-IsWireEnum : IsWireEnum write_chunk_result
WriteChunkResult-IsWireEnum = record {
  from_value = write_chunk_result_from_value;
  from_own_name = from_name-write_chunk_result;
  value_is_byte = write_chunk_result_is_byte;
  arms_agree = write_chunk_result_arms;
}

reboot_time_from_value :
    (x : RebootTime) → from_wire_value reboot_time (reboot_time.to_wire_value x) ≡ some x
unfolding reboot_time
reboot_time_from_value RebootTime.immediate = refl
reboot_time_from_value RebootTime.delayed = refl

from_name-reboot_time : (x : RebootTime) → from_name reboot_time (reboot_time.name x) ≡ some x
unfolding reboot_time
from_name-reboot_time RebootTime.immediate = refl
from_name-reboot_time RebootTime.delayed = refl

reboot_time_is_byte : (x : RebootTime) → reboot_time.to_wire_value x < 256
unfolding reboot_time
reboot_time_is_byte RebootTime.immediate = omega arith
reboot_time_is_byte RebootTime.delayed = omega arith

reboot_time_arms : All (Agrees reboot_time) (reboot_time.arms)
unfolding reboot_time
reboot_time_arms = ((refl, refl), ((refl, refl), tt))

pub RebootTime-IsWireEnum : IsWireEnum reboot_time
RebootTime-IsWireEnum = record {
  from_value = reboot_time_from_value;
  from_own_name = from_name-reboot_time;
  value_is_byte = reboot_time_is_byte;
  arms_agree = reboot_time_arms;
}

reboot_result_from_value :
    (x : RebootResult) → from_wire_value reboot_result (reboot_result.to_wire_value x) ≡ some x
unfolding reboot_result
reboot_result_from_value RebootResult.success = refl
reboot_result_from_value RebootResult.error = refl

from_name-reboot_result :
    (x : RebootResult) → from_name reboot_result (reboot_result.name x) ≡ some x
unfolding reboot_result
from_name-reboot_result RebootResult.success = refl
from_name-reboot_result RebootResult.error = refl

reboot_result_is_byte : (x : RebootResult) → reboot_result.to_wire_value x < 256
unfolding reboot_result
reboot_result_is_byte RebootResult.success = omega arith
reboot_result_is_byte RebootResult.error = omega arith

reboot_result_arms : All (Agrees reboot_result) (reboot_result.arms)
unfolding reboot_result
reboot_result_arms = ((refl, refl), ((refl, refl), tt))

pub RebootResult-IsWireEnum : IsWireEnum reboot_result
RebootResult-IsWireEnum = record {
  from_value = reboot_result_from_value;
  from_own_name = from_name-reboot_result;
  value_is_byte = reboot_result_is_byte;
  arms_agree = reboot_result_arms;
}
