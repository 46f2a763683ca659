-- ===== src/Spiutils/Segment.antt =====
-- shared-lib/spiutils/src/driver/firmware.rs: where a firmware segment lies in flash; and
-- shared-lib/spiutils/src/compat/firmware.rs: the build information inside a segment.
pub mod RoundTrip
use tock_on_titan.Common.{ℕ, ◌+◌, ◌*◌, ◌^◌, ◌<◌}
use tock_on_titan.Spiutils.Io.{ByteOrder, Reader, Writer, ◌>>=◌, ◌>>◌, succeed, read_int, write_int}
use tock_on_titan.Spiutils.Wire.{enum_from_wire, enum_to_wire}
use tock_on_titan.Spiutils.Firmware.Enums.{SegmentAndLocation, segment_and_location}

abbrev pub segment_info_len : ℕ
segment_info_len = 1 + 4 * 4

pub record SegmentInfo : Type 0 where
  pub identifier : SegmentAndLocation
  pub address : ℕ
  pub size : ℕ
  pub start_page : ℕ
  pub page_count : ℕ

-- The fields are of type u32.
pub record IsSegmentInfo (s : SegmentInfo) : Type 0 where
  pub address_u32 : s.address < 256 ^ 4
  pub size_u32 : s.size < 256 ^ 4
  pub start_page_u32 : s.start_page < 256 ^ 4
  pub page_count_u32 : s.page_count < 256 ^ 4

abbrev pub unknown_segment : SegmentInfo
unknown_segment = record {
  identifier = SegmentAndLocation.unknown;
  address = 0;
  size = 0;
  start_page = 0;
  page_count = 0;
}

pub record RuntimeSegmentInfo : Type 0 where
  pub active_ro : SegmentInfo
  pub active_rw : SegmentInfo
  pub inactive_ro : SegmentInfo
  pub inactive_rw : SegmentInfo

abbrev pub runtime_segment_info_len : ℕ
runtime_segment_info_len = 4 * segment_info_len

abbrev pub build_info_len : ℕ
build_info_len = 3 * 4 + 8

abbrev pub build_info_offset : ℕ
build_info_offset = 860

pub record BuildInfo : Type 0 where
  pub epoch : ℕ
  pub major : ℕ
  pub minor : ℕ
  pub timestamp : ℕ

-- Three fields of type u32 and one of type u64.
pub record IsBuildInfo (b : BuildInfo) : Type 0 where
  pub epoch_u32 : b.epoch < 256 ^ 4
  pub major_u32 : b.major < 256 ^ 4
  pub minor_u32 : b.minor < 256 ^ 4
  pub timestamp_u64 : b.timestamp < 256 ^ 8

module _ (be : ByteOrder) where
  unfoldable pub segment_info_from_wire : Reader SegmentInfo
  segment_info_from_wire = do
    identifier ← enum_from_wire segment_and_location
    address ← read_int be 4
    size ← read_int be 4
    start_page ← read_int be 4
    page_count ← read_int be 4
    succeed (record {
      identifier = identifier;
      address = address;
      size = size;
      start_page = start_page;
      page_count = page_count;
    })

  unfoldable pub segment_info_to_wire : SegmentInfo → Writer
  segment_info_to_wire s =
      enum_to_wire segment_and_location s.identifier
      >> write_int be 4 s.address
      >> write_int be 4 s.size
      >> write_int be 4 s.start_page
      >> write_int be 4 s.page_count

  unfoldable pub runtime_segment_info_from_wire : Reader RuntimeSegmentInfo
  runtime_segment_info_from_wire = do
    active_ro ← segment_info_from_wire
    active_rw ← segment_info_from_wire
    inactive_ro ← segment_info_from_wire
    inactive_rw ← segment_info_from_wire
    succeed (record {
      active_ro = active_ro;
      active_rw = active_rw;
      inactive_ro = inactive_ro;
      inactive_rw = inactive_rw;
    })

  unfoldable pub runtime_segment_info_to_wire : RuntimeSegmentInfo → Writer
  runtime_segment_info_to_wire s =
      segment_info_to_wire s.active_ro
      >> segment_info_to_wire s.active_rw
      >> segment_info_to_wire s.inactive_ro
      >> segment_info_to_wire s.inactive_rw

-- `BuildInfo` is little-endian, as in the C struct that it copies.
module _ (le : ByteOrder) where
  unfoldable pub build_info_from_wire : Reader BuildInfo
  build_info_from_wire = do
    epoch ← read_int le 4
    major ← read_int le 4
    minor ← read_int le 4
    timestamp ← read_int le 8
    succeed (record { epoch = epoch; major = major; minor = minor; timestamp = timestamp })

  unfoldable pub build_info_to_wire : BuildInfo → Writer
  build_info_to_wire b =
      write_int le 4 b.epoch
      >> write_int le 4 b.major
      >> write_int le 4 b.minor
      >> write_int le 8 b.timestamp
