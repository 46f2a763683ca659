-- ===== src/Spiutils/Segment/RoundTrip.antt =====
-- Reading back what driver/firmware.rs and compat/firmware.rs write.
use tock_on_titan.Common.{◌++◌, length-append}
use tock_on_titan.Spiutils.Io.{ByteOrder}
use tock_on_titan.Spiutils.Io.Laws.{
  Writes->>, Writes-int, Reads->>=, Reads-map, Reads-int, RoundTrip,
}
use tock_on_titan.Spiutils.Wire.{enum-RoundTrip}
use tock_on_titan.Spiutils.Firmware.EnumLaws.{SegmentAndLocation-IsWireEnum}
use tock_on_titan.Spiutils.Segment.{
  SegmentInfo, IsSegmentInfo, segment_info_len, segment_info_from_wire, segment_info_to_wire,
  RuntimeSegmentInfo, runtime_segment_info_len, runtime_segment_info_from_wire,
  runtime_segment_info_to_wire, BuildInfo, IsBuildInfo, build_info_len, build_info_from_wire,
  build_info_to_wire,
}

module _ (be : ByteOrder) where
  pub segment_info-RoundTrip :
      (s : SegmentInfo)
      → IsSegmentInfo s
      → RoundTrip (segment_info_to_wire be s) (segment_info_from_wire be) s segment_info_len
  unfolding segment_info_to_wire segment_info_from_wire
  segment_info-RoundTrip s v =
      let id = enum-RoundTrip SegmentAndLocation-IsWireEnum s.identifier in
      record {
        bytes =
            id.bytes
            ++ (be.write_uint 4 s.address
                ++ (be.write_uint 4 s.size
                    ++ (be.write_uint 4 s.start_page ++ be.write_uint 4 s.page_count)));
        written = Writes->> id.written (
            Writes->> (Writes-int be 4 _)
              (Writes->> (Writes-int be 4 _) (Writes->> (Writes-int be 4 _) (Writes-int be 4 _))));
        read_back = Reads->>= _ id.read_back (
            Reads->>= _ (Reads-int be 4 _ v.address_u32) (
              Reads->>= _ (Reads-int be 4 _ v.size_u32) (
                Reads->>= _ (Reads-int be 4 _ v.start_page_u32)
                  (Reads-map _ (Reads-int be 4 _ v.page_count_u32)))));
        size = simp (length-append, id.size, be.length-write);
      }

  -- Information on four segments whose fields are in range takes 68 bytes, and reads back from them
  -- whatever follows.
  runtime_segment_info-RoundTrip :
      (s : RuntimeSegmentInfo)
      → IsSegmentInfo s.active_ro
      → IsSegmentInfo s.active_rw
      → IsSegmentInfo s.inactive_ro
      → IsSegmentInfo s.inactive_rw
      → RoundTrip
          (runtime_segment_info_to_wire be s)
          (runtime_segment_info_from_wire be)
          s
          runtime_segment_info_len
  unfolding runtime_segment_info_to_wire runtime_segment_info_from_wire
  runtime_segment_info-RoundTrip s a b c d =
      let ra = segment_info-RoundTrip s.active_ro a in
      let rb = segment_info-RoundTrip s.active_rw b in
      let rc = segment_info-RoundTrip s.inactive_ro c in
      let rd = segment_info-RoundTrip s.inactive_rw d in
      record {
        bytes = ra.bytes ++ (rb.bytes ++ (rc.bytes ++ rd.bytes));
        written = Writes->> ra.written (Writes->> rb.written (Writes->> rc.written rd.written));
        read_back =
            Reads->>= _ ra.read_back
              (Reads->>= _ rb.read_back (Reads->>= _ rc.read_back (Reads-map _ rd.read_back)));
        size = simp (length-append, ra.size, rb.size, rc.size, rd.size);
      }

module _ (le : ByteOrder) where
  -- Build information whose fields are in range takes 20 bytes, and reads back from them whatever
  -- follows.
  build_info-RoundTrip :
      (b : BuildInfo)
      → IsBuildInfo b
      → RoundTrip (build_info_to_wire le b) (build_info_from_wire le) b build_info_len
  unfolding build_info_to_wire build_info_from_wire
  build_info-RoundTrip b v = record {
    bytes =
        le.write_uint 4 b.epoch
        ++ (le.write_uint 4 b.major ++ (le.write_uint 4 b.minor ++ le.write_uint 8 b.timestamp));
    written =
        Writes->> (Writes-int le 4 _)
          (Writes->> (Writes-int le 4 _) (Writes->> (Writes-int le 4 _) (Writes-int le 8 _)));
    read_back = Reads->>= _ (Reads-int le 4 _ v.epoch_u32) (
        Reads->>= _ (Reads-int le 4 _ v.major_u32) (
          Reads->>= _ (Reads-int le 4 _ v.minor_u32)
            (Reads-map _ (Reads-int le 8 _ v.timestamp_u64))));
    size = simp (length-append, le.length-write);
  }

-- Information on four segments whose fields are in range takes 68 bytes, and build information
-- whose fields are in range takes 20; each reads back from its bytes whatever follows.
pub infos-RoundTrip :
    (be le : ByteOrder) (s : RuntimeSegmentInfo) (b : BuildInfo)
    → IsSegmentInfo s.active_ro
    → IsSegmentInfo s.active_rw
    → IsSegmentInfo s.inactive_ro
    → IsSegmentInfo s.inactive_rw
    → IsBuildInfo b
    → RoundTrip
        (runtime_segment_info_to_wire be s)
        (runtime_segment_info_from_wire be)
        s
        runtime_segment_info_len
      × RoundTrip (build_info_to_wire le b) (build_info_from_wire le) b build_info_len
infos-RoundTrip be le s b a c d e v =
    (runtime_segment_info-RoundTrip be s a c d e, build_info-RoundTrip le b v)
