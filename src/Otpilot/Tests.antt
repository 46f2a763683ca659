-- ===== src/Otpilot/Tests.antt =====
-- The SPI processor with concrete drivers, and its theorems there.
use tock_on_titan.Common.{ℕ, List, [], ◌∷◌, true, false, none, some, length, ◌≡◌, ◌≢◌, refl, arith}
use tock_on_titan.Spiutils.Io.{ok, read_bytes, read_u8, read_int}
use tock_on_titan.Spiutils.Wire.{enum_from_wire}
use tock_on_titan.Spiutils.Segment.{SegmentInfo}
use tock_on_titan.Spiutils.Flash.{three_byte}
use tock_on_titan.Spiutils.Payload.{Header, compute_checksum, header_from_wire}
use tock_on_titan.Spiutils.Payload.Content.{ContentType, content_type}
use tock_on_titan.Spiutils.Payload.Crc.{crc_add, crc_byte, crc_get, crc_round, crc_rounds}
use tock_on_titan.Spiutils.Firmware.Enums.{SegmentAndLocation, UpdatePrepareResult}
use tock_on_titan.Spiutils.Firmware.Message as FirmwareMessage
use tock_on_titan.Spiutils.ErrorMessage.Messages as Error
use tock_on_titan.Spiutils.NetworkOrder.{network_order}
use tock_on_titan.Otpilot.Drivers.{
  end_transaction_with_data, done, unfinished, Drivers, State, new_controller,
}
use tock_on_titan.Otpilot.OnlyInactive.{IsFlashSegment, OnlyInactive}
use tock_on_titan.Otpilot.SpiProcessor.Response.{send_firmware_response}
use tock_on_titan.Otpilot.SpiProcessor.Response.Readable.{IsPacket, send_firmware_response-readable}
use tock_on_titan.Otpilot.SpiProcessor.Payload.{process_spi_payload}
use tock_on_titan.Otpilot.SpiProcessor.Payload.Corrupted.{corrupted_payload-refused}
use tock_on_titan.Otpilot.SpiProcessor.Host.{erased}
use tock_on_titan.Otpilot.FirmwareController.{erase_segment}
use tock_on_titan.Otpilot.FirmwareController.Pages.{erased_pages, erase_segment_pages}
use tock_on_titan.Otpilot.Sfdp.{get_table}
use tock_on_titan.Otpilot.Sfdp.Reader.{Describes, get_table-Describes}
use tock_on_titan.Otpilot.SpiProcessor.Packet.{process_spi_packet}
use tock_on_titan.Otpilot.SpiProcessor.Packet.Inactive.{process_spi_packet-OnlyInactive}
use tock_on_titan.Otpilot.SpiProcessor.Packet.Ends.{process_spi_packet-ends}

abbrev ro_segment : SegmentInfo
ro_segment = record {
  identifier = SegmentAndLocation.ro_b;
  address = 0x40000;
  size = 0x4000;
  start_page = 128;
  page_count = 8;
}

abbrev rw_segment : SegmentInfo
rw_segment = record {
  identifier = SegmentAndLocation.rw_b;
  address = 0x44000;
  size = 0x1000;
  start_page = 136;
  page_count = 2;
}

-- Every call succeeds, writing is enabled and addresses have three bytes.
abbrev drivers : Drivers
drivers = record {
  succeeds = λ calls. true;
  operation_failed = λ calls. false;
  read_buffer = λ calls. [];
  is_write_enable_set = λ calls. true;
  address_mode = λ calls. three_byte;
  inactive_ro = ro_segment;
  inactive_rw = rw_segment;
  manticore_response = λ calls request. none;
}

abbrev start : State
start = record {
  firmware = new_controller;
  write_buf = erased 128;
  tx_buf = erased 512;
  calls = [];
}

-- A page program command into the mailbox, whose payload asks to prepare the segment RwB.
abbrev payload : List ℕ
payload = 0x02 ∷ 0x00 ∷ 0x02 ∷ 0x1b ∷ 0x01 ∷ 0x04 ∷ []

-- The same payload, with its first byte changed.
abbrev header : Header
header = record { content = ContentType.firmware; content_len = 2; checksum = 0x1b }

abbrev corrupted : List ℕ
corrupted = 0x02 ∷ 0x00 ∷ 0x02 ∷ 0x1b ∷ 0x03 ∷ 0x04 ∷ []

abbrev packet : List ℕ
packet = 0x02 ∷ 0x08 ∷ 0x00 ∷ 0x00 ∷ payload

ro_segment-IsFlashSegment : IsFlashSegment ro_segment
ro_segment-IsFlashSegment = record {
  has_page = omega arith;
  pages_u32 = omega arith;
  end_u32 = omega arith;
  chunk_u32 = omega arith;
}

rw_segment-IsFlashSegment : IsFlashSegment rw_segment
rw_segment-IsFlashSegment = record {
  has_page = omega arith;
  pages_u32 = omega arith;
  end_u32 = omega arith;
  chunk_u32 = omega arith;
}

process_spi_packet-OnlyInactive_example :
    OnlyInactive drivers (process_spi_packet network_order drivers packet start).1.calls
process_spi_packet-OnlyInactive_example =
    process_spi_packet-OnlyInactive network_order drivers ro_segment-IsFlashSegment
      rw_segment-IsFlashSegment packet start tt

process_spi_packet-ends_example :
    (process_spi_packet network_order drivers packet start).0 ≢ unfinished
process_spi_packet-ends_example = process_spi_packet-ends network_order drivers packet start

abbrev response : FirmwareMessage.Message
response = FirmwareMessage.update_prepare_response (record {
  segment = SegmentAndLocation.rw_b;
  max_chunk_length = 128;
  result = UpdatePrepareResult.success;
})

send_firmware_response-readable_example :
    (payload packet : List ℕ) × ((send_firmware_response network_order drivers response
        start).1.calls
      ≡ end_transaction_with_data packet true true ∷ [])
    × IsPacket network_order ContentType.firmware payload packet
    × (FirmwareMessage.message_from_wire network_order payload ≡ ok (response, []))
send_firmware_response-readable_example =
    send_firmware_response-readable network_order drivers response start (omega arith) refl
      (omega arith)

header_checksum : compute_checksum header (0x01 ∷ 0x04 ∷ []) ≡ some 0x1b
unfolding compute_checksum crc_add crc_byte crc_rounds crc_round crc_get content_type
header_checksum = refl

corrupted_header : header_from_wire network_order corrupted ≡ ok (header, 0x03 ∷ 0x04 ∷ [])
unfolding header_from_wire read_u8 read_bytes read_int enum_from_wire content_type
corrupted_header = refl

corrupted_payload-refused_example :
    (payload response : List ℕ) × ((process_spi_payload network_order drivers corrupted
        start).1.calls
      ≡ end_transaction_with_data response true true ∷ [])
    × IsPacket network_order ContentType.error payload response
    × (Error.message_from_wire payload ≡ ok (Error.bad_checksum, []))
corrupted_payload-refused_example =
    corrupted_payload-refused network_order drivers header [] (0x04 ∷ []) corrupted 0x01 0x03 start
      header_checksum corrupted_header (omega arith) (omega arith) tt (omega arith, tt)
      (omega arith) (omega arith) (λ e. omega (arith, e)) refl

get_table-Describes_example :
    (table : List ℕ) × (get_table (erased 128) 0x1fffffff three_byte true 0x80000 512 0
      ≡ some table)
    × (length table ≡ 128)
    × Describes table 0x1fffffff three_byte true 0x80000 512 0
get_table-Describes_example =
    get_table-Describes 0x1fffffff three_byte true 0x80000 512 0 (erased 128) (omega arith)
      (omega arith) (omega arith) (omega arith) (omega arith)

erase_segment_pages_example :
    (s' : State) × (erase_segment drivers rw_segment start ≡ (done tt, s'))
    × (erased_pages s'.calls ≡ 137 ∷ 136 ∷ [])
erase_segment_pages_example =
    erase_segment_pages drivers (λ calls. refl) (λ calls. refl) rw_segment start
      rw_segment-IsFlashSegment
