-- ===== src/Spiutils/Firmware/Message.antt =====
-- The trait `Message` of firmware.rs: the messages as one type, each with its content type, and a
-- message behind its header.
use tock_on_titan.Common.{◌^◌, ◌<◌}
use tock_on_titan.Spiutils.Io.{ok, ByteOrder, Reader, Writer, ◌>>=◌, ◌>>◌, succeed}
use tock_on_titan.Spiutils.Segment.{IsSegmentInfo}
use tock_on_titan.Spiutils.Firmware.Enums.{ContentType}
use tock_on_titan.Spiutils.Firmware.Messages.{
  InactiveSegmentsInfoResponse, UpdatePrepareRequest, UpdatePrepareResponse, WriteChunkRequest,
  WriteChunkResponse, RebootRequest, RebootResponse, header_from_wire, header_to_wire,
  update_prepare_request_from_wire, update_prepare_request_to_wire, reboot_request_from_wire,
  reboot_request_to_wire, reboot_response_from_wire, reboot_response_to_wire,
  inactive_segments_info_response_from_wire, inactive_segments_info_response_to_wire,
  update_prepare_response_from_wire, update_prepare_response_to_wire, write_chunk_request_from_wire,
  write_chunk_request_to_wire, write_chunk_response_from_wire, write_chunk_response_to_wire,
}

pub data Message : Type 0 where
  inactive_segments_info_request : Message
  inactive_segments_info_response : InactiveSegmentsInfoResponse → Message
  update_prepare_request : UpdatePrepareRequest → Message
  update_prepare_response : UpdatePrepareResponse → Message
  write_chunk_request : WriteChunkRequest → Message
  write_chunk_response : WriteChunkResponse → Message
  reboot_request : RebootRequest → Message
  reboot_response : RebootResponse → Message

-- `Message::TYPE`
abbrev pub content : Message → ContentType
content inactive_segments_info_request = ContentType.inactive_segments_info_request
content (inactive_segments_info_response m) = ContentType.inactive_segments_info_response
content (update_prepare_request m) = ContentType.update_prepare_request
content (update_prepare_response m) = ContentType.update_prepare_response
content (write_chunk_request m) = ContentType.write_chunk_request
content (write_chunk_response m) = ContentType.write_chunk_response
content (reboot_request m) = ContentType.reboot_request
content (reboot_response m) = ContentType.reboot_response

-- The fields of type u16 and u32 are in range.
abbrev pub IsMessage : Message → Type 0
IsMessage (inactive_segments_info_response m) = IsSegmentInfo m.ro × IsSegmentInfo m.rw
IsMessage (update_prepare_response m) = m.max_chunk_length < 256 ^ 2
IsMessage (write_chunk_request m) = m.offset < 256 ^ 4
IsMessage (write_chunk_response m) = m.offset < 256 ^ 4
IsMessage _ = Unit {0}

module _ (be : ByteOrder) where
  -- `to_wire` of each message. A request with no field writes nothing.
  unfoldable pub to_wire : Message → Writer
  to_wire inactive_segments_info_request = λ c. ok c
  to_wire (inactive_segments_info_response m) = inactive_segments_info_response_to_wire be m
  to_wire (update_prepare_request m) = update_prepare_request_to_wire m
  to_wire (update_prepare_response m) = update_prepare_response_to_wire be m
  to_wire (write_chunk_request m) = write_chunk_request_to_wire be m
  to_wire (write_chunk_response m) = write_chunk_response_to_wire be m
  to_wire (reboot_request m) = reboot_request_to_wire m
  to_wire (reboot_response m) = reboot_response_to_wire m

  -- `from_wire` of the message that a content type names.
  unfoldable pub from_wire : ContentType → Reader Message
  from_wire ContentType.inactive_segments_info_request = succeed inactive_segments_info_request
  from_wire ContentType.inactive_segments_info_response =
      inactive_segments_info_response_from_wire be >>= λ m.
      succeed (inactive_segments_info_response m)
  from_wire ContentType.update_prepare_request =
      update_prepare_request_from_wire >>= λ m. succeed (update_prepare_request m)
  from_wire ContentType.update_prepare_response =
      update_prepare_response_from_wire be >>= λ m. succeed (update_prepare_response m)
  from_wire ContentType.write_chunk_request =
      write_chunk_request_from_wire be >>= λ m. succeed (write_chunk_request m)
  from_wire ContentType.write_chunk_response =
      write_chunk_response_from_wire be >>= λ m. succeed (write_chunk_response m)
  from_wire ContentType.reboot_request =
      reboot_request_from_wire >>= λ m. succeed (reboot_request m)
  from_wire ContentType.reboot_response =
      reboot_response_from_wire >>= λ m. succeed (reboot_response m)

  -- A header and the message that it announces, as `send_firmware_response` writes them.
  unfoldable pub message_to_wire : Message → Writer
  message_to_wire m = header_to_wire (record { content = content m }) >> to_wire m

  -- The header, and then the message that it announces.
  unfoldable pub message_from_wire : Reader Message
  message_from_wire = header_from_wire >>= λ h. from_wire h.content
