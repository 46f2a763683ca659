-- ===== src/Otpilot/SpiProcessor/Firmware.antt =====
-- spi_processor.rs: the firmware requests.
pub mod Inactive
pub mod Ends
use tock_on_titan.Common.{
  ℕ, ◌+◌, ◌%◌, ◌^◌, List, Bool, true, false, Option, none, some, ◌==◌, leb, ltb, ◌||◌, length,
  if◌then◌else◌,
}
use tock_on_titan.Spiutils.Io.{ByteOrder}
use tock_on_titan.Spiutils.Segment.{SegmentInfo}
use tock_on_titan.Spiutils.Firmware.Enums.{
  ContentType, SegmentAndLocation, segment_and_location, UpdatePrepareResult, WriteChunkResult,
  RebootTime, RebootResult,
}
use tock_on_titan.Spiutils.Firmware.Messages.{
  InactiveSegmentsInfoResponse, UpdatePrepareRequest, WriteChunkRequest, RebootRequest,
  header_from_wire, update_prepare_request_from_wire, write_chunk_request_from_wire,
  reboot_request_from_wire,
}
use tock_on_titan.Spiutils.Firmware.Message.{
  inactive_segments_info_response, update_prepare_response, write_chunk_response, reboot_response,
}
use tock_on_titan.Otpilot.Drivers.{
  DriverCall, reset, Drivers, State, Outcome, done, failed, panicked, unfinished, M, ◌>>=◌, ◌>>◌,
  succeed, fail, call, get,
}
use tock_on_titan.Otpilot.FirmwareController.{
  FirmwareControllerError, FirmwareM, erase_segment, write_and_verify_segment_chunk,
  get_max_write_chunk_length,
}
use tock_on_titan.Otpilot.SpiProcessor.{
  SpiProcessorError, unsupported_firmware_operation, SpiProcessorM, parse,
}
use tock_on_titan.Otpilot.SpiProcessor.Response.{send_firmware_response}

-- The derived `PartialEq` of `SegmentAndLocation`, whose values on the wire differ.
unfoldable pub same_segment : SegmentAndLocation → SegmentAndLocation → Bool
same_segment a b = segment_and_location.to_wire_value a == segment_and_location.to_wire_value b

-- Of an outcome and the state after it.
outcome :
    {A : Type 0}
    → Outcome FirmwareControllerError A × State
    → Outcome SpiProcessorError (Option A) × State
outcome (done a, s) = (done (some a), s)
outcome (failed e, s) = (done none, s)
outcome (panicked, s) = (panicked, s)
outcome (unfinished, s) = (unfinished, s)

-- `match self.firmware...`: the outcome of the firmware controller is a value, its error included;
-- a panic stays one.
unfoldable pub outcome_of : {A : Type 0} → FirmwareM A → SpiProcessorM (Option A)
unfolding outcome
outcome_of m s = outcome (m s)

module _ (d : Drivers) where
  -- The inactive segment of that identifier, if it is one.
  unfoldable pub find_inactive : SegmentAndLocation → Option SegmentInfo
  find_inactive segment =
      if same_segment segment d.inactive_rw.identifier
      then some d.inactive_rw
      else if same_segment segment d.inactive_ro.identifier
      then some d.inactive_ro
      else none

  -- What a request to reboot does: a delayed reboot is not implemented, and fails.
  unfoldable pub reboot : RebootTime → SpiProcessorM RebootResult
  reboot RebootTime.immediate = do
    call reset
    accepted ← get (λ s. d.succeeds s.calls)
    succeed (if accepted then RebootResult.success else RebootResult.error)
  reboot RebootTime.delayed = succeed RebootResult.error

module _ (be : ByteOrder) (d : Drivers) where
  -- The request has no field, and reading it takes nothing.
  unfoldable pub process_firmware_inactive_segments : List ℕ → SpiProcessorM (Unit {0})
  process_firmware_inactive_segments bytes =
      send_firmware_response be d
        (inactive_segments_info_response (record { ro = d.inactive_ro; rw = d.inactive_rw }))

  send_update_prepare : SegmentAndLocation → ℕ → UpdatePrepareResult → SpiProcessorM (Unit {0})
  send_update_prepare segment max_chunk_length result = send_firmware_response be d (
      update_prepare_response
        (record { segment = segment; max_chunk_length = max_chunk_length; result = result }))

  -- The segment of the request is inactive.
  prepare_segment : UpdatePrepareRequest → SegmentInfo → SpiProcessorM (Unit {0})
  unfolding send_update_prepare
  prepare_segment req segment = do
    erased ← outcome_of (erase_segment d segment)
    elim erased [
      | some _ ↦
          send_update_prepare req.segment (get_max_write_chunk_length % 2 ^ 16)
            UpdatePrepareResult.success
      | none ↦ send_update_prepare req.segment 0 UpdatePrepareResult.error
    ]

  unfoldable pub process_firmware_update_prepare : List ℕ → SpiProcessorM (Unit {0})
  unfolding prepare_segment
  process_firmware_update_prepare bytes = do
    r ← parse update_prepare_request_from_wire bytes
    elim (find_inactive d r.0.segment) [
      | some segment ↦ prepare_segment r.0 segment
      | none ↦ send_update_prepare r.0.segment 0 UpdatePrepareResult.invalid_segment_and_location
    ]

  unfoldable pub send_firmware_write_chunk_response :
      WriteChunkRequest → WriteChunkResult → SpiProcessorM (Unit {0})
  send_firmware_write_chunk_response req result = send_firmware_response be d (
      write_chunk_response (record { segment = req.segment; offset = req.offset; result = result }))

  result_of_write : Option Bool → WriteChunkResult
  result_of_write none = WriteChunkResult.error
  result_of_write (some false) = WriteChunkResult.compare_failed
  result_of_write (some true) = WriteChunkResult.success

  -- The segment of the request is inactive.
  write_chunk : WriteChunkRequest → SegmentInfo → SpiProcessorM (Unit {0})
  unfolding send_firmware_write_chunk_response result_of_write
  write_chunk req segment =
      if leb segment.size req.offset
      then send_firmware_write_chunk_response req WriteChunkResult.invalid_offset
      else if ltb segment.size ((req.offset + length req.chunk) % 2 ^ 32)
          || ltb get_max_write_chunk_length (length req.chunk)
      then send_firmware_write_chunk_response req WriteChunkResult.data_too_long
      else outcome_of (write_and_verify_segment_chunk d segment req.offset req.chunk) >>= λ written.
          send_firmware_write_chunk_response req (result_of_write written)

  unfoldable pub process_firmware_write_chunk : List ℕ → SpiProcessorM (Unit {0})
  unfolding write_chunk
  process_firmware_write_chunk bytes = do
    r ← parse (write_chunk_request_from_wire be) bytes
    elim (find_inactive d r.0.segment) [
      | some segment ↦ write_chunk r.0 segment
      | none ↦ send_firmware_write_chunk_response r.0 WriteChunkResult.invalid_segment_and_location
    ]

  unfoldable pub send_firmware_reboot_response :
      RebootRequest → RebootResult → SpiProcessorM (Unit {0})
  send_firmware_reboot_response req result =
      send_firmware_response be d (reboot_response (record { time = req.time; result = result }))

  unfoldable pub process_firmware_reboot : List ℕ → SpiProcessorM (Unit {0})
  unfolding reboot send_firmware_reboot_response
  process_firmware_reboot bytes = do
    r ← parse reboot_request_from_wire bytes
    result ← reboot d r.0.time
    send_firmware_reboot_response r.0 result

  process_request_of : ContentType → List ℕ → SpiProcessorM (Unit {0})
  process_request_of ContentType.inactive_segments_info_request bytes =
      process_firmware_inactive_segments bytes
  process_request_of ContentType.update_prepare_request bytes =
      process_firmware_update_prepare bytes
  process_request_of ContentType.write_chunk_request bytes = process_firmware_write_chunk bytes
  process_request_of ContentType.reboot_request bytes = process_firmware_reboot bytes
  process_request_of content bytes = fail (unsupported_firmware_operation content)

  unfoldable pub process_firmware : List ℕ → SpiProcessorM (Unit {0})
  unfolding process_request_of
  process_firmware bytes = do r ← parse header_from_wire bytes; process_request_of r.0.content r.1
