-- ===== src/Otpilot/SpiProcessor/Firmware/Ends.antt =====
-- spi_processor.rs: a firmware request comes to an end.
use tock_on_titan.Common.{ℕ, ◌+◌, ◌%◌, ◌^◌, List, leb, ltb, ◌||◌, length}
use tock_on_titan.Spiutils.Io.{ByteOrder}
use tock_on_titan.Spiutils.Segment.{SegmentInfo}
use tock_on_titan.Spiutils.Firmware.Enums.{ContentType, RebootTime}
use tock_on_titan.Spiutils.Firmware.Messages.{UpdatePrepareRequest, WriteChunkRequest}
use tock_on_titan.Otpilot.Drivers.{Drivers, State, Outcome, done, failed, panicked, unfinished}
use tock_on_titan.Otpilot.Ends.{
  Post, Any, AlwaysEnds, Ends-bind, Ends-fail, AlwaysEnds-succeed, Ends-if, Ends-Option,
}
use tock_on_titan.Otpilot.FirmwareController.{
  FirmwareControllerError, FirmwareM, get_max_write_chunk_length,
}
use tock_on_titan.Otpilot.FirmwareController.Ends.{erase_segment-Ends, write-Ends}
use tock_on_titan.Otpilot.SpiProcessor.Ends.{parse-Ends}
use tock_on_titan.Otpilot.SpiProcessor.Response.Ends.{response-Ends}
use tock_on_titan.Otpilot.SpiProcessor.Firmware.{
  outcome, outcome_of, find_inactive, reboot, send_update_prepare,
  send_firmware_write_chunk_response, send_firmware_reboot_response,
  process_firmware_inactive_segments, prepare_segment, process_firmware_update_prepare, write_chunk,
  process_firmware_write_chunk, process_firmware_reboot, process_request_of, process_firmware,
}

outcome-Post :
    {A : Type 0} (r : Outcome FirmwareControllerError A) (s : State)
    → Post (λ a. Any) r s
    → Post (λ a. Any) (outcome (r, s)).0 (outcome (r, s)).1
unfolding outcome
outcome-Post (done a) s p = tt
outcome-Post (failed e) s p = tt
outcome-Post panicked s p = tt
outcome-Post unfinished s p = absurd p

outcome-Ends : {A : Type 0} {m : FirmwareM A} → AlwaysEnds m → AlwaysEnds (outcome_of m)
unfolding outcome_of
outcome-Ends {m = m} k = record { ends = λ s p. outcome-Post (m s).0 (m s).1 (k.ends s p) }

module _ (d : Drivers) where
  reboot-Ends : (t : RebootTime) → AlwaysEnds (reboot d t)
  unfolding reboot
  reboot-Ends RebootTime.immediate = record { ends = λ s h. tt }
  reboot-Ends RebootTime.delayed = AlwaysEnds-succeed _

module _ (be : ByteOrder) (d : Drivers) where
  prepare-Ends :
      (req : UpdatePrepareRequest) (s : SegmentInfo) → AlwaysEnds (prepare_segment be d req s)
  unfolding prepare_segment send_update_prepare
  prepare-Ends req s =
      Ends-bind (outcome-Ends (erase_segment-Ends d s))
        (λ erased. Ends-Option erased (λ _. response-Ends be d _) (response-Ends be d _))

  update_prepare-Ends : (bytes : List ℕ) → AlwaysEnds (process_firmware_update_prepare be d bytes)
  unfolding process_firmware_update_prepare send_update_prepare
  update_prepare-Ends bytes =
      Ends-bind (parse-Ends _ bytes)
        (λ r. Ends-Option (find_inactive d r.0.segment) (prepare-Ends r.0) (response-Ends be d _))

  write_chunk-Ends :
      (req : WriteChunkRequest) (s : SegmentInfo) → AlwaysEnds (write_chunk be d req s)
  unfolding write_chunk send_firmware_write_chunk_response
  write_chunk-Ends req s = Ends-if (leb s.size req.offset) (response-Ends be d _) (
      Ends-if
        (ltb s.size ((req.offset + length req.chunk) % 2 ^ 32)
          || ltb get_max_write_chunk_length (length req.chunk))
        (response-Ends be d _)
        (Ends-bind (outcome-Ends (write-Ends d s req.offset req.chunk))
          (λ _. response-Ends be d _)))

  write_chunk_request-Ends : (bytes : List ℕ) → AlwaysEnds (process_firmware_write_chunk be d bytes)
  unfolding process_firmware_write_chunk send_firmware_write_chunk_response
  write_chunk_request-Ends bytes =
      Ends-bind (parse-Ends _ bytes) (λ r.
        Ends-Option (find_inactive d r.0.segment) (write_chunk-Ends r.0) (response-Ends be d _))

  reboot_request-Ends : (bytes : List ℕ) → AlwaysEnds (process_firmware_reboot be d bytes)
  unfolding process_firmware_reboot send_firmware_reboot_response
  reboot_request-Ends bytes =
      Ends-bind (parse-Ends _ bytes)
        (λ r. Ends-bind (reboot-Ends d r.0.time) (λ _. response-Ends be d _))

  request-Ends : (c : ContentType) (bytes : List ℕ) → AlwaysEnds (process_request_of be d c bytes)
  unfolding process_request_of process_firmware_inactive_segments
  request-Ends ContentType.inactive_segments_info_request bytes = response-Ends be d _
  request-Ends ContentType.update_prepare_request bytes = update_prepare-Ends bytes
  request-Ends ContentType.write_chunk_request bytes = write_chunk_request-Ends bytes
  request-Ends ContentType.reboot_request bytes = reboot_request-Ends bytes
  request-Ends ContentType.inactive_segments_info_response bytes = Ends-fail _
  request-Ends ContentType.update_prepare_response bytes = Ends-fail _
  request-Ends ContentType.write_chunk_response bytes = Ends-fail _
  request-Ends ContentType.reboot_response bytes = Ends-fail _

  pub firmware-Ends : (bytes : List ℕ) → AlwaysEnds (process_firmware be d bytes)
  unfolding process_firmware
  firmware-Ends bytes = Ends-bind (parse-Ends _ bytes) (λ r. request-Ends r.0.content r.1)
