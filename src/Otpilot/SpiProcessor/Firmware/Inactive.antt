-- ===== src/Otpilot/SpiProcessor/Firmware/Inactive.antt =====
-- spi_processor.rs: what a firmware request erases and writes.
use tock_on_titan.Common.{
  ℕ, ◌+◌, ◌%◌, ◌^◌, ◌≤◌, List, false, leb, ltb, ◌||◌, none, some, ◌⊎◌, inl, inr, ◌≡◌, refl, length,
  Bool-cases, arith,
}
use tock_on_titan.Spiutils.Io.{ByteOrder}
use tock_on_titan.Spiutils.Segment.{SegmentInfo}
use tock_on_titan.Spiutils.Firmware.Enums.{ContentType, SegmentAndLocation, RebootTime}
use tock_on_titan.Spiutils.Firmware.Messages.{UpdatePrepareRequest, WriteChunkRequest}
use tock_on_titan.Otpilot.Drivers.{Drivers, State, Outcome, done, failed, panicked, unfinished}
use tock_on_titan.Otpilot.Keeps.{Keeps, Keeps-bind, Keeps-succeed, Keeps-fail, Keeps-Option}
use tock_on_titan.Otpilot.OnlyInactive.{IsFlashSegment, IsInactive, KeepsOnlyInactive}
use tock_on_titan.Otpilot.FirmwareController.{FirmwareControllerError, FirmwareM}
use tock_on_titan.Otpilot.FirmwareController.Inactive.{
  erase_segment-OnlyInactive, write-OnlyInactive,
}
use tock_on_titan.Otpilot.SpiProcessor.Inactive.{parse-OnlyInactive}
use tock_on_titan.Otpilot.SpiProcessor.Response.Inactive.{response-OnlyInactive}
use tock_on_titan.Otpilot.SpiProcessor.Firmware.{
  same_segment, outcome, outcome_of, find_inactive, reboot, send_update_prepare,
  send_firmware_write_chunk_response, send_firmware_reboot_response,
  process_firmware_inactive_segments, prepare_segment, process_firmware_update_prepare, write_chunk,
  process_firmware_write_chunk, process_firmware_reboot, process_request_of, process_firmware,
}

chunk_fits :
    (offset n size : ℕ)
    → size + 128 ≤ 2 ^ 32
    → leb size offset ≡ false
    → ltb size ((offset + n) % 2 ^ 32) || ltb 128 n ≡ false
    → (offset + n ≤ size) × (n ≤ 128)
chunk_fits offset n size room b h = elim (Bool-cases (ltb 128 n)) [
  | inl long ↦ ground arith
  | inr short ↦ (ground arith, ground arith)
]

outcome-state : {A : Type 0} (r : Outcome FirmwareControllerError A × State) → (outcome r).1 ≡ r.1
unfolding outcome
outcome-state (done a, s) = refl
outcome-state (failed e, s) = refl
outcome-state (panicked, s) = refl
outcome-state (unfinished, s) = refl

outcome-Keeps :
    {A : Type 0} {P : State → Type 0} {m : FirmwareM A} → Keeps P m → Keeps P (outcome_of m)
unfolding outcome_of
outcome-Keeps {m = m} k = record { keeps = λ s p. rw (outcome-state (m s)) (k.keeps s p) }

module _ (d : Drivers) where
  find_inactive-cases :
      (segment : SegmentAndLocation)
      → (find_inactive d segment ≡ none)
        ⊎ ((s : SegmentInfo) × IsInactive d s × (find_inactive d segment ≡ some s))
  unfolding find_inactive
  find_inactive-cases segment = elim (Bool-cases (same_segment segment d.inactive_rw.identifier)) [
    | inl e ↦ inr (d.inactive_rw, inr refl, rw e)
    | inr e ↦ elim (Bool-cases (same_segment segment d.inactive_ro.identifier)) [
      | inl h ↦ inr (d.inactive_ro, inl refl, rw (e, h))
      | inr h ↦ inl (rw (e, h))
    ]
  ]

  reboot-OnlyInactive : (t : RebootTime) → KeepsOnlyInactive d (reboot d t)
  unfolding reboot
  reboot-OnlyInactive RebootTime.immediate = record { keeps = λ s h. (tt, h) }
  reboot-OnlyInactive RebootTime.delayed = Keeps-succeed _

module _ (be : ByteOrder) (d : Drivers) (ro : IsFlashSegment d.inactive_ro)
    (rw_segment : IsFlashSegment d.inactive_rw) where
  valid : (s : SegmentInfo) → IsInactive d s → IsFlashSegment s
  valid s (inl e) = rw e ro
  valid s (inr e) = rw e rw_segment

  prepare-OnlyInactive :
      (req : UpdatePrepareRequest) (s : SegmentInfo)
      → IsInactive d s
      → KeepsOnlyInactive d (prepare_segment be d req s)
  unfolding prepare_segment send_update_prepare
  prepare-OnlyInactive req s h =
      Keeps-bind (outcome-Keeps (erase_segment-OnlyInactive d s h (valid s h))) (λ erased.
        Keeps-Option erased (λ _. response-OnlyInactive be d _) (response-OnlyInactive be d _))

  update_prepare-OnlyInactive :
      (bytes : List ℕ) → KeepsOnlyInactive d (process_firmware_update_prepare be d bytes)
  unfolding process_firmware_update_prepare send_update_prepare
  update_prepare-OnlyInactive bytes = Keeps-bind (parse-OnlyInactive d _ bytes) (λ r.
      elim (find_inactive-cases d r.0.segment) [
        | inl e ↦ rw e (response-OnlyInactive be d _)
        | inr (s, h, e) ↦ rw e (prepare-OnlyInactive r.0 s h)
      ])

  write_chunk-OnlyInactive :
      (req : WriteChunkRequest) (s : SegmentInfo)
      → IsInactive d s
      → KeepsOnlyInactive d (write_chunk be d req s)
  unfolding write_chunk send_firmware_write_chunk_response
  write_chunk-OnlyInactive req s h =
      let v = valid s h in
      elim (Bool-cases (leb s.size req.offset)) [
        | inl b ↦ rw b (response-OnlyInactive be d _)
        | inr b ↦
            elim (Bool-cases (
              ltb s.size ((req.offset + length req.chunk) % 2 ^ 32)
              || ltb 128 (length req.chunk))) [
                | inl l ↦ rw (b, l) (response-OnlyInactive be d _)
                | inr l ↦
                    let room = chunk_fits req.offset (length req.chunk) s.size v.chunk_u32 b l in
                    rw (b, l)
                      (Keeps-bind
                        (outcome-Keeps (
                          write-OnlyInactive d s h v req.offset req.chunk (ground arith) room.0
                            room.1))
                        (λ _. response-OnlyInactive be d _))
              ]
      ]

  write_chunk_request-OnlyInactive :
      (bytes : List ℕ) → KeepsOnlyInactive d (process_firmware_write_chunk be d bytes)
  unfolding process_firmware_write_chunk send_firmware_write_chunk_response
  write_chunk_request-OnlyInactive bytes = Keeps-bind (parse-OnlyInactive d _ bytes) (λ r.
      elim (find_inactive-cases d r.0.segment) [
        | inl e ↦ rw e (response-OnlyInactive be d _)
        | inr (s, h, e) ↦ rw e (write_chunk-OnlyInactive r.0 s h)
      ])

  reboot_request-OnlyInactive :
      (bytes : List ℕ) → KeepsOnlyInactive d (process_firmware_reboot be d bytes)
  unfolding process_firmware_reboot send_firmware_reboot_response
  reboot_request-OnlyInactive bytes =
      Keeps-bind (parse-OnlyInactive d _ bytes)
        (λ r. Keeps-bind (reboot-OnlyInactive d r.0.time) (λ _. response-OnlyInactive be d _))

  request-OnlyInactive :
      (c : ContentType) (bytes : List ℕ) → KeepsOnlyInactive d (process_request_of be d c bytes)
  unfolding process_request_of process_firmware_inactive_segments
  request-OnlyInactive ContentType.inactive_segments_info_request bytes =
      response-OnlyInactive be d _
  request-OnlyInactive ContentType.update_prepare_request bytes = update_prepare-OnlyInactive bytes
  request-OnlyInactive ContentType.write_chunk_request bytes =
      write_chunk_request-OnlyInactive bytes
  request-OnlyInactive ContentType.reboot_request bytes = reboot_request-OnlyInactive bytes
  request-OnlyInactive ContentType.inactive_segments_info_response bytes = Keeps-fail _
  request-OnlyInactive ContentType.update_prepare_response bytes = Keeps-fail _
  request-OnlyInactive ContentType.write_chunk_response bytes = Keeps-fail _
  request-OnlyInactive ContentType.reboot_response bytes = Keeps-fail _

  pub firmware-OnlyInactive : (bytes : List ℕ) → KeepsOnlyInactive d (process_firmware be d bytes)
  unfolding process_firmware
  firmware-OnlyInactive bytes =
      Keeps-bind (parse-OnlyInactive d _ bytes) (λ r. request-OnlyInactive r.0.content r.1)
