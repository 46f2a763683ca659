-- ===== src/Otpilot/FirmwareController/Inactive.antt =====
-- firmware_controller.rs: which pages are erased, and where a chunk is written.
use tock_on_titan.Common.{
  ℕ, zero, suc, ◌+◌, ◌%◌, ◌^◌, ◌≤◌, ◌<◌, List, ◌∷◌, ◌++◌, true, leb, ltb, inl, inr, ◌≡◌, refl,
  subst, length, take, drop, Bool-cases, arith, take-append,
}
use tock_on_titan.Spiutils.Segment.{SegmentInfo}
use tock_on_titan.Otpilot.Drivers.{
  DriverCall, flash_erase, flash_write, flash_read, wait_operation_done, clear_operation, Drivers,
  State, ◌>>◌, succeed, call, try,
}
use tock_on_titan.Otpilot.Keeps.{
  Keeps, after-bind, Keeps-bind, Keeps-get, Keeps-succeed, Keeps-fail, Keeps-if, Keeps-elim,
  Keeps-read, Keeps-call, after-try,
}
use tock_on_titan.Otpilot.OnlyInactive.{
  IsFlashSegment, InPages, InSegment, Allowed, OnlyInactive, IsInactive, KeepsOnlyInactive,
  call-OnlyInactive, try-OnlyInactive,
}
use tock_on_titan.Otpilot.FirmwareController.{
  FirmwareM, tock, flash_operation_failed, flash_write_error, flash_read_error, last_page,
  check_operation_result, erase_segment_start, erase_next, erase_segment_continue, erase_rest,
  erase_segment, get_write_flash_offset, write_buffered, write_segment_chunk, verify_segment_chunk,
  write_and_verify_segment_chunk,
}

-- The segment that is being erased, and the page erased last.
record Erasing (d : Drivers) (segment : SegmentInfo) (s : State) : Type 0 where
  only_inactive : OnlyInactive d s.calls
  erased_segment : s.firmware.erase_segment ≡ segment
  page : InPages segment s.firmware.erase_page

pub last_page-lem :
    (s : SegmentInfo) → IsFlashSegment s → last_page s + 1 ≡ s.start_page + s.page_count
last_page-lem s h = omega (arith, h.has_page, h.pages_u32)

check-OnlyInactive : (d : Drivers) → KeepsOnlyInactive d (check_operation_result d)
unfolding check_operation_result
check-OnlyInactive d = Keeps-get _ _ (λ flash_op_failed.
    Keeps-bind (call-OnlyInactive d clear_operation tt)
      (λ _. Keeps-if flash_op_failed (Keeps-fail flash_operation_failed) (Keeps-succeed tt)))

module _ (d : Drivers) (segment : SegmentInfo) where
  more-Erasing :
      (c : DriverCall) (s : State)
      → Allowed d c
      → Erasing d segment s
      → Erasing d segment (record s { calls = c ∷ s.calls })
  more-Erasing c s a p = record {
    only_inactive = (a, p.only_inactive);
    erased_segment = p.erased_segment;
    page = p.page;
  }

  check-Erasing : Keeps (Erasing d segment) (check_operation_result d)
  unfolding check_operation_result
  check-Erasing = Keeps-get _ _ (λ flash_op_failed.
      Keeps-bind (Keeps-call clear_operation (λ s p. more-Erasing clear_operation s tt p))
        (λ _. Keeps-if flash_op_failed (Keeps-fail flash_operation_failed) (Keeps-succeed tt)))

  waited :
      {m : FirmwareM (Unit {0})}
      → Keeps (Erasing d segment) m
      → Keeps (Erasing d segment) (call wait_operation_done >> (check_operation_result d >> m))
  waited k =
      Keeps-bind (Keeps-call wait_operation_done (λ s p. more-Erasing wait_operation_done s tt p))
        (λ _. Keeps-bind check-Erasing (λ _. k))

module _ (d : Drivers) (segment : SegmentInfo) (inactive : IsInactive d segment) where
  erase-Allowed : (page : ℕ) → InPages segment page → Allowed d (flash_erase page)
  erase-Allowed page p = elim inactive [
    | inl e ↦ inl (subst (λ s. InPages s page) e p)
    | inr e ↦ inr (subst (λ s. InPages s page) e p)
  ]

  write-Allowed :
      (offset : ℕ) (bytes : List ℕ)
      → InSegment segment offset bytes
      → Allowed d (flash_write offset bytes)
  write-Allowed offset bytes p = elim inactive [
    | inl e ↦ inl (subst (λ s. InSegment s offset bytes) e p)
    | inr e ↦ inr (subst (λ s. InSegment s offset bytes) e p)
  ]

  -- Erasing a page, from a state that has stored it.
  erase_page-Erasing :
      (s : State)
      → OnlyInactive d s.calls
      → s.firmware.erase_segment ≡ segment
      → InPages segment s.firmware.erase_page
      → Erasing d segment (try d tock (flash_erase s.firmware.erase_page) s).1
  erase_page-Erasing s p e h =
      after-try (Erasing d segment) d tock (flash_erase s.firmware.erase_page) s (record {
        only_inactive = (erase-Allowed s.firmware.erase_page h, p);
        erased_segment = e;
        page = h;
      })

  next-Erasing :
      (s : State)
      → Erasing d segment s
      → s.firmware.erase_page + 1 < segment.start_page + segment.page_count
      → Erasing d segment (erase_next d s.firmware.erase_page s).1
  unfolding erase_next
  next-Erasing s p h =
      let s' : State = record s {
        firmware = record s.firmware { erase_page = s.firmware.erase_page + 1 };
      } in
      after-bind (Erasing d segment) (try d tock (flash_erase (s.firmware.erase_page + 1)))
        (λ _. succeed true) s'
        (erase_page-Erasing s' p.only_inactive p.erased_segment (omega (arith, p.page.0), h))
        (λ _. Keeps-succeed true)

  module _ (valid : IsFlashSegment segment) where
    continue-Erasing : Keeps (Erasing d segment) (erase_segment_continue d)
    unfolding erase_segment_continue
    continue-Erasing = record {
      keeps = λ s p.
          let last : last_page s.firmware.erase_segment + 1
              ≡ segment.start_page + segment.page_count =
            rw p.erased_segment (last_page-lem segment valid) in
          elim (Bool-cases (leb (last_page s.firmware.erase_segment) s.firmware.erase_page)) [
            | inl end ↦ rw end p
            | inr more ↦ rw more (next-Erasing s p (ground (arith, last)))
          ];
    }

    rest-Erasing : (fuel : ℕ) → Keeps (Erasing d segment) (erase_rest d fuel)
    unfolding erase_rest
    rest-Erasing zero = record { keeps = λ s p. p }
    rest-Erasing (suc fuel) =
        Keeps-bind continue-Erasing
          (λ more. Keeps-elim more (waited d segment (rest-Erasing fuel)) (Keeps-succeed tt))

    started-Erasing :
        (s : State) → OnlyInactive d s.calls → Erasing d segment (erase_segment_start d segment s).1
    unfolding erase_segment_start
    started-Erasing s p =
        let s' : State = record s {
          firmware = record s.firmware { erase_segment = segment; erase_page = segment.start_page };
        } in
        erase_page-Erasing s' p refl (omega arith, omega (arith, valid.has_page))

    pub erase_segment-OnlyInactive : KeepsOnlyInactive d (erase_segment d segment)
    unfolding erase_segment
    erase_segment-OnlyInactive = record {
      keeps = λ s p.
          let fuel : ℕ = suc (last_page segment) in
          let erasing : Erasing d segment (erase_segment d segment s).1 =
            after-bind (Erasing d segment) (erase_segment_start d segment)
              (λ _. call wait_operation_done >> (check_operation_result d >> erase_rest d fuel)) s
              (started-Erasing s p) (λ _. waited d segment (rest-Erasing fuel)) in
          erasing.only_inactive;
    }

    module _ (offset : ℕ) (chunk : List ℕ) (within : offset < segment.size)
        (fits : offset + length chunk ≤ segment.size) (short : length chunk ≤ 128) where
      buffered-OnlyInactive :
          (s : State)
          → OnlyInactive d s.calls
          → s.firmware.write_segment ≡ segment
          → s.firmware.write_offset ≡ offset
          → s.firmware.write_length ≡ length chunk
          → OnlyInactive d (write_buffered d chunk s).1.calls
      unfolding write_buffered get_write_flash_offset
      buffered-OnlyInactive s p e o l =
          let s' : State = record s { write_buf = chunk ++ drop (length chunk) s.write_buf } in
          let written : take s.firmware.write_length s'.write_buf ≡ chunk =
            rw l (take-append {0} chunk (drop (length chunk) s.write_buf)) in
          let room : (segment.address + offset) % 2 ^ 32 ≡ segment.address + offset =
            omega (arith, valid.end_u32) in
          let place : get_write_flash_offset s.firmware ≡ segment.address + offset =
            rw (e, o) room in
          let inside : InSegment segment (segment.address + offset) chunk =
            (omega arith, omega arith, short) in
          let allowed : Allowed d (
              flash_write (get_write_flash_offset s.firmware)
                (take s.firmware.write_length s'.write_buf)) =
            rw (place, written) (write-Allowed (segment.address + offset) chunk inside) in
          after-try (λ s. OnlyInactive d s.calls) d flash_write_error _ s' (allowed, p)

      chunk-OnlyInactive : KeepsOnlyInactive d (write_segment_chunk d segment offset chunk)
      unfolding write_segment_chunk
      chunk-OnlyInactive = record {
        keeps = λ s p. elim (Bool-cases (ltb (length s.write_buf) (length chunk))) [
          | inl b ↦ rw b p
          | inr b ↦ rw b (buffered-OnlyInactive _ p refl refl refl)
        ];
      }

      verify-OnlyInactive : KeepsOnlyInactive d (verify_segment_chunk d)
      unfolding verify_segment_chunk
      verify-OnlyInactive =
          Keeps-get (λ s. s.firmware) _
            (λ f.
              Keeps-bind
                (try-OnlyInactive d flash_read_error
                  (flash_read (get_write_flash_offset f) f.write_length) tt)
                (λ _. Keeps-read _))

      pub write-OnlyInactive :
          KeepsOnlyInactive d (write_and_verify_segment_chunk d segment offset chunk)
      unfolding write_and_verify_segment_chunk
      write-OnlyInactive = Keeps-bind chunk-OnlyInactive (λ _.
          Keeps-bind (call-OnlyInactive d wait_operation_done tt)
            (λ _. Keeps-bind (check-OnlyInactive d) (λ _. verify-OnlyInactive)))
