-- ===== src/Otpilot/FirmwareController/Ends.antt =====
-- firmware_controller.rs: erasing a segment and writing a chunk come to an end.
use tock_on_titan.Common.{
  ℕ, zero, suc, ◌+◌, ◌≤◌, List, Bool, true, false, leb, ltb, inl, inr, ◌≡◌, refl, subst, ◌∷◌,
  length, Bool-cases, arith,
}
use tock_on_titan.Spiutils.Segment.{SegmentInfo}
use tock_on_titan.Otpilot.Drivers.{
  flash_erase, flash_read, wait_operation_done, clear_operation, Drivers, State, ◌>>=◌, ◌>>◌,
  succeed, call, try,
}
use tock_on_titan.Otpilot.Ends.{
  Post, Ends, Any, AlwaysEnds, Ends-bind, Ends-get, Ends-fail, Ends-panic, Ends-succeed,
  AlwaysEnds-succeed, Ends-if, Ends-call, Ends-try,
}
use tock_on_titan.Otpilot.FirmwareController.{
  FirmwareControllerError, FirmwareM, tock, flash_operation_failed, flash_write_error,
  flash_read_error, last_page, check_operation_result, erase_segment_start, erase_next,
  erase_segment_continue, erase_rest, erase_segment, get_write_flash_offset, write_buffered,
  write_segment_chunk, verify_segment_chunk, write_and_verify_segment_chunk,
}

-- So many pages of the segment that is being erased may still have to be erased.
record Left (n : ℕ) (s : State) : Type 0 where
  left : last_page s.firmware.erase_segment ≤ s.firmware.erase_page + n

Left-same : (n : ℕ) (s t : State) → s.firmware ≡ t.firmware → Left n s → Left n t
Left-same n s t e p = record {
  left = subst (λ f. last_page f.erase_segment ≤ f.erase_page + n) e p.left;
}

-- After a round, with `n` pages left before it.
abbrev Continued : ℕ → Bool → State → Type 0
Continued zero false s = Unit {0}
Continued zero true s = ⊥
Continued (suc n) false s = Unit {0}
Continued (suc n) true s = Left n s

stopped : (n : ℕ) (s : State) → Continued n false s
stopped zero s = tt
stopped (suc n) s = tt

Continued-elim :
    (n : ℕ) (more : Bool) {m : FirmwareM (Unit {0})}
    → ((k : ℕ) → n ≡ suc k → Ends (Left k) m (λ _. Any))
    → Ends {E = FirmwareControllerError}
        (Continued n more)
        (elim more [ true ↦ m | false ↦ succeed tt ])
        (λ _. Any)
Continued-elim zero false h = AlwaysEnds-succeed tt
Continued-elim (suc n) false h = AlwaysEnds-succeed tt
Continued-elim zero true h = record { ends = λ s p. absurd p }
Continued-elim (suc n) true h = h n refl

module _ (d : Drivers) where
  check-Ends :
      (P : State → Type 0)
      → ((s : State) → P s → P (record s { calls = clear_operation ∷ s.calls }))
      → Ends P (check_operation_result d) (λ _. P)
  unfolding check_operation_result
  check-Ends P h =
      Ends-get (λ s. d.operation_failed s.calls) _
        (λ flash_op_failed. Ends-bind (Ends-call P clear_operation h) (λ _.
          Ends-if flash_op_failed (Ends-fail flash_operation_failed) (Ends-succeed tt (λ s p. p))))

  waited :
      {n : ℕ} {m : FirmwareM (Unit {0})}
      → Ends (Left n) m (λ _. Any)
      → Ends (Left n) (call wait_operation_done >> (check_operation_result d >> m)) (λ _. Any)
  waited {n} k =
      Ends-bind (Ends-call (Left n) wait_operation_done (λ s. Left-same n s _ refl))
        (λ _. Ends-bind (check-Ends (Left n) (λ s. Left-same n s _ refl)) (λ _. k))

  next-Ends :
      (n : ℕ) (s : State)
      → Left (suc n) s
      → Post
          (Continued (suc n))
          (erase_next d s.firmware.erase_page s).0
          (erase_next d s.firmware.erase_page s).1
  unfolding erase_next
  next-Ends n s p =
      let page : ℕ = s.firmware.erase_page + 1 in
      let s' : State = record s { firmware = record s.firmware { erase_page = page } } in
      let left : Left n s' = record { left = omega (arith, p.left) } in
      let next : Ends (Left n) (try d tock (flash_erase page) >> succeed true) (Continued (suc n)) =
        Ends-bind (Ends-try (Left n) d tock (flash_erase page) (λ s. Left-same n s _ refl))
          (λ _. Ends-succeed true (λ s p. p)) in
      next.ends s' left

  continue-Ends : (n : ℕ) → Ends (Left n) (erase_segment_continue d) (Continued n)
  unfolding erase_segment_continue
  continue-Ends n = record {
    ends = λ s p.
        elim (Bool-cases (leb (last_page s.firmware.erase_segment) s.firmware.erase_page)) [
          | inl end ↦ rw (end, Post) (stopped n s)
          | inr more ↦ rw more (next n s more p)
        ];
  }
    where
      next :
          (n : ℕ) (s : State)
          → leb (last_page s.firmware.erase_segment) s.firmware.erase_page ≡ false
          → Left n s
          → Post
              (Continued n)
              (erase_next d s.firmware.erase_page s).0
              (erase_next d s.firmware.erase_page s).1
      next zero s more p = absurd (ground (arith, p.left))
      next (suc n) s more p = next-Ends n s p

  rest-Ends : (n : ℕ) → Ends (Left n) (erase_rest d (suc n)) (λ _. Any)
  unfolding erase_rest
  rest-Ends zero =
      Ends-bind (continue-Ends zero)
        (λ more. Continued-elim zero more (λ k e. absurd (omega (arith, e))))
  rest-Ends (suc n) = Ends-bind (continue-Ends (suc n)) (λ more. Continued-elim (suc n) more (λ k e.
      let same : n ≡ k = omega (arith, e) in
      waited (subst (λ j. Ends (Left j) (erase_rest d (suc n)) (λ _. Any)) same (rest-Ends n))))

  pub erase_segment-Ends : (segment : SegmentInfo) → AlwaysEnds (erase_segment d segment)
  unfolding erase_segment erase_segment_start
  erase_segment-Ends segment = record {
    ends = λ s p.
        let n : ℕ = last_page segment in
        let s' : State = record s {
          firmware = record s.firmware { erase_segment = segment; erase_page = segment.start_page };
        } in
        let left : Left n s' = record { left = omega arith } in
        let erased : Ends (Left n)
            (try d tock (flash_erase segment.start_page) >>= λ _.
              call wait_operation_done >> (check_operation_result d >> erase_rest d (suc n)))
            (λ _. Any) =
          Ends-bind
            (Ends-try (Left n) d tock (flash_erase segment.start_page) (λ s. Left-same n s _ refl))
            (λ _. waited (rest-Ends n)) in
        erased.ends s' left;
  }

  buffered-Ends : (chunk : List ℕ) → AlwaysEnds (write_buffered d chunk)
  unfolding write_buffered
  buffered-Ends chunk = record {
    ends = λ s p. let wrote = Ends-try Any d flash_write_error _ (λ s p. p) in wrote.ends _ tt;
  }

  chunk-Ends :
      (segment : SegmentInfo) (offset : ℕ) (chunk : List ℕ)
      → AlwaysEnds (write_segment_chunk d segment offset chunk)
  unfolding write_segment_chunk
  chunk-Ends segment offset chunk = record {
    ends = λ s p.
        (Ends-if (ltb (length s.write_buf) (length chunk)) Ends-panic (buffered-Ends chunk)).ends _
          tt;
  }

  verify-Ends : AlwaysEnds (verify_segment_chunk d)
  unfolding verify_segment_chunk
  verify-Ends =
      Ends-get (λ s. s.firmware) _
        (λ f.
          Ends-bind
            (Ends-try Any d flash_read_error (flash_read (get_write_flash_offset f) f.write_length)
              (λ s p. p))
            (λ _. record { ends = λ s p. tt }))

  pub write-Ends :
      (segment : SegmentInfo) (offset : ℕ) (chunk : List ℕ)
      → AlwaysEnds (write_and_verify_segment_chunk d segment offset chunk)
  unfolding write_and_verify_segment_chunk
  write-Ends segment offset chunk = Ends-bind (chunk-Ends segment offset chunk) (λ _.
      Ends-bind (Ends-call Any wait_operation_done (λ s p. p))
        (λ _. Ends-bind (check-Ends Any (λ s p. p)) (λ _. verify-Ends)))
