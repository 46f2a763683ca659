-- ===== src/Otpilot/FirmwareController/Pages.antt =====
-- firmware_controller.rs: which pages an erase of a segment erases, and in which order.
use tock_on_titan.Common.{
  ℕ, zero, suc, ◌+◌, ◌-◌, ◌≤◌, ◌<◌, List, [], ◌∷◌, ◌++◌, true, false, leb, ◌≡◌, refl, ap, ◌∙◌,
  subst, arith,
}
use tock_on_titan.Spiutils.Segment.{SegmentInfo}
use tock_on_titan.Otpilot.Drivers.{
  DriverCall, flash_erase, wait_operation_done, clear_operation, Drivers, State, done, ◌>>◌,
  succeed, call, try,
}
use tock_on_titan.Otpilot.Keeps.{bind-done}
use tock_on_titan.Otpilot.OnlyInactive.{IsFlashSegment}
use tock_on_titan.Otpilot.FirmwareController.{
  FirmwareControllerError, FirmwareM, tock, last_page, check_operation_result, erase_segment_start,
  erase_next, erase_segment_continue, erase_rest, erase_segment,
}
use tock_on_titan.Otpilot.FirmwareController.Inactive.{last_page-lem}

-- The pages that have been erased, newest first.
abbrev pub erased_pages : List DriverCall → List ℕ
erased_pages [] = []
erased_pages (flash_erase page ∷ calls) = page ∷ erased_pages calls
erased_pages (_ ∷ calls) = erased_pages calls

-- The pages from `first` on, `n` of them, the last one first.
abbrev pub pages_from : ℕ → ℕ → List ℕ
pages_from first zero = []
pages_from first (suc n) = (first + n) ∷ pages_from first n

module _ (d : Drivers) (accepts : (calls : List DriverCall) → d.succeeds calls ≡ true)
    (works : (calls : List DriverCall) → d.operation_failed calls ≡ false) where
  try-done :
      (e : FirmwareControllerError) (c : DriverCall) (s : State)
      → try d e c s ≡ (done tt, record s { calls = c ∷ s.calls })
  try-done e c s = rw (accepts (c ∷ s.calls))

  check-done :
      (s : State)
      → check_operation_result d s ≡ (done tt, record s { calls = clear_operation ∷ s.calls })
  unfolding check_operation_result
  check-done s = rw (works s.calls)

  waited : State → State
  waited s = record s { calls = clear_operation ∷ wait_operation_done ∷ s.calls }

  waited-done :
      (m : FirmwareM (Unit {0})) (s : State)
      → (call wait_operation_done >> (check_operation_result d >> m)) s ≡ m (waited s)
  unfolding waited
  waited-done m s =
      let s' : State = record s { calls = wait_operation_done ∷ s.calls } in
      bind-done (check_operation_result d) (λ _. m) s' (waited s) tt (check-done s')

  module _ (segment : SegmentInfo) (valid : IsFlashSegment segment) (old : List ℕ) where
    -- `k` pages have been erased before the one erased last.
    record Erased (k : ℕ) (s : State) : Type 0 where
      same_segment : s.firmware.erase_segment ≡ segment
      page : s.firmware.erase_page ≡ segment.start_page + k
      pages : erased_pages s.calls ≡ pages_from segment.start_page (suc k) ++ old

    abbrev Finished : FirmwareM (Unit {0}) → State → Type 0
    Finished m s =
        (s' : State) × (m s ≡ (done tt, s'))
        × (erased_pages s'.calls ≡ pages_from segment.start_page segment.page_count ++ old)

    last-lem :
        (k : ℕ) (s : State)
        → Erased k s
        → last_page s.firmware.erase_segment + 1 ≡ segment.start_page + segment.page_count
    last-lem k s p = rw p.same_segment (last_page-lem segment valid)

    stop :
        (fuel k : ℕ) (s : State)
        → Erased k s
        → suc k ≡ segment.page_count
        → Finished (erase_rest d (suc fuel)) s
    unfolding erase_rest erase_segment_continue
    stop fuel k s p h =
        let test : leb (last_page s.firmware.erase_segment) s.firmware.erase_page ≡ true =
          ground (arith, last-lem k s p, p.page) in
        let stopped : erase_segment_continue d s ≡ (done false, s) = rw test in
        (
          s,
          bind-done (erase_segment_continue d) _ s s false stopped,
          subst (λ n. erased_pages s.calls ≡ pages_from segment.start_page n ++ old) h p.pages,
        )

    abbrev next_state : State → State
    next_state s = record s {
      firmware = record s.firmware { erase_page = s.firmware.erase_page + 1 };
      calls = flash_erase (s.firmware.erase_page + 1) ∷ s.calls;
    }

    continue-true :
        (k : ℕ) (s : State)
        → Erased k s
        → suc k < segment.page_count
        → erase_segment_continue d s ≡ (done true, next_state s)
    unfolding erase_segment_continue erase_next
    continue-true k s p h =
        let test : leb (last_page s.firmware.erase_segment) s.firmware.erase_page ≡ false =
          ground (arith, last-lem k s p, p.page) in
        let s' : State = record s {
          firmware = record s.firmware { erase_page = s.firmware.erase_page + 1 };
        } in
        let c : DriverCall = flash_erase (s.firmware.erase_page + 1) in
        rw test
          (bind-done (try d tock c) (λ _. succeed true) s' (next_state s) tt (try-done tock c s'))

    next-Erased : (k : ℕ) (s : State) → Erased k s → Erased (suc k) (waited (next_state s))
    unfolding waited
    next-Erased k s p =
        let page : s.firmware.erase_page + 1 ≡ segment.start_page + suc k = omega (arith, p.page) in
        record { same_segment = p.same_segment; page = page; pages = rw (page, p.pages) }

    rest-Finished :
        (n k fuel : ℕ) (s : State)
        → Erased k s
        → suc k + n ≡ segment.page_count
        → n ≤ fuel
        → Finished (erase_rest d (suc fuel)) s
    unfolding erase_rest
    rest-Finished zero k fuel s p h enough = stop fuel k s p (omega (arith, h))
    rest-Finished (suc n) k zero s p h enough = absurd (omega (arith, enough))
    rest-Finished (suc n) k (suc fuel) s p h enough =
        let (s', run, pages) =
          rest-Finished n (suc k) fuel (waited (next_state s)) (next-Erased k s p)
            (omega (arith, h)) (omega (arith, enough)) in
        (
          s',
          bind-done (erase_segment_continue d) _ s (next_state s) true
                (continue-true k s p (omega (arith, h)))
              ∙ waited-done (erase_rest d (suc fuel)) (next_state s)
              ∙ run,
          pages,
        )

  -- Where every call is accepted and no operation of the flash fails, erasing a segment that lies
  -- in flash memory succeeds, and erases exactly the pages of the segment, each once, in ascending
  -- order.
  pub erase_segment_pages :
      (segment : SegmentInfo) (s : State)
      → IsFlashSegment segment
      → (s' : State) × (erase_segment d segment s ≡ (done tt, s'))
        × (erased_pages s'.calls
            ≡ pages_from segment.start_page segment.page_count ++ erased_pages s.calls)
  unfolding erase_segment erase_segment_start waited
  erase_segment_pages segment s valid =
      let old = erased_pages s.calls in
      let s1 : State = record s {
        firmware = record s.firmware { erase_segment = segment; erase_page = segment.start_page };
      } in
      let c : DriverCall = flash_erase segment.start_page in
      let s2 : State = record s1 { calls = c ∷ s1.calls } in
      let first : segment.start_page ≡ segment.start_page + 0 = omega arith in
      let fuel : ℕ = last_page segment in
      let (s', run, pages) =
        rest-Finished segment valid old (segment.page_count - 1) 0 fuel (waited s2)
          (record { same_segment = refl; page = first; pages = ap (λ (n : ℕ). n ∷ old) first })
          (omega (arith, valid.has_page)) (omega (arith, last_page-lem segment valid)) in
      (
        s',
        bind-done (try d tock c) _ s1 s2 tt (try-done tock c s1)
            ∙ waited-done (erase_rest d (suc fuel)) s2
            ∙ run,
        pages,
      )
