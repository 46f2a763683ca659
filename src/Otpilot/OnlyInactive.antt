-- ===== src/Otpilot/OnlyInactive.antt =====
-- What the process does to the flash memory: it erases pages of inactive segments, and writes into
-- inactive segments.
use tock_on_titan.Common.{ℕ, ◌+◌, ◌^◌, ◌≤◌, ◌<◌, List, [], ◌∷◌, ◌⊎◌, length, ◌≡◌}
use tock_on_titan.Spiutils.Segment.{SegmentInfo}
use tock_on_titan.Otpilot.Drivers.{DriverCall, flash_erase, flash_write, Drivers, M, call, try}
use tock_on_titan.Otpilot.Keeps.{Keeps, Keeps-call, Keeps-try}

-- The numbers of a segment that lies in flash memory, with room to add the length of a chunk to an
-- offset.
pub record IsFlashSegment (s : SegmentInfo) : Type 0 where
  pub has_page : 1 ≤ s.page_count
  pub pages_u32 : s.start_page + s.page_count ≤ 2 ^ 32
  pub end_u32 : s.address + s.size ≤ 2 ^ 32
  pub chunk_u32 : s.size + 128 ≤ 2 ^ 32

abbrev pub InPages : SegmentInfo → ℕ → Type 0
InPages s page = (s.start_page ≤ page) × (page < s.start_page + s.page_count)

-- A write of at most one flash buffer that lies inside the segment.
abbrev pub InSegment : SegmentInfo → ℕ → List ℕ → Type 0
InSegment s offset bytes =
    (s.address ≤ offset) × (offset + length bytes ≤ s.address + s.size) × (length bytes ≤ 128)

abbrev pub Allowed : Drivers → DriverCall → Type 0
Allowed d (flash_erase page) = InPages d.inactive_ro page ⊎ InPages d.inactive_rw page
Allowed d (flash_write offset bytes) =
    InSegment d.inactive_ro offset bytes ⊎ InSegment d.inactive_rw offset bytes
Allowed d _ = Unit {0}

-- Every call is allowed.
abbrev pub OnlyInactive : Drivers → List DriverCall → Type 0
OnlyInactive d [] = Unit {0}
OnlyInactive d (c ∷ cs) = Allowed d c × OnlyInactive d cs

-- One of the two inactive segments.
abbrev pub IsInactive : Drivers → SegmentInfo → Type 0
IsInactive d s = (s ≡ d.inactive_ro) ⊎ (s ≡ d.inactive_rw)

abbrev pub KeepsOnlyInactive : {E A : Type 0} → Drivers → M E A → Type 0
KeepsOnlyInactive d m = Keeps (λ s. OnlyInactive d s.calls) m

module _ {E : Type 0} (d : Drivers) where
  pub call-OnlyInactive : (c : DriverCall) → Allowed d c → KeepsOnlyInactive d (call {E = E} c)
  call-OnlyInactive c a = Keeps-call c (λ s p. (a, p))

  pub try-OnlyInactive : (e : E) (c : DriverCall) → Allowed d c → KeepsOnlyInactive d (try d e c)
  try-OnlyInactive e c a = Keeps-try d e c (λ s p. (a, p))
