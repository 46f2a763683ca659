-- ===== src/Otpilot/FirmwareController.antt =====
-- userspace/otpilot/src/firmware_controller.rs: erasing a firmware segment, and writing and verifying
-- a chunk of one.
pub mod Inactive
pub mod Ends
pub mod Pages
use tock_on_titan.Common.{
  ℕ, zero, suc, ◌+◌, ◌-◌, ◌%◌, ◌^◌, List, [], ◌∷◌, ◌++◌, Bool, true, false, leb, ltb, ◌==◌,
  if◌then◌else◌, length, take, drop,
}
use tock_on_titan.Spiutils.Segment.{SegmentInfo}
use tock_on_titan.Otpilot.Drivers.{
  DriverCall, flash_erase, flash_write, flash_read, wait_operation_done, clear_operation, Drivers,
  FirmwareController, State, Outcome, done, failed, unfinished, M, ◌>>=◌, ◌>>◌, succeed, fail,
  panic, get, modify, call, try,
}

-- The variant `Format` is never made.
pub data FirmwareControllerError : Type 0 where
  tock flash_read_error flash_write_error flash_operation_failed : FirmwareControllerError

abbrev pub max_buffer_length : ℕ
max_buffer_length = 128

abbrev pub FirmwareM : Type 0 → Type 0
FirmwareM A = M FirmwareControllerError A

-- `self.erase_segment.start_page + self.erase_segment.page_count - 1`, in u32 arithmetic.
abbrev pub last_page : SegmentInfo → ℕ
last_page segment = (segment.start_page + segment.page_count + (2 ^ 32 - 1)) % 2 ^ 32

-- Whether the first `n` bytes agree; a buffer that is too short panics at that index, and disagrees
-- here, as the buffers are of 128 bytes.
abbrev pub same_bytes : ℕ → List ℕ → List ℕ → Bool
same_bytes zero xs ys = true
same_bytes (suc n) (x ∷ xs) (y ∷ ys) = if x == y then same_bytes n xs ys else false
same_bytes (suc n) _ _ = false

unfoldable pub get_write_flash_offset : FirmwareController → ℕ
get_write_flash_offset f = (f.write_segment.address + f.write_offset) % 2 ^ 32

module _ (d : Drivers) where
  check_operation_result : FirmwareM (Unit {0})
  check_operation_result = do
    flash_op_failed ← get (λ s. d.operation_failed s.calls)
    call clear_operation
    if flash_op_failed then fail flash_operation_failed else succeed tt

  erase_segment_start : SegmentInfo → FirmwareM (Unit {0})
  erase_segment_start segment = do
    modify (λ s. record s {
      firmware = record s.firmware { erase_segment = segment; erase_page = segment.start_page };
    })
    try d tock (flash_erase segment.start_page)

  -- `self.erase_page += 1;` and what follows it.
  erase_next : ℕ → FirmwareM Bool
  erase_next page = do
    modify (λ s. record s { firmware = record s.firmware { erase_page = page + 1 } })
    try d tock (flash_erase (page + 1))
    succeed true

  unfoldable pub erase_segment_continue : FirmwareM Bool
  unfolding erase_next
  erase_segment_continue = do
    f ← get (λ s. s.firmware)
    if leb (last_page f.erase_segment) f.erase_page then succeed false else erase_next f.erase_page

  -- `while self.erase_segment_continue()? { .. }`
  erase_rest : ℕ → FirmwareM (Unit {0})
  unfolding erase_segment_continue check_operation_result
  erase_rest zero = λ s. (unfinished, s)
  erase_rest (suc fuel) = do
    more ← erase_segment_continue
    elim more [
      | true ↦ call wait_operation_done >> check_operation_result >> erase_rest fuel
      | false ↦ succeed tt
    ]

  unfoldable pub erase_segment : SegmentInfo → FirmwareM (Unit {0})
  unfolding erase_segment_start erase_rest check_operation_result
  erase_segment segment = do
    erase_segment_start segment
    call wait_operation_done
    check_operation_result
    erase_rest (suc (last_page segment))

  -- The copy into `WRITE_BUF` and the write of it.
  write_buffered : List ℕ → FirmwareM (Unit {0})
  unfolding get_write_flash_offset
  write_buffered chunk = do
    modify (λ s. record s { write_buf = chunk ++ drop (length chunk) s.write_buf })
    s ← get (λ s. s)
    try d flash_write_error
        (flash_write (get_write_flash_offset s.firmware) (take s.firmware.write_length s.write_buf))

  write_segment_chunk : SegmentInfo → ℕ → List ℕ → FirmwareM (Unit {0})
  unfolding write_buffered
  write_segment_chunk segment offset chunk = do
    modify (λ s. record s {
      firmware = record s.firmware {
        write_segment = segment;
        write_offset = offset;
        write_length = length chunk;
      };
    })
    buf ← get (λ s. s.write_buf)
    if ltb (length buf) (length chunk) then panic else write_buffered chunk

  verify_segment_chunk : FirmwareM Bool
  unfolding get_write_flash_offset
  verify_segment_chunk = do
    f ← get (λ s. s.firmware)
    try d flash_read_error (flash_read (get_write_flash_offset f) f.write_length)
    get (λ s. same_bytes f.write_length (d.read_buffer s.calls) s.write_buf)

  unfoldable pub write_and_verify_segment_chunk : SegmentInfo → ℕ → List ℕ → FirmwareM Bool
  unfolding write_segment_chunk check_operation_result verify_segment_chunk
  write_and_verify_segment_chunk segment offset chunk = do
    write_segment_chunk segment offset chunk
    call wait_operation_done
    check_operation_result
    verify_segment_chunk

abbrev pub get_max_write_chunk_length : ℕ
get_max_write_chunk_length = max_buffer_length
