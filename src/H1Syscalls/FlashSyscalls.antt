-- ===== src/H1Syscalls/FlashSyscalls.antt =====
-- kernel/h1_syscalls/src/flash.rs: `FlashSyscalls`, the flash offered to processes. A process is its
-- identifier, and a slice that it shares is the list of its bytes. The device is any implementation
-- of trait `Flash`, with a state `D`.
mod Tests
pub mod Read
pub mod Write
pub mod CurrentUser
use tock_on_titan.Common.{
  ℕ, zero, suc, ◌+◌, ◌*◌, ◌/◌, ◌%◌, ◌^◌, min, Bool, true, false, not, ◌&&◌, ◌||◌, List, [], ◌∷◌,
  Option, none, some, ltb, ◌==◌, if◌then◌else◌, length, get_or, drop, set,
}
use tock_on_titan.ReturnCode.{
  ReturnCode, success, fail, ebusy, esize, einval, enomem, enosupport, success_with_value, other,
}
use tock_on_titan.Flash.VirtualFlash.{Flash}
use tock_on_titan.H1Syscalls.Grant.{Grant, entered, enter}

abbrev pub bytes_per_word : ℕ
bytes_per_word = 4

-- `operation_done_callback` is whether the process has one.
pub record AppData : Type 0 where
  pub appid : ℕ
  pub write_buffer : Option (List ℕ)
  pub read_buffer : Option (List ℕ)
  pub operation_done_callback : Bool

abbrev pub new_app : ℕ → AppData
new_app app = record {
  appid = app;
  write_buffer = none;
  read_buffer = none;
  operation_done_callback = false;
}

-- A callback that has been scheduled: the process and the code; the other arguments are 0.
pub record Scheduled : Type 0 where
  pub process : ℕ
  pub code : ReturnCode

-- The cells of the driver with the state of the device, and the callbacks scheduled, newest first.
pub record Cells (D : Type 0) : Type 0 where
  pub device : D
  pub write_buffer : Option (List ℕ)
  pub current_user : Option ℕ
  pub scheduled : List Scheduled

pub record FlashSyscalls (D : Type 0) : Type 0 where
  pub cells : Cells D
  pub apps : List AppData

unfoldable pub new_syscalls : {D : Type 0} → D → List ℕ → FlashSyscalls D
new_syscalls device write_buffer = record {
  cells = record {
    device = device;
    write_buffer = some write_buffer;
    current_user = none;
    scheduled = [];
  };
  apps = [];
}

-- `u32::from_le_bytes`
abbrev pub from_le_bytes : ℕ → ℕ → ℕ → ℕ → ℕ
from_le_bytes a b c d = a + 256 * b + 65536 * c + 16777216 * d

-- `if idx + byte_idx < length { read_buffer.as_mut()[idx + byte_idx] = byte; }`
abbrev pub put_byte : ℕ → ℕ → ℕ → List ℕ → List ℕ
put_byte limit i byte buffer = if ltb i limit then set buffer i byte else buffer

-- From a byte of the buffer on, the bytes of a word.
abbrev pub put_word : ℕ → ℕ → ℕ → List ℕ → List ℕ
put_word limit idx v buffer = put_byte limit (idx + 3) (v / 16777216 % 256) (
    put_byte limit (idx + 2) (v / 65536 % 256)
      (put_byte limit (idx + 1) (v / 256 % 256) (put_byte limit idx (v % 256) buffer)))

-- The words that a buffer of bytes starts with.
unfoldable pub words_of : ℕ → List ℕ → List ℕ
words_of zero bytes = []
words_of (suc n) bytes =
    from_le_bytes (get_or bytes 0 0) (get_or bytes 1 0) (get_or bytes 2 0) (get_or bytes 3 0)
    ∷ words_of n (drop 4 bytes)

module _ {D : Type 0} (flash : Flash D) (grant : Grant new_app) where
  unfoldable pub erase : ℕ → ℕ → FlashSyscalls D → ReturnCode × FlashSyscalls D
  unfolding enter entered
  erase caller page s =
      let ((code, device), apps) =
        enter grant (enomem, s.cells.device) caller
          (λ (app : AppData). (flash.erase page s.cells.device, app)) s.apps in
      (code, record s { cells = record s.cells { device = device }; apps = apps })

  -- The rounds of the loop over every fourth index; a `usize` has 32 bits.
  unfoldable pub read_rounds : D → ℕ → ℕ → ℕ → ℕ → List ℕ → ReturnCode × List ℕ
  read_rounds device offset limit zero idx buffer = (success, buffer)
  read_rounds device offset limit (suc rounds) idx buffer =
      elim (flash.read ((offset + idx) % 2 ^ 32 / bytes_per_word) device) [
        | success_with_value v ↦
            read_rounds device offset limit rounds (idx + bytes_per_word)
              (put_word limit idx (v % 2 ^ 32) buffer)
        | success ↦ (fail, buffer)
        | failure ↦ (failure, buffer)
      ]

  read_into : D → ℕ → ℕ → Option (List ℕ) → AppData → ReturnCode × AppData
  unfolding read_rounds
  read_into device offset read_len none app = (enomem, app)
  read_into device offset read_len (some buffer) app =
      let limit = min (length buffer) read_len in
      let (code, buffer') =
        read_rounds device offset limit ((limit + 3) / bytes_per_word) 0 buffer in
      (code, record app { read_buffer = some buffer' })

  read_aligned : ℕ → ℕ → ℕ → FlashSyscalls D → ReturnCode × FlashSyscalls D
  unfolding enter entered read_into
  read_aligned caller offset read_len s =
      let (code, apps) =
        enter grant enomem caller
          (λ (app : AppData). read_into s.cells.device offset read_len app.read_buffer app)
          s.apps in
      (code, record s { apps = apps })

  unfoldable pub read : ℕ → ℕ → ℕ → FlashSyscalls D → ReturnCode × FlashSyscalls D
  unfolding read_aligned
  read caller offset read_len s =
      if not (offset % bytes_per_word == 0)
      then (einval, s)
      else read_aligned caller offset read_len s

  -- With the process's buffer and the driver's.
  write_from : ℕ → ℕ → Option (List ℕ) → Option (List ℕ) → Cells D → ReturnCode × Cells D
  unfolding words_of
  write_from target write_len none buffer c = (enomem, c)
  write_from target write_len (some bytes) none c = (enomem, c)
  write_from target write_len (some bytes) (some buffer) c =
      let words = min (length buffer) (min (length bytes) write_len / bytes_per_word) in
      let (code, back, device) =
        flash.write (target / bytes_per_word) (words_of words bytes) c.device in
      (code, record c { device = device; write_buffer = back })

  write_aligned : ℕ → ℕ → ℕ → FlashSyscalls D → ReturnCode × FlashSyscalls D
  unfolding enter entered write_from
  write_aligned caller target write_len s =
      let ((code, cells), apps) =
        enter grant (enomem, s.cells) caller
          (λ (app : AppData).
            (write_from target write_len app.write_buffer s.cells.write_buffer s.cells, app))
          s.apps in
      (code, record { cells = cells; apps = apps })

  unfoldable pub write : ℕ → ℕ → ℕ → FlashSyscalls D → ReturnCode × FlashSyscalls D
  unfolding write_aligned
  write caller target write_len s =
      if not (target % bytes_per_word == 0) || not (write_len % bytes_per_word == 0)
      then (einval, s)
      else write_aligned caller target write_len s

  -- `cb.schedule(usize::from(return_code), 0, 0)` for the current user.
  tell_user : Option ℕ → ReturnCode → FlashSyscalls D → FlashSyscalls D
  unfolding enter entered
  tell_user none code s = s
  tell_user (some user) code s =
      let (cells, apps) =
        enter grant s.cells user
          (λ (app : AppData). (
            if app.operation_done_callback
                then record s.cells {
                  scheduled = record { process = user; code = code } ∷ s.cells.scheduled;
                }
                else s.cells,
            app,
          ))
          s.apps in
      record { cells = cells; apps = apps }

  -- `Client`.
  unfoldable pub erase_done : ReturnCode → FlashSyscalls D → FlashSyscalls D
  unfolding tell_user
  erase_done code s = tell_user s.cells.current_user code s

  unfoldable pub write_done : List ℕ → ReturnCode → FlashSyscalls D → FlashSyscalls D
  unfolding tell_user
  write_done buffer code s =
      tell_user s.cells.current_user code
        (record s { cells = record s.cells { write_buffer = some buffer } })

  change_app : ReturnCode → ℕ → (AppData → AppData) → FlashSyscalls D → ReturnCode × FlashSyscalls D
  unfolding enter entered
  change_app refused app change s =
      let (code, apps) =
        enter grant refused app (λ (entry : AppData). (success, change entry)) s.apps in
      (code, record s { apps = apps })

  -- `Driver`.
  unfoldable pub subscribe : ℕ → Bool → ℕ → FlashSyscalls D → ReturnCode × FlashSyscalls D
  unfolding change_app
  subscribe zero callback app s =
      change_app enomem app (λ entry. record entry { operation_done_callback = callback }) s
  subscribe (suc n) callback app s = (enosupport, s)

  dispatch : ℕ → ℕ → ℕ → ℕ → FlashSyscalls D → ReturnCode × FlashSyscalls D
  unfolding erase read write
  dispatch zero arg1 arg2 caller s = (success, s)
  dispatch (suc zero) arg1 arg2 caller s = erase caller arg1 s
  dispatch (suc (suc zero)) arg1 arg2 caller s = write caller arg1 arg2 s
  dispatch (suc (suc (suc zero))) arg1 arg2 caller s = read caller arg1 arg2 s
  dispatch (suc (suc (suc (suc n)))) arg1 arg2 caller s = (enosupport, s)

  user_or : ℕ → Option ℕ → Option ℕ
  user_or caller none = some caller
  user_or caller (some user) = some user

  unfoldable pub command : ℕ → ℕ → ℕ → ℕ → FlashSyscalls D → ReturnCode × FlashSyscalls D
  unfolding dispatch user_or
  command n arg1 arg2 caller s =
      dispatch n arg1 arg2 caller
        (record s { cells = record s.cells { current_user = user_or caller s.cells.current_user } })

  unfoldable pub allow : ℕ → ℕ → Option (List ℕ) → FlashSyscalls D → ReturnCode × FlashSyscalls D
  unfolding change_app
  allow app zero slice s = change_app fail app (λ entry. record entry { write_buffer = slice }) s
  allow app (suc zero) slice s =
      change_app fail app (λ entry. record entry { read_buffer = slice }) s
  allow app (suc (suc n)) slice s = (enosupport, s)
