-- ===== src/H1Syscalls/FlashSyscalls/Write.antt =====
-- flash.rs: the driver's buffer, and what a write passes on to the device.
use tock_on_titan.Common.{
  ℕ, zero, suc, ◌*◌, ◌/◌, ◌%◌, ◌≤◌, min, arith, true, List, ◌∷◌, ◌++◌, Option, none, some, ◌==◌,
  ==_iff, if-Holds, length, drop, ◌≡◌, refl, ap, ◌∙◌,
}
use tock_on_titan.ReturnCode.{ReturnCode, success}
use tock_on_titan.Flash.VirtualFlash.{Flash}
use tock_on_titan.H1Syscalls.Grant.{Grant, entered, enter, enter-Holds}
use tock_on_titan.H1Syscalls.FlashSyscalls.{
  AppData, new_app, Cells, FlashSyscalls, words_of, write_from, write_aligned, write, tell_user,
  write_done,
}

length-words_of : (n : ℕ) (bytes : List ℕ) → length (words_of n bytes) ≡ n
unfolding words_of
length-words_of zero bytes = refl
length-words_of (suc n) bytes = ap suc (length-words_of n (drop 4 bytes))

module _ {D : Type 0} (flash : Flash D) (grant : Grant new_app) where
  -- What becomes of the answer of the device to a write.
  abbrev pub answered :
      FlashSyscalls D
      → List AppData
      → ReturnCode × Option (List ℕ) × D
      → ReturnCode × FlashSyscalls D
  answered s apps (code, back, device) = (
    code,
    record { cells = record s.cells { device = device; write_buffer = back }; apps = apps },
  )

  write_from_lem :
      (target write_len n : ℕ) (bytes buffer : List ℕ) (o p : Option (List ℕ)) (c : Cells D)
      → o ≡ some bytes
      → p ≡ some buffer
      → min (length buffer) (min (length bytes) write_len / 4) ≡ n
      → write_from flash grant target write_len o p c ≡ (
          let (code, back, device) = flash.write (target / 4) (words_of n bytes) c.device in
          (code, record c { device = device; write_buffer = back }))
  unfolding write_from
  write_from_lem target write_len n bytes buffer none p c e f h = absurd cc
  write_from_lem target write_len n bytes buffer (some given) none c e f h = absurd cc
  write_from_lem target write_len n bytes buffer (some given) (some own) c e f h =
      let same : given ≡ bytes = cc in let same' : own ≡ buffer = cc in rw (same, same', h) refl

  -- A write that is aligned, by a process that shares a buffer, passes on the words that the
  -- driver's buffer, the process's buffer and the length have room for.
  write_passes :
      (caller target write_len n : ℕ) (bytes buffer : List ℕ) (s : FlashSyscalls D)
      (before after : List AppData) (entry : AppData)
      → grant.opened caller s.apps ≡ some (before, entry, after)
      → entry.write_buffer ≡ some bytes
      → s.cells.write_buffer ≡ some buffer
      → target % 4 ≡ 0
      → write_len % 4 ≡ 0
      → min (length buffer) (min (length bytes) write_len / 4) ≡ n
      → write flash grant caller target write_len s
        ≡ answered s
            (before ++ (entry ∷ after))
            (flash.write (target / 4) (words_of n bytes) s.cells.device)
  unfolding write write_aligned enter entered
  write_passes caller target write_len n bytes buffer s before after entry opened shares own a b h =
      let a' : (target % 4 == 0) ≡ true = (==_iff _ 0).1 a in
      let b' : (write_len % 4 == 0) ≡ true = (==_iff _ 0).1 b in
      let w =
        write_from_lem target write_len n bytes buffer entry.write_buffer s.cells.write_buffer
          s.cells shares own h in
      rw (a', b', opened)
        (ap
          (λ (x : ReturnCode × Cells D).
            (let y : ReturnCode × FlashSyscalls D =
                (x.0, record { cells = x.1; apps = before ++ (entry ∷ after) }) in
              y))
          w)

  tell_user-write_buffer :
      (o : Option ℕ) (code : ReturnCode) (s : FlashSyscalls D)
      → (tell_user flash grant o code s).cells.write_buffer ≡ s.cells.write_buffer
  unfolding tell_user
  tell_user-write_buffer none code s = refl
  tell_user-write_buffer (some user) code s =
      enter-Holds grant (λ (c : Cells D). c.write_buffer ≡ s.cells.write_buffer) s.cells user _
        s.apps refl
        (λ app.
          if-Holds (λ (c : Cells D). c.write_buffer ≡ s.cells.write_buffer)
            app.operation_done_callback _ _ refl refl)

  -- A write of `m` words, and the callback when the device has carried it out.
  abbrev pub wrote : ℕ → ℕ → ℕ → List ℕ → ReturnCode → FlashSyscalls D → FlashSyscalls D
  wrote caller target m bytes code s =
      write_done flash grant (words_of m bytes) code (write flash grant caller target (4 * m) s).1

  wrote-write_buffer :
      (caller target m : ℕ) (bytes : List ℕ) (code : ReturnCode) (s : FlashSyscalls D)
      → (wrote caller target m bytes code s).cells.write_buffer ≡ some (words_of m bytes)
  unfolding write_done
  wrote-write_buffer caller target m bytes code s =
      tell_user-write_buffer (write flash grant caller target (4 * m) s).1.cells.current_user code _

  -- The driver hands the device its buffer cut to the length of a write, and gets that back. After
  -- a write of `m` words by one process, which the device accepts and carries out or fails to, a
  -- write of `k` words by any process, with `k` at least `m`, passes on only the first `m` of them,
  -- and is answered as the device answers that; both processes share buffers of the length of their
  -- writes.
  pub short_after_write :
      (caller target m : ℕ) (bytes buffer : List ℕ) (s : FlashSyscalls D)
      (before after : List AppData) (entry : AppData) (device : D) (code : ReturnCode)
      → grant.opened caller s.apps ≡ some (before, entry, after)
      → entry.write_buffer ≡ some bytes
      → s.cells.write_buffer ≡ some buffer
      → target % 4 ≡ 0
      → m ≤ length buffer
      → 4 * m ≤ length bytes
      → flash.write (target / 4) (words_of m bytes) s.cells.device ≡ (success, none, device)
      → (caller' target' k : ℕ) (bytes' : List ℕ) (before' after' : List AppData) (entry' : AppData)
      → grant.opened caller' (wrote caller target m bytes code s).apps
        ≡ some (before', entry', after')
      → entry'.write_buffer ≡ some bytes'
      → target' % 4 ≡ 0
      → m ≤ k
      → 4 * k ≤ length bytes'
      → ((write flash grant caller target (4 * m) s).0 ≡ success)
        × (length (words_of m bytes') ≡ m)
        × (write flash grant caller' target' (4 * k) (wrote caller target m bytes code s)
            ≡ answered (wrote caller target m bytes code s) (before' ++ (entry' ∷ after')) (
                flash.write
                  (target' / 4)
                  (words_of m bytes')
                  (wrote caller target m bytes code s).cells.device))
  short_after_write caller target m bytes buffer s before after entry device code opened shares own
        a fits room accepts caller' target' k bytes' before' after' entry' opened' shares' a' more
        room' =
      (
        ap (λ x. x.0)
            (write_passes caller target (4 * m) m bytes buffer s before after entry opened shares
                own a (omega arith) (omega arith)
              ∙ ap (answered s (before ++ (entry ∷ after))) accepts),
        length-words_of m bytes',
        write_passes caller' target' (4 * k) m bytes' (words_of m bytes)
            (wrote caller target m bytes code s) before' after' entry' opened' shares'
            (wrote-write_buffer caller target m bytes code s) a' (omega arith)
            (omega (arith, length-words_of m bytes)),
      )
