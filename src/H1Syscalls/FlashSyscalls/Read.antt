-- ===== src/H1Syscalls/FlashSyscalls/Read.antt =====
-- flash.rs: what a read puts into the buffer of a process.
use tock_on_titan.Common.{
  ℕ, zero, suc, ◌+◌, ◌-◌, ◌*◌, ◌/◌, ◌%◌, ◌^◌, ◌≤◌, ◌<◌, min, arith, true, not, List, [], ◌∷◌, ◌++◌,
  Option, none, some, ltb, ◌==◌, ==_iff, Bool-cases, inl, inr, ◌⊎◌, if◌then◌else◌, length, get_or,
  length-set, get_or-set_self, get_or-set_ne, ◌≡◌, ◌≢◌, refl, sym, ap, ◌∙◌, subst,
}
use tock_on_titan.ReturnCode.{ReturnCode, success, fail, einval, enomem, success_with_value}
use tock_on_titan.Flash.VirtualFlash.{Flash}
use tock_on_titan.H1Syscalls.Grant.{Grant, entered, enter}
use tock_on_titan.H1Syscalls.FlashSyscalls.{
  AppData, new_app, FlashSyscalls, put_byte, put_word, read_rounds, read_into, read_aligned, read,
}

-- The byte `i` of a word, the lowest first.
abbrev pub nth_byte : ℕ → ℕ → ℕ
nth_byte v i = get_or (v % 256 ∷ v / 256 % 256 ∷ v / 65536 % 256 ∷ v / 16777216 % 256 ∷ []) i 0

-- The byte of the flash at an address.
abbrev pub flash_byte : (ℕ → ℕ) → ℕ → ℕ
flash_byte words address = nth_byte (words (address / 4) % 2 ^ 32) (address % 4)

length-put_byte :
    (limit i byte : ℕ) (buffer : List ℕ) → length (put_byte limit i byte buffer) ≡ length buffer
length-put_byte limit i byte buffer = ground (arith, length-set buffer i byte)

length-put_word :
    (limit idx v : ℕ) (buffer : List ℕ) → length (put_word limit idx v buffer) ≡ length buffer
length-put_word limit idx v buffer =
    length-put_byte limit (idx + 3) _ _
    ∙ length-put_byte limit (idx + 2) _ _
    ∙ length-put_byte limit (idx + 1) _ _
    ∙ length-put_byte limit idx _ buffer

put_byte_self :
    (limit i byte : ℕ) (buffer : List ℕ)
    → i < limit
    → limit ≤ length buffer
    → get_or (put_byte limit i byte buffer) i 0 ≡ byte
put_byte_self limit i byte buffer h k =
    let e : ltb i limit ≡ true = ground arith in
    rw e (get_or-set_self buffer i byte 0 (omega arith))

put_byte_ne :
    (limit i byte : ℕ) (buffer : List ℕ) (k : ℕ)
    → k ≢ i
    → get_or (put_byte limit i byte buffer) k 0 ≡ get_or buffer k 0
put_byte_ne limit i byte buffer k h = elim (Bool-cases (ltb i limit)) [
  | inl e ↦ rw e (get_or-set_ne buffer i k byte 0 h)
  | inr e ↦ rw e refl
]

put_byte_past :
    (limit i byte : ℕ) (buffer : List ℕ) (k : ℕ)
    → limit ≤ k
    → get_or (put_byte limit i byte buffer) k 0 ≡ get_or buffer k 0
put_byte_past limit i byte buffer k h = elim (Bool-cases (ltb i limit)) [
  | inl e ↦ put_byte_ne limit i byte buffer k (λ q. absurd (ground arith))
  | inr e ↦ rw e refl
]

-- A word of which the bytes below the limit are put.
put_word_past :
    (limit idx v : ℕ) (buffer : List ℕ) (k : ℕ)
    → limit ≤ k
    → get_or (put_word limit idx v buffer) k 0 ≡ get_or buffer k 0
put_word_past limit idx v buffer k h =
    put_byte_past limit (idx + 3) _ _ k h
    ∙ put_byte_past limit (idx + 2) _ _ k h
    ∙ put_byte_past limit (idx + 1) _ _ k h
    ∙ put_byte_past limit idx _ buffer k h

put_word_outside :
    (limit idx v : ℕ) (buffer : List ℕ) (k : ℕ)
    → (k < idx) ⊎ (idx + 4 ≤ k)
    → get_or (put_word limit idx v buffer) k 0 ≡ get_or buffer k 0
put_word_outside limit idx v buffer k h =
    put_byte_ne limit (idx + 3) _ _ k (λ q. absurd (ground arith))
    ∙ put_byte_ne limit (idx + 2) _ _ k (λ q. absurd (ground arith))
    ∙ put_byte_ne limit (idx + 1) _ _ k (λ q. absurd (ground arith))
    ∙ put_byte_ne limit idx _ buffer k (λ q. absurd (ground arith))

put_word_inside :
    (limit idx v : ℕ) (buffer : List ℕ) (i : ℕ)
    → i < 4
    → idx + i < limit
    → limit ≤ length buffer
    → get_or (put_word limit idx v buffer) (idx + i) 0 ≡ nth_byte v i
put_word_inside limit idx v buffer zero h below fits =
    put_byte_ne limit (idx + 3) _ _ (idx + 0) (λ q. absurd (omega arith))
    ∙ put_byte_ne limit (idx + 2) _ _ (idx + 0) (λ q. absurd (omega arith))
    ∙ put_byte_ne limit (idx + 1) _ _ (idx + 0) (λ q. absurd (omega arith))
    ∙ (let e : idx + 0 ≡ idx = omega arith in
        rw e (put_byte_self limit idx (v % 256) buffer (omega arith) fits))
put_word_inside limit idx v buffer (suc zero) h below fits =
    put_byte_ne limit (idx + 3) _ _ (idx + 1) (λ q. absurd (omega arith))
    ∙ put_byte_ne limit (idx + 2) _ _ (idx + 1) (λ q. absurd (omega arith))
    ∙ put_byte_self limit (idx + 1) _ _ below
        (omega (arith, length-put_byte limit idx (v % 256) buffer))
put_word_inside limit idx v buffer (suc (suc zero)) h below fits =
    put_byte_ne limit (idx + 3) _ _ (idx + 2) (λ q. absurd (omega arith))
    ∙ put_byte_self limit (idx + 2) _ _ below (
        omega (
          arith,
          length-put_byte limit idx (v % 256) buffer,
          length-put_byte limit (idx + 1) (v / 256 % 256) (put_byte limit idx (v % 256) buffer),
        ))
put_word_inside limit idx v buffer (suc (suc (suc zero))) h below fits =
    put_byte_self limit (idx + 3) _ _ below (
      omega (
        arith,
        length-put_byte limit idx (v % 256) buffer,
        length-put_byte limit (idx + 1) (v / 256 % 256) (put_byte limit idx (v % 256) buffer),
        length-put_byte limit (idx + 2) (v / 65536 % 256)
            (put_byte limit (idx + 1) (v / 256 % 256) (put_byte limit idx (v % 256) buffer)),
      ))
put_word_inside limit idx v buffer (suc (suc (suc (suc i)))) h below fits = absurd (omega arith)

-- The buffer after a read of `limit` bytes, from what it was, of which the bytes below `done` have
-- been read.
abbrev pub ReadsFrom : (ℕ → ℕ) → ℕ → ℕ → ℕ → List ℕ → List ℕ → Type 0
ReadsFrom words offset limit done before after =
    (length after ≡ length before)
    × ((k : ℕ) → done ≤ k → k < limit → get_or after k 0 ≡ flash_byte words (offset + k))
    × ((k : ℕ) → (k < done) ⊎ (limit ≤ k) → get_or after k 0 ≡ get_or before k 0)

module _ {D : Type 0} (flash : Flash D) (grant : Grant new_app) where
  -- The device reads these words, over the length of a read.
  abbrev pub ReadsWords : D → (ℕ → ℕ) → ℕ → ℕ → Type 0
  ReadsWords device words offset limit =
      (i : ℕ)
      → offset / 4 ≤ i
      → i < (offset + limit + 3) / 4
      → flash.read i device ≡ success_with_value (words i)

  read_rounds-suc :
      (device : D) (offset limit rounds idx v : ℕ) (buffer : List ℕ)
      → flash.read ((offset + idx) % 2 ^ 32 / 4) device ≡ success_with_value v
      → read_rounds flash grant device offset limit (suc rounds) idx buffer
        ≡ read_rounds flash grant device offset limit rounds
            (idx + 4)
            (put_word limit idx (v % 2 ^ 32) buffer)
  unfolding read_rounds
  read_rounds-suc device offset limit rounds idx v buffer e =
      ap
        (λ (c : ReturnCode).
          (let r : ReturnCode × List ℕ = elim c [
            | success_with_value v ↦
                read_rounds flash grant device offset limit rounds (idx + 4)
                  (put_word limit idx (v % 2 ^ 32) buffer)
            | success ↦ (fail, buffer)
            | failure ↦ (failure, buffer)
          ] in
            r))
        e

  byte_here :
      (words : ℕ → ℕ) (offset idx limit k : ℕ) (buffer : List ℕ)
      → offset % 4 ≡ 0
      → idx % 4 ≡ 0
      → idx ≤ k
      → k < idx + 4
      → k < limit
      → limit ≤ length buffer
      → get_or (put_word limit idx (words ((offset + idx) / 4) % 2 ^ 32) buffer) k 0
        ≡ flash_byte words (offset + k)
  byte_here words offset idx limit k buffer a b above below within fits =
      let e : idx + (k - idx) ≡ k = omega arith in
      let f : (offset + k) / 4 ≡ (offset + idx) / 4 = omega arith in
      let g : (offset + k) % 4 ≡ k - idx = omega arith in
      subst
        (λ j.
          get_or (put_word limit idx (words ((offset + idx) / 4) % 2 ^ 32) buffer) j 0
          ≡ nth_byte (words ((offset + idx) / 4) % 2 ^ 32) (k - idx))
        e
        (put_word_inside limit idx (words ((offset + idx) / 4) % 2 ^ 32) buffer (k - idx)
          (omega arith) (omega arith) fits)
      ∙ ap (λ j. nth_byte (words j % 2 ^ 32) (k - idx)) (sym f)
      ∙ ap (nth_byte (words ((offset + k) / 4) % 2 ^ 32)) (sym g)

  read_rounds_lem :
      (device : D) (words : ℕ → ℕ) (offset limit rounds idx : ℕ) (buffer : List ℕ)
      → ReadsWords device words offset limit
      → offset % 4 ≡ 0
      → idx % 4 ≡ 0
      → offset + limit < 2 ^ 32
      → limit ≤ length buffer
      → limit ≤ idx + 4 * rounds
      → idx + 4 * rounds < limit + 4
      → (buffer' : List ℕ) × (read_rounds flash grant device offset limit rounds idx buffer
          ≡ (success, buffer'))
        × ReadsFrom words offset limit idx buffer buffer'
  unfolding read_rounds
  read_rounds_lem device words offset limit zero idx buffer reads a b small fits enough few =
      (buffer, refl, (refl, λ k above below. absurd (omega arith), λ k o. refl))
  read_rounds_lem device words offset limit (suc rounds) idx buffer reads a b small fits enough
        few =
      let v = words ((offset + idx) / 4) in
      let next = put_word limit idx (v % 2 ^ 32) buffer in
      let e : (offset + idx) % 2 ^ 32 / 4 ≡ (offset + idx) / 4 = omega arith in
      let longer : length next ≡ length buffer = length-put_word limit idx (v % 2 ^ 32) buffer in
      let (buffer', run, (len, inside, outside)) =
        read_rounds_lem device words offset limit rounds (idx + 4) next reads a (omega arith) small
          (omega arith) (omega arith) (omega arith) in
      (
        buffer',
        read_rounds-suc device offset limit rounds idx v buffer (
              ap (λ i. flash.read i device) e
              ∙ reads ((offset + idx) / 4) (omega arith) (omega arith))
            ∙ run,
        (
          len ∙ longer,
          λ k above below. elim (Bool-cases (ltb k (idx + 4))) [
            | inl q ↦
                outside k (inl (ground arith))
                ∙ byte_here words offset idx limit k buffer a b above (ground arith) below fits
            | inr q ↦ inside k (ground arith) below
          ],
          λ k o. elim o [
            | inl q ↦
                outside k (inl (omega arith))
                ∙ put_word_outside limit idx (v % 2 ^ 32) buffer k (inl q)
            | inr q ↦ outside k (inr q) ∙ put_word_past limit idx (v % 2 ^ 32) buffer k q
          ],
        ),
      )

  read_into_lem :
      (device : D) (words : ℕ → ℕ) (offset read_len : ℕ) (buffer : List ℕ) (o : Option (List ℕ))
      (app : AppData)
      → o ≡ some buffer
      → ReadsWords device words offset (min (length buffer) read_len)
      → offset % 4 ≡ 0
      → offset + min (length buffer) read_len < 2 ^ 32
      → (buffer' : List ℕ) × (read_into flash grant device offset read_len o app
          ≡ (success, record app { read_buffer = some buffer' }))
        × ReadsFrom words offset (min (length buffer) read_len) 0 buffer buffer'
  unfolding read_into
  read_into_lem device words offset read_len buffer none app e reads a small = absurd cc
  read_into_lem device words offset read_len buffer (some given) app e reads a small =
      let limit = min (length buffer) read_len in
      let same : given ≡ buffer = cc in
      let (buffer', run, r) =
        read_rounds_lem device words offset limit ((limit + 3) / 4) 0 buffer reads a refl small
          (omega arith) (omega arith) (omega arith) in
      (
        buffer',
        ap (λ g. read_into flash grant device offset read_len (some g) app) same
            ∙ ap (λ (x : ReturnCode × List ℕ). (x.0, record app { read_buffer = some x.1 })) run,
        r,
      )

  -- A process that shares a buffer reads from an address that is a multiple of 4. Where the device
  -- reads the words from there on, as far as the length that is asked for and the buffer go, the
  -- read answers with SUCCESS; each byte of the buffer up to that length is then the byte of the
  -- flash at its address, the lowest byte of a word first, the rest of the buffer is as before, and
  -- nothing else has changed.
  pub read_gives_flash :
      (caller offset read_len : ℕ) (buffer : List ℕ) (words : ℕ → ℕ) (s : FlashSyscalls D)
      (before after : List AppData) (entry : AppData)
      → grant.opened caller s.apps ≡ some (before, entry, after)
      → entry.read_buffer ≡ some buffer
      → ReadsWords s.cells.device words offset (min (length buffer) read_len)
      → offset % 4 ≡ 0
      → offset + min (length buffer) read_len < 2 ^ 32
      → (buffer' : List ℕ) × (read flash grant caller offset read_len s ≡ (
        success,
        record s { apps = before ++ (record entry { read_buffer = some buffer' } ∷ after) },
      ))
        × ReadsFrom words offset (min (length buffer) read_len) 0 buffer buffer'
  unfolding read read_aligned enter entered
  read_gives_flash caller offset read_len buffer words s before after entry opened shares reads a
        small =
      let (buffer', run, r) =
        read_into_lem s.cells.device words offset read_len buffer entry.read_buffer entry shares
          reads a small in
      let aligned : (offset % 4 == 0) ≡ true = (==_iff (offset % 4) 0).1 a in
      (
        buffer',
        ap
              (λ b.
                (let x : ReturnCode × FlashSyscalls D =
                    if not b
                    then (einval, s)
                    else read_aligned flash grant caller offset read_len s in
                  x))
              aligned
            ∙ ap
                (λ o.
                  (let (code, apps) =
                      entered enomem
                        (λ (app : AppData).
                          read_into flash grant s.cells.device offset read_len app.read_buffer app)
                        s.apps o in
                    let x : ReturnCode × FlashSyscalls D = (code, record s { apps = apps }) in x))
                opened
            ∙ ap
                (λ (x : ReturnCode × AppData).
                  (let y : ReturnCode × FlashSyscalls D =
                      (x.0, record s { apps = before ++ (x.1 ∷ after) }) in
                    y))
                run,
        r,
      )
