-- ===== src/Spiutils/Io.antt =====
-- shared-lib/spiutils/src/io.rs: reading from a slice, writing to a `Cursor`.
-- A slice is the list of its bytes. `?` passes an `io::Error` on as the caller's error, so a
-- reader and a writer here answer with the error of `FromWire` and of `ToWire`.
pub mod Laws
pub mod Length
use tock_on_titan.Common.{
  ℕ, zero, suc, ◌+◌, ◌-◌, ◌^◌, ◌<◌, ◌≡◌, List, [], ◌∷◌, ◌++◌, Bool, true, false, ltb, if◌then◌else◌,
  length, take, drop, get_or, Option, none, some,
}

pub data IoError : Type 0 where
  buffer_exhausted internal : IoError

-- `FromWireError` and `ToWireError` of protocol/wire.rs.
pub data FromWireError : Type 0 where
  read_failed : IoError → FromWireError
  out_of_range : FromWireError

pub data ToWireError : Type 0 where
  write_failed : IoError → ToWireError
  invalid_data : ToWireError

pub data Result {ℓ κ} (E : Type ℓ) (A : Type κ) : Type (ℓ ⊔ κ) where
  ok : A → Result E A
  err : E → Result E A

-- The functions of `byteorder::ByteOrder` that io.rs calls, for one byte order and every width in
-- bytes, and what that crate documents of them.
pub record ByteOrder : Type 0 where
  pub read_uint : ℕ → List ℕ → ℕ
  pub write_uint : ℕ → ℕ → List ℕ
  pub length-write : (w n : ℕ) → length (write_uint w n) ≡ w
  pub read-write : (w n : ℕ) → n < 256 ^ w → read_uint w (write_uint w n) ≡ n

-- A reader takes what it reads off the front of the slice.
abbrev pub Reader {ℓ} : Type ℓ → Type ℓ
Reader A = List ℕ → Result FromWireError (A × List ℕ)

infixl 5 ◌>>=◌
infixr 5 ◌>>◌
abbrev pub ◌>>=◌ {ℓ κ} : {A : Type ℓ} {B : Type κ} → Reader A → (A → Reader B) → Reader B
◌>>=◌ m f r = elim (m r) [ ok (a, rest) ↦ f a rest | err e ↦ err e ]

abbrev pub succeed {ℓ} : {A : Type ℓ} → A → Reader A
succeed a r = ok (a, r)

-- `.ok_or(FromWireError::OutOfRange)?`
abbrev pub in_range {ℓ} : {A : Type ℓ} → Option A → Reader A
in_range none r = err out_of_range
in_range (some a) r = ok (a, r)

-- `impl Read for &[u8]`
unfoldable pub read_bytes : ℕ → Reader (List ℕ)
read_bytes n r =
    if ltb (length r) n then err (read_failed buffer_exhausted) else ok (take n r, drop n r)

unfoldable pub remaining_data : List ℕ → ℕ
remaining_data r = length r

-- `u8::read_from`
unfoldable pub read_u8 : Reader ℕ
read_u8 r = elim (read_bytes 1 r) [ ok (bytes, rest) ↦ ok (get_or bytes 0 0, rest) | err e ↦ err e ]

-- `read_from` of u16, u24, u32 and u64, by the width in bytes.
unfoldable pub read_int : ByteOrder → ℕ → Reader ℕ
read_int order width r = elim (read_bytes width r) [
  | ok (bytes, rest) ↦ ok (order.read_uint width bytes, rest)
  | err e ↦ err e
]

-- `Cursor`: its buffer is `written ++ room`, and `cursor` is the length of `written`.
pub record Cursor : Type 0 where
  pub written : List ℕ
  pub room : List ℕ

unfoldable pub new_cursor : List ℕ → Cursor
new_cursor buf = record { written = []; room = buf }

unfoldable pub consumed_len : Cursor → ℕ
consumed_len c = length c.written

unfoldable pub consumed_bytes : Cursor → List ℕ
consumed_bytes c = c.written

-- The bytes consumed, and a cursor at the start of the room that was left.
unfoldable pub take_consumed_bytes : Cursor → List ℕ × Cursor
take_consumed_bytes c = (c.written, new_cursor c.room)

-- `impl Write for &mut [u8]`: the bytes that are overwritten, and the slice that is left.
unfoldable pub write_slice : List ℕ → List ℕ → Result IoError (List ℕ × List ℕ)
write_slice buf room =
    if ltb (length room) (length buf)
    then err buffer_exhausted
    else ok (buf, drop (length buf) room)

-- A writer moves the cursor on. One that fails leaves what it has written before.
abbrev pub WriteResult : Type 0
WriteResult = Result (ToWireError × Cursor) Cursor

abbrev pub Writer : Type 0
Writer = Cursor → WriteResult

abbrev pub ◌>>◌ : Writer → Writer → Writer
◌>>◌ m k c = elim (m c) [ ok c' ↦ k c' | err e ↦ err e ]

-- `consume(buf.len())` and the copy into the bytes consumed.
unfoldable pub write_bytes : List ℕ → Writer
write_bytes buf c =
    if ltb (length c.room) (length buf)
    then err (write_failed buffer_exhausted, c)
    else ok (record { written = c.written ++ buf; room = drop (length buf) c.room })

unfoldable pub write_u8 : ℕ → Writer
write_u8 n = write_bytes (n ∷ [])

unfoldable pub write_int : ByteOrder → ℕ → ℕ → Writer
write_int order width n = write_bytes (order.write_uint width n)
