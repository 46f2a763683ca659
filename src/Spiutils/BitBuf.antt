-- ===== src/Spiutils/BitBuf.antt =====
-- shared-lib/spiutils/src/io.rs: `BitBuf`, a byte as a queue of bits. usize has 32 bits, and the
-- arithmetic wraps as in a release build, where a shift takes its amount modulo the width.
pub mod Masks
pub mod Results
pub mod Queue
pub mod BitsOf
pub mod Refine
mod Tests
use tock_on_titan.Common.{
  ℕ, ◌+◌, ◌-◌, ◌*◌, ◌/◌, ◌%◌, ◌^◌, bit_and, bit_or, Bool, true, false, not, ltb, ◌==◌,
  if◌then◌else◌,
}
use tock_on_titan.Spiutils.Io.{IoError, buffer_exhausted, Result, ok, err}

pub record BitBuf : Type 0 where
  pub len : ℕ
  pub bits : ℕ

abbrev pub new : BitBuf
new = record { len = 0; bits = 0 }

abbrev pub from_bits : ℕ → BitBuf
from_bits b = record { len = 8; bits = b }

-- `((1usize << n) - 1) as u8`
unfoldable pub inverse_popcnt : ℕ → ℕ
inverse_popcnt n = (2 ^ (n % 32) - 1) % 256

-- `bits & !(mask << offset)`
unfoldable pub clear_bits : ℕ → ℕ → ℕ → ℕ
clear_bits mask offset b = bit_and b (255 - mask * 2 ^ (offset % 8) % 256)

-- The branch of `read_bits` that reads.
unfoldable pub read_some_bits : ℕ → BitBuf → ℕ × BitBuf
read_some_bits n buf =
    let offset = buf.len - n in
    let mask = inverse_popcnt n in
    (
      bit_and (buf.bits / 2 ^ (offset % 8)) mask,
      record { len = (buf.len + 256 - n % 256) % 256; bits = clear_bits mask offset buf.bits },
    )

unfoldable pub read_bits : ℕ → BitBuf → Result IoError ℕ × BitBuf
read_bits n buf =
    if ltb buf.len n
    then (err buffer_exhausted, buf)
    else if n == 0
    then (ok 0, buf)
    else let (value, rest) = read_some_bits n buf in (ok value, rest)

unfoldable pub read_bit : BitBuf → Result IoError Bool × BitBuf
read_bit buf =
    let (answer, rest) = read_bits 1 buf in
    (elim answer [ ok b ↦ ok (not (b == 0)) | err e ↦ err e ], rest)

unfoldable pub write_bits : ℕ → ℕ → BitBuf → Result IoError (Unit {0}) × BitBuf
write_bits n b buf = if ltb 8 ((buf.len + n) % 2 ^ 32) then (err buffer_exhausted, buf) else (
  ok tt,
  record {
    len = (buf.len + n % 256) % 256;
    bits = bit_or (buf.bits * 2 ^ (n % 8) % 256) (bit_and b (inverse_popcnt n));
  },
)

unfoldable pub write_bit : Bool → BitBuf → Result IoError (Unit {0}) × BitBuf
write_bit bit buf = write_bits 1 (if bit then 1 else 0) buf

unfoldable pub write_zero_bits : ℕ → BitBuf → Result IoError (Unit {0}) × BitBuf
write_zero_bits n buf = write_bits n 0 buf
