-- ===== src/Spiutils/Payload/Crc.antt =====
-- payload.rs, `Crc8`: the checksum register, a u16 whose upper byte is the checksum.
use tock_on_titan.Common.{
  ℕ, zero, suc, ◌*◌, ◌/◌, ◌%◌, ◌^◌, bit_and, bit_xor, List, [], ◌∷◌, ◌==◌, if◌then◌else◌,
}

-- `Crc8::init`
abbrev pub crc_init : ℕ
crc_init = 0

-- `Crc8::get`
unfoldable pub crc_get : ℕ → ℕ
crc_get crc = bit_and (crc / 2 ^ 8) 0xff

-- One round of the inner loop. `0x1070 << 3` is 0x8380; `crc <<= 1` drops the top bit.
unfoldable pub crc_round : ℕ → ℕ
crc_round crc = (if bit_and crc 0x8000 == 0 then crc else bit_xor crc 0x8380) * 2 % 2 ^ 16

-- `for _ in 0..n`
unfoldable pub crc_rounds : ℕ → ℕ → ℕ
crc_rounds zero crc = crc
crc_rounds (suc n) crc = crc_rounds n (crc_round crc)

-- `self.crc ^= (*byte as u16) << 8`, and the inner loop.
unfoldable pub crc_byte : ℕ → ℕ → ℕ
unfolding crc_rounds crc_round
crc_byte crc byte = crc_rounds 8 (bit_xor crc (byte * 2 ^ 8))

-- `Crc8::add`
unfoldable pub crc_add : ℕ → List ℕ → ℕ
crc_add crc [] = crc
crc_add crc (byte ∷ bytes) = crc_add (crc_byte crc byte) bytes
