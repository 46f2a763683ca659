-- ===== src/Spiutils/Payload.antt =====
-- shared-lib/spiutils/src/protocol/payload.rs: the payload header and its checksum.
pub mod Content
pub mod ContentLaws
pub mod Crc
pub mod RoundTrip
pub mod Checksum
use tock_on_titan.Common.{
  ℕ, ◌+◌, ◌/◌, ◌%◌, ◌^◌, ◌<◌, List, [], ◌∷◌, ◌++◌, Option, none, some, ltb, if◌then◌else◌, length,
  take,
}
use tock_on_titan.Spiutils.Io.{
  ByteOrder, Reader, Writer, ◌>>=◌, ◌>>◌, succeed, read_u8, write_u8, read_int, write_int,
}
use tock_on_titan.Spiutils.Wire.{enum_from_wire, enum_to_wire}
use Content.{ContentType, content_type}
use Crc.{crc_init, crc_add, crc_get}

pub record Header : Type 0 where
  pub content : ContentType
  pub content_len : ℕ
  pub checksum : ℕ

-- `content_len` is of type u16 and `checksum` of type u8.
pub record IsHeader (h : Header) : Type 0 where
  pub content_len_u16 : h.content_len < 256 ^ 2
  pub checksum_u8 : h.checksum < 256

abbrev pub header_len : ℕ
header_len = 4

-- `content_len.to_be_bytes()`
abbrev pub to_be_bytes : ℕ → List ℕ
to_be_bytes n = (n / 256 % 256) ∷ (n % 256) ∷ []

-- The slice of the payload panics where the payload is shorter than the header says: `none`.
unfoldable pub compute_checksum : Header → List ℕ → Option ℕ
compute_checksum header payload =
    if ltb (length payload) header.content_len
    then none
    else some (
        crc_get (
          crc_add
            (crc_add (crc_add crc_init (content_type.to_wire_value header.content ∷ []))
              (to_be_bytes header.content_len))
            (take header.content_len payload)))

module _ (be : ByteOrder) where
  unfoldable pub header_from_wire : Reader Header
  header_from_wire = do
    content ← enum_from_wire content_type
    content_len ← read_int be 2
    checksum ← read_u8
    succeed (record { content = content; content_len = content_len; checksum = checksum })

  unfoldable pub header_to_wire : Header → Writer
  header_to_wire h =
      enum_to_wire content_type h.content >> write_int be 2 h.content_len >> write_u8 h.checksum
