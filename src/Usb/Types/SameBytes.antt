-- ===== src/Usb/Types/SameBytes.antt =====
-- A descriptor has the same bytes in the words of a FIFO buffer as in a buffer of bytes.
use tock_on_titan.Common.{
  ℕ, ◌%◌, ◌/◌, ◌^◌, ◌<◌, ◌≤◌, ◌≡◌, refl, ap, List, ◌∷◌, ◌++◌, Option, some, length, take, drop,
  arith,
}
use tock_on_titan.Usb.Types.{
  put_all, returning, ConfigurationDescriptor, configuration_words, configuration_bytes,
  configuration_into_u32_buf, configuration_into_u8_buf, InterfaceDescriptor, interface_words,
  interface_bytes, interface_into_u32_buf, interface_into_u8_buf,
}
use tock_on_titan.Usb.Types.Bytes.{le_bytes, put_all-front, bytes_of_word, bytes_of_half_word}

-- The fields are in the range of their types.
unfoldable pub IsConfiguration : ConfigurationDescriptor → Type 0
IsConfiguration d =
    (d.b_length < 256)
    × (d.b_descriptor_type < 256)
    × (d.w_total_length < 2 ^ 16)
    × (d.b_num_interfaces < 256)
    × (d.b_configuration_value < 256)
    × (d.i_configuration < 256)
    × (d.bm_attributes < 256)
    × (d.b_max_power < 256)

unfoldable pub IsInterface : InterfaceDescriptor → Type 0
IsInterface d =
    (d.b_length < 256)
    × (d.b_descriptor_type < 256)
    × (d.b_interface_number < 256)
    × (d.b_alternate_setting < 256)
    × (d.b_num_endpoints < 256)
    × (d.b_interface_class < 256)
    × (d.b_interface_sub_class < 256)
    × (d.b_interface_protocol < 256)
    × (d.i_interface < 256)

-- Both calls return the same count, and as many bytes from the start of each buffer are the same.
unfoldable pub SameBytes : Option (ℕ × List ℕ) → Option (ℕ × List ℕ) → Type 0
SameBytes into_words into_bytes =
    (count : ℕ) × (words : List ℕ) × (bytes : List ℕ) × (into_words ≡ some (count, words))
    × (into_bytes ≡ some (count, bytes))
    × (take count (le_bytes words) ≡ take count bytes)

last_byte :
    (a : ℕ) (ws : List ℕ)
    → a < 256
    → le_bytes (a ∷ ws) ≡ a ∷ a / 2 ^ 8 % 256 ∷ a / 2 ^ 16 % 256 ∷ a / 2 ^ 24 % 256 ∷ le_bytes ws
unfolding le_bytes
last_byte a ws p = let e : a % 256 ≡ a = omega arith in rw e refl

put_all-SameBytes :
    (count : ℕ) (new_words new_bytes words bytes : List ℕ)
    → length new_words ≤ length words
    → length new_bytes ≤ length bytes
    → take count (le_bytes (new_words ++ drop (length new_words) words))
      ≡ take count (new_bytes ++ drop (length new_bytes) bytes)
    → SameBytes
        (returning count (put_all 0 new_words words))
        (returning count (put_all 0 new_bytes bytes))
unfolding SameBytes
put_all-SameBytes count new_words new_bytes words bytes p q same = (
  count,
  new_words ++ drop (length new_words) words,
  new_bytes ++ drop (length new_bytes) bytes,
  ap (returning count) (put_all-front new_words words p),
  ap (returning count) (put_all-front new_bytes bytes q),
  same,
)

configuration-SameBytes :
    (d : ConfigurationDescriptor) (words bytes : List ℕ)
    → IsConfiguration d
    → length words ≡ 64
    → 9 ≤ length bytes
    → SameBytes (configuration_into_u32_buf d words) (configuration_into_u8_buf d bytes)
unfolding IsConfiguration configuration_into_u32_buf configuration_into_u8_buf configuration_words
    configuration_bytes
configuration-SameBytes d words bytes (p0, p1, p2, p3, p4, p5, p6, p7) e fits =
    put_all-SameBytes 9 (configuration_words d) (configuration_bytes d) words bytes (omega arith)
      (omega arith)
      (rw
        (
          bytes_of_half_word d.b_length d.b_descriptor_type d.w_total_length _ p0 p1 p2,
          bytes_of_word d.b_num_interfaces d.b_configuration_value d.i_configuration d.bm_attributes
              _ p3 p4 p5 p6,
        )
        (rw (last_byte d.b_max_power (drop 3 words) p7) refl))

interface-SameBytes :
    (d : InterfaceDescriptor) (words bytes : List ℕ)
    → IsInterface d
    → length words ≡ 64
    → 9 ≤ length bytes
    → SameBytes (interface_into_u32_buf d words) (interface_into_u8_buf d bytes)
unfolding IsInterface interface_into_u32_buf interface_into_u8_buf interface_words interface_bytes
interface-SameBytes d words bytes (p0, p1, p2, p3, p4, p5, p6, p7, p8) e fits =
    put_all-SameBytes 9 (interface_words d) (interface_bytes d) words bytes (omega arith)
      (omega arith)
      (rw
        (
          bytes_of_word d.b_length d.b_descriptor_type d.b_interface_number d.b_alternate_setting _
              p0 p1 p2 p3,
          bytes_of_word d.b_num_endpoints d.b_interface_class d.b_interface_sub_class
              d.b_interface_protocol _ p4 p5 p6 p7,
        )
        (rw (last_byte d.i_interface (drop 3 words) p8) refl))

-- A configuration and an interface descriptor whose fields are in the range of their types: each,
-- written into the 64 words of a FIFO buffer and into a buffer of at least 9 bytes, does not panic
-- and returns the same count, and as many bytes from the start of both buffers are the same, those
-- of a word from the lowest on.
pub into_buffers-SameBytes :
    (c : ConfigurationDescriptor) (d : InterfaceDescriptor) (words bytes : List ℕ)
    → IsConfiguration c
    → IsInterface d
    → length words ≡ 64
    → 9 ≤ length bytes
    → SameBytes (configuration_into_u32_buf c words) (configuration_into_u8_buf c bytes)
      × SameBytes (interface_into_u32_buf d words) (interface_into_u8_buf d bytes)
into_buffers-SameBytes c d words bytes p q e fits =
    (configuration-SameBytes c words bytes p e fits, interface-SameBytes d words bytes q e fits)
