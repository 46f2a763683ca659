-- ===== src/Usb/Types.antt =====
-- kernel/h1/src/usb/types.rs: the descriptors, as records of numbers in the range of their fields,
-- and how they are written into the words of a FIFO buffer or into bytes. A write past the end of a
-- buffer panics, which is `none`.
pub mod Bytes
pub mod SameBytes
pub mod Strings
pub mod Endpoint
mod Tests
use tock_on_titan.Common.{
  ℕ, zero, suc, ◌+◌, ◌-◌, ◌*◌, ◌/◌, ◌%◌, ◌^◌, ◌<◌, bit_or, List, [], ◌∷◌, Option, none, some, ltb,
  ◌==◌, if◌then◌else◌, length, set, get_or,
}

-- `buf[i] = value`, and one after the other from `buf[i]` on.
unfoldable pub put : ℕ → ℕ → List ℕ → Option (List ℕ)
put i value buf = if ltb i (length buf) then some (set buf i value) else none

unfoldable pub put_all : ℕ → List ℕ → List ℕ → Option (List ℕ)
put_all i [] buf = some buf
put_all i (value ∷ values) buf = elim (put i value buf) [
  | none ↦ none
  | some next ↦ put_all (suc i) values next
]

-- The number of bytes written, with the buffer.
abbrev pub returning : ℕ → Option (List ℕ) → Option (ℕ × List ℕ)
returning count none = none
returning count (some buf) = some (count, buf)

pub record ConfigurationDescriptor : Type 0 where
  pub b_length : ℕ
  pub b_descriptor_type : ℕ
  pub w_total_length : ℕ
  pub b_num_interfaces : ℕ
  pub b_configuration_value : ℕ
  pub i_configuration : ℕ
  pub bm_attributes : ℕ
  pub b_max_power : ℕ

abbrev pub configuration_descriptor_length : ℕ
configuration_descriptor_length = 9

unfoldable pub new_configuration : ℕ → ℕ → ℕ → ConfigurationDescriptor
new_configuration num_interfaces i_configuration b_max_power = record {
  b_length = configuration_descriptor_length;
  b_descriptor_type = 2;
  w_total_length = configuration_descriptor_length;
  b_num_interfaces = num_interfaces;
  b_configuration_value = 1;
  i_configuration = i_configuration;
  bm_attributes = 0x80;
  b_max_power = b_max_power;
}

unfoldable pub configuration_words : ConfigurationDescriptor → List ℕ
configuration_words d =
    bit_or (bit_or d.b_length (d.b_descriptor_type * 2 ^ 8)) (d.w_total_length * 2 ^ 16)
    ∷ bit_or
        (bit_or (bit_or d.b_num_interfaces (d.b_configuration_value * 2 ^ 8))
          (d.i_configuration * 2 ^ 16))
        (d.bm_attributes * 2 ^ 24)
    ∷ d.b_max_power
    ∷ []

unfoldable pub configuration_into_u32_buf : ConfigurationDescriptor → List ℕ → Option (ℕ × List ℕ)
configuration_into_u32_buf d buf =
    returning configuration_descriptor_length (put_all 0 (configuration_words d) buf)

unfoldable pub configuration_bytes : ConfigurationDescriptor → List ℕ
configuration_bytes d =
    d.b_length
    ∷ d.b_descriptor_type
    ∷ d.w_total_length % 256
    ∷ d.w_total_length / 2 ^ 8 % 256
    ∷ d.b_num_interfaces
    ∷ d.b_configuration_value
    ∷ d.i_configuration
    ∷ d.bm_attributes
    ∷ d.b_max_power
    ∷ []

unfoldable pub configuration_into_u8_buf : ConfigurationDescriptor → List ℕ → Option (ℕ × List ℕ)
configuration_into_u8_buf d buf =
    returning configuration_descriptor_length (put_all 0 (configuration_bytes d) buf)

unfoldable pub set_total_length : ConfigurationDescriptor → ℕ → ConfigurationDescriptor
set_total_length d len = record d { w_total_length = len }

pub record InterfaceDescriptor : Type 0 where
  pub b_length : ℕ
  pub b_descriptor_type : ℕ
  pub b_interface_number : ℕ
  pub b_alternate_setting : ℕ
  pub b_num_endpoints : ℕ
  pub b_interface_class : ℕ
  pub b_interface_sub_class : ℕ
  pub b_interface_protocol : ℕ
  pub i_interface : ℕ

unfoldable pub new_interface : ℕ → ℕ → ℕ → ℕ → ℕ → InterfaceDescriptor
new_interface interface_string which class sub_class protocol = record {
  b_length = 9;
  b_descriptor_type = 4;
  b_interface_number = which;
  b_alternate_setting = 0;
  b_num_endpoints = 2;
  b_interface_class = class;
  b_interface_sub_class = sub_class;
  b_interface_protocol = protocol;
  i_interface = interface_string;
}

unfoldable pub interface_words : InterfaceDescriptor → List ℕ
interface_words d =
    bit_or
      (bit_or (bit_or d.b_length (d.b_descriptor_type * 2 ^ 8)) (d.b_interface_number * 2 ^ 16))
      (d.b_alternate_setting * 2 ^ 24)
    ∷ bit_or
        (bit_or (bit_or d.b_num_endpoints (d.b_interface_class * 2 ^ 8))
          (d.b_interface_sub_class * 2 ^ 16))
        (d.b_interface_protocol * 2 ^ 24)
    ∷ d.i_interface
    ∷ []

unfoldable pub interface_into_u32_buf : InterfaceDescriptor → List ℕ → Option (ℕ × List ℕ)
interface_into_u32_buf d buf = returning 9 (put_all 0 (interface_words d) buf)

unfoldable pub interface_bytes : InterfaceDescriptor → List ℕ
interface_bytes d =
    d.b_length ∷ d.b_descriptor_type ∷ d.b_interface_number ∷ d.b_alternate_setting
    ∷ d.b_num_endpoints ∷ d.b_interface_class ∷ d.b_interface_sub_class ∷ d.b_interface_protocol
    ∷ d.i_interface ∷ []

unfoldable pub interface_into_u8_buf : InterfaceDescriptor → List ℕ → Option (ℕ × List ℕ)
interface_into_u8_buf d buf = returning 9 (put_all 0 (interface_bytes d) buf)

pub record StringDescriptor : Type 0 where
  pub b_length : ℕ
  pub b_descriptor_type : ℕ
  pub b_string : List ℕ

unfoldable pub new_string : List ℕ → StringDescriptor
new_string str = record {
  b_length = (length str * 2 + 2) % 256;
  b_descriptor_type = 3;
  b_string = str;
}

unfoldable pub put_character : ℕ → ℕ → List ℕ → Option (List ℕ)
put_character i c buf =
    if i % 2 == 1
    then put (i / 2 + 1) c buf
    else put (i / 2) (bit_or (get_or buf (i / 2) 0) (c * 2 ^ 16)) buf

-- The loop over the characters from the second on, of which the next has the index `i`.
unfoldable pub put_characters : ℕ → List ℕ → List ℕ → Option (List ℕ)
put_characters i [] buf = some buf
put_characters i (c ∷ cs) buf = elim (put_character i c buf) [
  | none ↦ none
  | some next ↦ put_characters (suc i) cs next
]

unfoldable pub string_into_u32_buf : StringDescriptor → List ℕ → Option (ℕ × List ℕ)
string_into_u32_buf d buf =
    let head = bit_or d.b_length (d.b_descriptor_type * 2 ^ 8) in
    elim d.b_string [
      | [] ↦ returning 2 (put 0 head buf)
      | c ∷ cs ↦
          returning (2 + 2 * length d.b_string) (elim (put 0 (bit_or head (c * 2 ^ 16)) buf) [
            | none ↦ none
            | some next ↦ put_characters 1 cs next
          ])
    ]
