-- ===== src/Otpilot/Sfdp.antt =====
-- userspace/otpilot/src/sfdp.rs: the table by which the SPI device describes itself to a host.
pub mod Reader
use tock_on_titan.Common.{
  ℕ, ◌+◌, ◌-◌, ◌*◌, ◌/◌, ◌^◌, ◌%◌, bit_or, List, [], ◌∷◌, ◌++◌, Bool, Option, none, some, ltb,
  if◌then◌else◌, length,
}
use tock_on_titan.Spiutils.Flash.{AddressMode, three_byte, four_byte}
use tock_on_titan.Otpilot.SpiProcessor.Host.{erased}

abbrev pub dwords_header : List ℕ
dwords_header = 0x53 ∷ 0x46 ∷ 0x44 ∷ 0x50 ∷ 0x05 ∷ 0x01 ∷ 0x01 ∷ 0xff ∷ []

-- The headers of the two parameter tables.
abbrev pub dwords_parameter_headers : List ℕ
dwords_parameter_headers =
    0x00 ∷ 0x05 ∷ 0x01 ∷ 0x10 ∷ 0x18 ∷ 0x00 ∷ 0x00 ∷ 0xff ∷ 0x26 ∷ 0x00 ∷ 0x01 ∷ 0x04 ∷ 0x58 ∷ 0x00
    ∷ 0x00 ∷ 0x09 ∷ []

-- `match startup_address_mode { .. }`
abbrev pub address_bytes : AddressMode → Bool → ℕ
address_bytes three_byte support_address_mode_switch = if support_address_mode_switch then 1 else 0
address_bytes four_byte support_address_mode_switch = 2

abbrev pub dword_1 : AddressMode → Bool → List ℕ
dword_1 mode switch =
    bit_or 0x1 (bit_or (0x1 * 2 ^ 2) (0x1 * 2 ^ 4))
    ∷ 0x20
    ∷ address_bytes mode switch * 2
    ∷ 0x0
    ∷ []

-- `& 0xff` is written as the remainder by 2 ^ 8.
-- The density; the top bit says that it is in bits.
abbrev pub dword_2 : ℕ → List ℕ
dword_2 image_size_bits =
    image_size_bits % 2 ^ 8
    ∷ image_size_bits / 2 ^ 8 % 2 ^ 8
    ∷ image_size_bits / 2 ^ 16 % 2 ^ 8
    ∷ image_size_bits / 2 ^ 24 % 2 ^ 7
    ∷ []

-- Fast reads, and the types of sectors to erase.
abbrev pub dwords_3_to_9 : List ℕ
dwords_3_to_9 =
    0x0 ∷ 0x0 ∷ 0x0 ∷ 0x0 ∷ 0x8 ∷ 0x3b ∷ 0x0 ∷ 0x0 ∷ 0xee ∷ 0xff ∷ 0xff ∷ 0xff ∷ 0xff ∷ 0xff ∷ 0x00
    ∷ 0x00 ∷ 0xff ∷ 0xff ∷ 0x00 ∷ 0x00 ∷ 12 ∷ 0x20 ∷ 0 ∷ 0 ∷ 0 ∷ 0 ∷ 0 ∷ 0 ∷ []

-- The times of erasing and programming, and suspending.
abbrev pub dwords_10_to_13 : List ℕ
dwords_10_to_13 =
    bit_or 1 (0 * 2 ^ 4)
    ∷ bit_or (2 * 2 ^ 1) (0 * 2 ^ 3)
    ∷ 0x0
    ∷ 0x0
    ∷ bit_or 1 (8 * 2 ^ 4)
    ∷ bit_or 0xf (bit_or (1 * 2 ^ 5) (3 * 2 ^ 6))
    ∷ bit_or 3 (bit_or (1 * 2 ^ 2) (bit_or (0xf * 2 ^ 3) (1 * 2 ^ 7)))
    ∷ bit_or 1 (bit_or (3 * 2 ^ 5) (1 * 2 ^ 7))
    ∷ 0x0
    ∷ 1
    ∷ 0x0
    ∷ 1 * 2 ^ 7
    ∷ 0x00
    ∷ 0x00
    ∷ 0x00
    ∷ 0x00
    ∷ []

abbrev pub dwords_14_and_15 : List ℕ
dwords_14_and_15 = bit_or 3 (1 * 2 ^ 2) ∷ 0x0 ∷ 0x0 ∷ 1 * 2 ^ 7 ∷ 0x0 ∷ 0x0 ∷ 0x0 ∷ 0xff ∷ []

-- `startup_address_mode == AddressMode::ThreeByte`
abbrev pub is_three_byte : AddressMode → ℕ → ℕ
is_three_byte three_byte n = n
is_three_byte four_byte n = 0

-- Entering 4-byte addressing.
abbrev pub enter_four_byte : AddressMode → Bool → ℕ
enter_four_byte three_byte support_address_mode_switch =
    if support_address_mode_switch then 1 else 0
enter_four_byte four_byte support_address_mode_switch = 1 * 2 ^ 6

abbrev pub dword_16 : AddressMode → Bool → List ℕ
dword_16 mode switch =
    bit_or 0x2 (1 * 2 ^ 7)
    ∷ bit_or 0x0 (if switch then 1 * 2 ^ 6 else 0)
    ∷ bit_or (is_three_byte mode (1 * 2 ^ 3)) (is_three_byte mode (1 * 2 ^ 5))
    ∷ enter_four_byte mode switch
    ∷ []

abbrev pub le_bytes : ℕ → List ℕ
le_bytes n = n % 2 ^ 8 ∷ n / 2 ^ 8 % 2 ^ 8 ∷ n / 2 ^ 16 % 2 ^ 8 ∷ n / 2 ^ 24 % 2 ^ 8 ∷ []

abbrev pub google_table : ℕ → ℕ → ℕ → List ℕ
google_table mailbox_offset mailbox_size google_capabilities =
    0x47
    ∷ 0x4f
    ∷ 0x4f
    ∷ 0x47
    ∷ (le_bytes mailbox_offset ++ (le_bytes mailbox_size ++ le_bytes google_capabilities))

abbrev pub sfdp_table : ℕ → AddressMode → Bool → ℕ → ℕ → ℕ → List ℕ
sfdp_table image_size_bits mode switch mailbox_offset mailbox_size google_capabilities =
    dwords_header
    ++ (dwords_parameter_headers
        ++ (dword_1 mode switch
            ++ (dword_2 image_size_bits
                ++ (dwords_3_to_9
                    ++ (dwords_10_to_13
                        ++ (dwords_14_and_15
                            ++ (dword_16 mode switch
                                ++ google_table mailbox_offset mailbox_size
                                    google_capabilities)))))))

-- What is left in `data`; `TargetLenTooSmall` is `none`, and leaves `data` as it was.
unfoldable pub get_table : List ℕ → ℕ → AddressMode → Bool → ℕ → ℕ → ℕ → Option (List ℕ)
get_table target image_size_bits mode switch mailbox_offset mailbox_size google_capabilities =
    let sfdp =
      sfdp_table image_size_bits mode switch mailbox_offset mailbox_size google_capabilities in
    if ltb (length target) (length sfdp)
    then none
    else some (sfdp ++ erased (length target - length sfdp))
