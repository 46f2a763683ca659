-- ===== src/Otpilot/Sfdp/Reader.antt =====
-- sfdp.rs: a host reads the table as JESD216 says.
use tock_on_titan.Common.{
  ℕ, zero, suc, ◌+◌, ◌-◌, ◌*◌, ◌/◌, ◌%◌, ◌^◌, ◌≤◌, ◌<◌, List, ◌++◌, Bool, true, false, Option, none,
  some, ◌==◌, ltb, if◌then◌else◌, length, length-append, get_or, drop, ◌≡◌, refl, arith,
}
use tock_on_titan.Spiutils.Flash.{AddressMode, three_byte, four_byte}
use tock_on_titan.Otpilot.SpiProcessor.Host.{erased}
use tock_on_titan.Otpilot.Sfdp.{address_bytes, sfdp_table, get_table}

-- A little-endian number of four bytes.
abbrev dword : List ℕ → ℕ → ℕ
dword table at =
    get_or table at 0
    + get_or table (at + 1) 0 * 2 ^ 8
    + get_or table (at + 2) 0 * 2 ^ 16
    + get_or table (at + 3) 0 * 2 ^ 24

-- Looks through `n` parameter headers, eight bytes each, for an ID of two bytes: the pointer to its
-- table.
abbrev find_table : ℕ → ℕ → ℕ → List ℕ → Option ℕ
find_table zero msb lsb headers = none
find_table (suc n) msb lsb headers = elim (get_or headers 0 0 == lsb) [
  | true ↦ elim (get_or headers 7 0 == msb) [
    | true ↦ some (dword headers 4 % 2 ^ 24)
    | false ↦ find_table n msb lsb (drop 8 headers)
  ]
  | false ↦ find_table n msb lsb (drop 8 headers)
]

-- The table of an ID, behind the signature `SFDP`; the header has one less than the number of
-- parameter headers.
abbrev table_of : ℕ → ℕ → List ℕ → Option ℕ
table_of msb lsb table =
    if dword table 0 == 0x50444653
    then find_table (get_or table 6 0 + 1) msb lsb (drop 8 table)
    else none

-- The number of bits of the memory, where the top bit of the density is clear: N + 1.
abbrev density : List ℕ → ℕ → ℕ
density table basic = dword table (basic + 4) + 1

-- How addresses are given: 0 for 3 bytes, 1 for 3 bytes at first and 4 on command, 2 for 4 bytes.
abbrev pub address_modes : AddressMode → Bool → ℕ
address_modes three_byte false = 0
address_modes three_byte true = 1
address_modes four_byte switch = 2

-- What a host reads in a table: the Basic Flash Parameter Table, of ID 0xff00, and the table of
-- Google, of ID 0x0926, which begins with the letters GOOG.
pub record Describes (table : List ℕ) (image_size_bits : ℕ) (mode : AddressMode) (switch : Bool)
    (mailbox_offset mailbox_size capabilities : ℕ) : Type 0 where
  pub basic : ℕ
  pub has_basic : table_of 0xff 0x00 table ≡ some basic
  pub bits : density table basic ≡ image_size_bits + 1
  pub addresses : get_or table (basic + 2) 0 / 2 % 4 ≡ address_modes mode switch
  pub google : ℕ
  pub has_google : table_of 0x09 0x26 table ≡ some google
  pub letters : dword table google ≡ 0x474f4f47
  pub offset : dword table (google + 4) ≡ mailbox_offset
  pub size : dword table (google + 8) ≡ mailbox_size
  pub can : dword table (google + 12) ≡ capabilities

dword-le_bytes :
    (n : ℕ)
    → n < 2 ^ 32
    → n % 2 ^ 8
        + n / 2 ^ 8 % 2 ^ 8 * 2 ^ 8
        + n / 2 ^ 16 % 2 ^ 8 * 2 ^ 16
        + n / 2 ^ 24 % 2 ^ 8 * 2 ^ 24
      ≡ n
dword-le_bytes n h = omega arith

density-bytes :
    (n : ℕ)
    → n < 2 ^ 31
    → n % 2 ^ 8
        + n / 2 ^ 8 % 2 ^ 8 * 2 ^ 8
        + n / 2 ^ 16 % 2 ^ 8 * 2 ^ 16
        + n / 2 ^ 24 % 2 ^ 7 * 2 ^ 24
        + 1
      ≡ n + 1
density-bytes n h = omega arith

address_field :
    (mode : AddressMode) (switch : Bool)
    → address_bytes mode switch * 2 / 2 % 4 ≡ address_modes mode switch
address_field three_byte false = refl
address_field three_byte true = refl
address_field four_byte switch = refl

length-erased : (n : ℕ) → length (erased n) ≡ n
length-erased zero = refl
length-erased (suc n) = omega (arith, length-erased n)

module _ (image_size_bits : ℕ) (mode : AddressMode) (switch : Bool)
    (mailbox_offset mailbox_size capabilities : ℕ) where
  abbrev sfdp : List ℕ
  sfdp = sfdp_table image_size_bits mode switch mailbox_offset mailbox_size capabilities

  -- A buffer of at least 104 bytes is filled with a table of its length, in which a host finds
  -- both parameter tables: the address modes, the mailbox's place and size, the capabilities, and
  -- a memory of one bit more than `image_size_bits`, which is below 2 ^ 31.
  pub get_table-Describes :
      (target : List ℕ)
      → 104 ≤ length target
      → image_size_bits < 2 ^ 31
      → mailbox_offset < 2 ^ 32
      → mailbox_size < 2 ^ 32
      → capabilities < 2 ^ 32
      → (table : List ℕ) × (get_table target image_size_bits mode switch mailbox_offset mailbox_size
            capabilities
          ≡ some table)
        × (length table ≡ length target)
        × Describes table image_size_bits mode switch mailbox_offset mailbox_size capabilities
  unfolding get_table
  get_table-Describes target room image place size can =
      let rest : List ℕ = erased (length target - 104) in
      let fits : ltb (length target) 104 ≡ false = ground arith in
      (
        sfdp ++ rest,
        rw fits,
        omega (arith, length-append {0} sfdp rest, length-erased (length target - 104)),
        record {
          basic = 24;
          has_basic = refl;
          bits = density-bytes image_size_bits image;
          addresses = address_field mode switch;
          google = 88;
          has_google = refl;
          letters = refl;
          offset = dword-le_bytes mailbox_offset place;
          size = dword-le_bytes mailbox_size size;
          can = dword-le_bytes capabilities can;
        },
      )
