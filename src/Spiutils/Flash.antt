-- ===== src/Spiutils/Flash.antt =====
-- shared-lib/spiutils/src/protocol/flash.rs: the SPI flash header. The type of addresses, `ux::u24`
-- or u32, is its width in bytes, 3 or 4.
pub mod OpCodes
pub mod OpCodeLaws
pub mod RoundTrip
pub mod Length
use tock_on_titan.Common.{
  ℕ, zero, suc, ◌^◌, ◌<◌, ◌≡◌, Bool, true, false, Option, none, some, ltb, if◌then◌else◌,
}
use mathlib.Core.Option
use tock_on_titan.Spiutils.Io.{
  ok, err, invalid_data, ByteOrder, Reader, Writer, ◌>>=◌, ◌>>◌, succeed, read_u8, write_u8,
  read_int, write_int,
}
use tock_on_titan.Spiutils.Wire.{enum_from_wire, enum_to_wire}
use OpCodes.{OpCode, op_code}

pub data AddressMode : Type 0 where
  three_byte four_byte : AddressMode

-- `AddressMode::try_from(usize)`: `InvalidAddressMode` is `none`.
unfoldable pub address_mode_try_from : ℕ → Option AddressMode
address_mode_try_from zero = some three_byte
address_mode_try_from (suc zero) = some four_byte
address_mode_try_from (suc (suc n)) = none

-- `usize::from(AddressMode)`
unfoldable pub address_mode_number : AddressMode → ℕ
address_mode_number three_byte = 0
address_mode_number four_byte = 1

unfoldable pub has_address : OpCode → Bool
has_address OpCode.sector_erase = true
has_address OpCode.block_erase_32kb = true
has_address OpCode.block_erase_64kb = true
has_address OpCode.page_program = true
has_address OpCode.read_sfdp = true
has_address OpCode.normal_read = true
has_address OpCode.fast_read = true
has_address OpCode.fast_read_4b = true
has_address OpCode.fast_read_dual_output = true
has_address _ = false

unfoldable pub has_dummy_byte : OpCode → Bool
has_dummy_byte OpCode.fast_read = true
has_dummy_byte OpCode.fast_read_4b = true
has_dummy_byte OpCode.fast_read_dual_output = true
has_dummy_byte _ = false

unfoldable pub has_data : OpCode → Bool
has_data OpCode.page_program = true
has_data _ = false

unfoldable pub wait_busy_clear : OpCode → Bool
wait_busy_clear OpCode.write_suspend = true
wait_busy_clear OpCode.write_resume = true
wait_busy_clear OpCode.sector_erase = true
wait_busy_clear OpCode.block_erase_32kb = true
wait_busy_clear OpCode.block_erase_64kb = true
wait_busy_clear OpCode.chip_erase = true
wait_busy_clear OpCode.chip_erase2 = true
wait_busy_clear OpCode.page_program = true
wait_busy_clear _ = false

abbrev pub dummy_byte_value : ℕ
dummy_byte_value = 0xff

-- `Address::try_from`: an address type of `width` bytes; `AddressConversionError` is `none`.
unfoldable pub address_try_from : ℕ → ℕ → Option ℕ
address_try_from width val = if ltb val (256 ^ width) then some val else none

pub record Header : Type 0 where
  pub opcode : OpCode
  pub address : Option ℕ

-- `self.address.map(|val| val.into())`
abbrev pub get_address : Header → Option ℕ
get_address h = h.address

module _ (be : ByteOrder) (width : ℕ) where
  read_address : Bool → Reader (Option ℕ)
  read_address false = succeed none
  read_address true = read_int be width >>= λ a. succeed (some a)

  skip_dummy : Bool → Reader (Unit {0})
  skip_dummy false = succeed tt
  skip_dummy true = read_u8 >>= λ _. succeed tt

  unfoldable pub header_from_wire : Reader Header
  unfolding read_address skip_dummy
  header_from_wire = do
    opcode ← enum_from_wire op_code
    address ← read_address (has_address opcode)
    dummy ← skip_dummy (has_dummy_byte opcode)
    succeed (record { opcode = opcode; address = address })

  write_address : Bool → Option ℕ → Writer
  write_address false address c = ok c
  write_address true none c = err (invalid_data, c)
  write_address true (some a) c = write_int be width a c

  write_dummy : Bool → Writer
  write_dummy false c = ok c
  write_dummy true c = write_u8 dummy_byte_value c

  unfoldable pub header_to_wire : Header → Writer
  unfolding write_address write_dummy
  header_to_wire h =
      enum_to_wire op_code h.opcode
      >> write_address (has_address h.opcode) h.address
      >> write_dummy (has_dummy_byte h.opcode)
