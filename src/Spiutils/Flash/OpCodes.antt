-- ===== src/Spiutils/Flash/OpCodes.antt =====
-- shared-lib/spiutils/src/protocol/flash.rs: the SPI flash op codes.
use tock_on_titan.Common.{ℕ, [], ◌∷◌}
use Prim.Native.String.{String}
use tock_on_titan.Spiutils.Wire.{WireEnum}

-- `OpCode` of flash.rs.
pub data OpCode : Type 0 where
  nop write_status_register read_status_register write_disable write_enable write_suspend
        write_resume sector_erase block_erase_32kb block_erase_64kb chip_erase chip_erase2
        page_program read_jedec read_sfdp normal_read fast_read fast_read_4b fast_read_dual_output
        enter_4_byte_address_mode exit_4_byte_address_mode :
      OpCode

op_code_value : OpCode → ℕ
op_code_value OpCode.nop = 0x00
op_code_value OpCode.write_status_register = 0x01
op_code_value OpCode.read_status_register = 0x05
op_code_value OpCode.write_disable = 0x04
op_code_value OpCode.write_enable = 0x06
op_code_value OpCode.write_suspend = 0xb0
op_code_value OpCode.write_resume = 0x30
op_code_value OpCode.sector_erase = 0x20
op_code_value OpCode.block_erase_32kb = 0x52
op_code_value OpCode.block_erase_64kb = 0xd8
op_code_value OpCode.chip_erase = 0xc7
op_code_value OpCode.chip_erase2 = 0x60
op_code_value OpCode.page_program = 0x02
op_code_value OpCode.read_jedec = 0x9f
op_code_value OpCode.read_sfdp = 0x5a
op_code_value OpCode.normal_read = 0x03
op_code_value OpCode.fast_read = 0x0b
op_code_value OpCode.fast_read_4b = 0x0c
op_code_value OpCode.fast_read_dual_output = 0x3b
op_code_value OpCode.enter_4_byte_address_mode = 0xb7
op_code_value OpCode.exit_4_byte_address_mode = 0xe9

op_code_name : OpCode → String
op_code_name OpCode.nop = "Nop"
op_code_name OpCode.write_status_register = "WriteStatusRegister"
op_code_name OpCode.read_status_register = "ReadStatusRegister"
op_code_name OpCode.write_disable = "WriteDisable"
op_code_name OpCode.write_enable = "WriteEnable"
op_code_name OpCode.write_suspend = "WriteSuspend"
op_code_name OpCode.write_resume = "WriteResume"
op_code_name OpCode.sector_erase = "SectorErase"
op_code_name OpCode.block_erase_32kb = "BlockErase32KB"
op_code_name OpCode.block_erase_64kb = "BlockErase64KB"
op_code_name OpCode.chip_erase = "ChipErase"
op_code_name OpCode.chip_erase2 = "ChipErase2"
op_code_name OpCode.page_program = "PageProgram"
op_code_name OpCode.read_jedec = "ReadJedec"
op_code_name OpCode.read_sfdp = "ReadSfdp"
op_code_name OpCode.normal_read = "NormalRead"
op_code_name OpCode.fast_read = "FastRead"
op_code_name OpCode.fast_read_4b = "FastRead4B"
op_code_name OpCode.fast_read_dual_output = "FastReadDualOutput"
op_code_name OpCode.enter_4_byte_address_mode = "Enter4ByteAddressMode"
op_code_name OpCode.exit_4_byte_address_mode = "Exit4ByteAddressMode"

unfoldable pub op_code : WireEnum OpCode
unfolding op_code_value op_code_name
op_code = record {
  arms =
      (0x00, "Nop", OpCode.nop)
      ∷ (0x01, "WriteStatusRegister", OpCode.write_status_register)
      ∷ (0x05, "ReadStatusRegister", OpCode.read_status_register)
      ∷ (0x04, "WriteDisable", OpCode.write_disable)
      ∷ (0x06, "WriteEnable", OpCode.write_enable)
      ∷ (0xb0, "WriteSuspend", OpCode.write_suspend)
      ∷ (0x30, "WriteResume", OpCode.write_resume)
      ∷ (0x20, "SectorErase", OpCode.sector_erase)
      ∷ (0x52, "BlockErase32KB", OpCode.block_erase_32kb)
      ∷ (0xd8, "BlockErase64KB", OpCode.block_erase_64kb)
      ∷ (0xc7, "ChipErase", OpCode.chip_erase)
      ∷ (0x60, "ChipErase2", OpCode.chip_erase2)
      ∷ (0x02, "PageProgram", OpCode.page_program)
      ∷ (0x9f, "ReadJedec", OpCode.read_jedec)
      ∷ (0x5a, "ReadSfdp", OpCode.read_sfdp)
      ∷ (0x03, "NormalRead", OpCode.normal_read)
      ∷ (0x0b, "FastRead", OpCode.fast_read)
      ∷ (0x0c, "FastRead4B", OpCode.fast_read_4b)
      ∷ (0x3b, "FastReadDualOutput", OpCode.fast_read_dual_output)
      ∷ (0xb7, "Enter4ByteAddressMode", OpCode.enter_4_byte_address_mode)
      ∷ (0xe9, "Exit4ByteAddressMode", OpCode.exit_4_byte_address_mode)
      ∷ [];
  to_wire_value = op_code_value;
  name = op_code_name;
}
