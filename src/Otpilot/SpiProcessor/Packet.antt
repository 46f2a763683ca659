-- ===== src/Otpilot/SpiProcessor/Packet.antt =====
-- spi_processor.rs: an SPI packet, by its opcode and address.
pub mod Inactive
pub mod Ends
use tock_on_titan.Common.{ℕ, List, [], ◌∷◌, Bool, true, false, Option, none, some, if◌then◌else◌}
use tock_on_titan.Spiutils.Io.{ByteOrder}
use tock_on_titan.Spiutils.Flash.{
  AddressMode, three_byte, four_byte, Header, header_from_wire, has_dummy_byte,
}
use tock_on_titan.Spiutils.Flash.OpCodes.{OpCode}
use tock_on_titan.Otpilot.Drivers.{Drivers, State, ◌>>=◌, ◌>>◌, succeed, fail, panic, get}
use tock_on_titan.Otpilot.SpiProcessor.{
  SpiProcessorError, invalid_address, unsupported_op_code, SpiProcessorM, parse, is_mailbox_address,
}
use tock_on_titan.Otpilot.SpiProcessor.Payload.{process_spi_payload}
use tock_on_titan.Otpilot.SpiProcessor.Host.{spi_host_write, clear_device_status}

-- The width in bytes of the addresses of a mode.
unfoldable pub address_width : AddressMode → ℕ
address_width three_byte = 3
address_width four_byte = 4

-- `&rx_buf[1..]` panics where there is no byte.
skip_dummy_byte : Bool → List ℕ → SpiProcessorM (List ℕ)
skip_dummy_byte false rx_buf = succeed rx_buf
skip_dummy_byte true [] = panic
skip_dummy_byte true (_ ∷ bytes) = succeed bytes

module _ (d : Drivers) where
  -- `if spi_device::get().is_write_enable_set() { .. }`, then both status bits are cleared.
  unfoldable pub if_write_enabled : SpiProcessorM (Unit {0}) → SpiProcessorM (Unit {0})
  if_write_enabled m = do
    enabled ← get (λ s. d.is_write_enable_set s.calls)
    if enabled then m else succeed tt
    clear_device_status d true true

module _ (be : ByteOrder) (d : Drivers) where
  page_program : ℕ → Header → List ℕ → SpiProcessorM (Unit {0})
  page_program width header bytes = elim header.address [
    | some addr ↦ if_write_enabled d (
        if is_mailbox_address addr
        then process_spi_payload be d bytes
        else spi_host_write be d width header bytes)
    | none ↦ fail (invalid_address none)
  ]

  -- In the mailbox there is nothing to erase.
  process_erase : ℕ → Header → List ℕ → SpiProcessorM (Unit {0})
  process_erase width header bytes = elim header.address [
    | some addr ↦
        if is_mailbox_address addr
        then clear_device_status d true true
        else if_write_enabled d (spi_host_write be d width header bytes)
    | none ↦ fail (invalid_address none)
  ]

  process_op_code : OpCode → ℕ → Header → List ℕ → SpiProcessorM (Unit {0})
  unfolding page_program process_erase
  process_op_code OpCode.page_program width header bytes = page_program width header bytes
  process_op_code OpCode.sector_erase width header bytes = process_erase width header bytes
  process_op_code OpCode.block_erase_32kb width header bytes = process_erase width header bytes
  process_op_code OpCode.block_erase_64kb width header bytes = process_erase width header bytes
  process_op_code OpCode.chip_erase width header bytes =
      if_write_enabled d (spi_host_write be d width header bytes)
  process_op_code OpCode.chip_erase2 width header bytes =
      if_write_enabled d (spi_host_write be d width header bytes)
  process_op_code opcode width header bytes = fail (unsupported_op_code opcode)

  unfoldable pub process_spi_header : ℕ → Header → List ℕ → SpiProcessorM (Unit {0})
  unfolding process_op_code skip_dummy_byte
  process_spi_header width header rx_buf = do
    bytes ← skip_dummy_byte (has_dummy_byte header.opcode) rx_buf
    process_op_code header.opcode width header bytes

  unfoldable pub process_spi_packet : List ℕ → SpiProcessorM (Unit {0})
  process_spi_packet rx_buf = do
    width ← get (λ s. address_width (d.address_mode s.calls))
    r ← parse (header_from_wire be width) rx_buf
    process_spi_header width r.0 r.1
