-- ===== src/Otpilot/SpiProcessor.antt =====
-- userspace/otpilot/src/spi_processor.rs: its constants and errors, and what its methods share.
pub mod Response
pub mod Firmware
pub mod Payload
pub mod Host
pub mod Packet
pub mod Inactive
pub mod Ends
use tock_on_titan.Common.{
  ℕ, ◌+◌, ◌*◌, ◌^◌, List, ◌++◌, Bool, Option, ltb, leb, ◌&&◌, if◌then◌else◌, take, drop,
}
use tock_on_titan.Spiutils.Io.{
  FromWireError, out_of_range, ToWireError, ok, err, Reader, Writer, new_cursor, consumed_len,
}
use tock_on_titan.Spiutils.Payload.{header_len}
use tock_on_titan.Spiutils.Flash.OpCodes.{OpCode}
use tock_on_titan.Spiutils.Firmware.Enums.{ContentType}
use tock_on_titan.Otpilot.Drivers.{State, M, ◌>>=◌, ◌>>◌, succeed, fail, get, modify}

-- The variant `Format` is never made; an error of the manticore library carries nothing here.
pub data SpiProcessorError : Type 0 where
  from_wire_error : FromWireError → SpiProcessorError
  to_wire_error : ToWireError → SpiProcessorError
  tock manticore : SpiProcessorError
  unsupported_firmware_operation : ContentType → SpiProcessorError
  unsupported_op_code : OpCode → SpiProcessorError
  invalid_address : Option ℕ → SpiProcessorError

abbrev pub SpiProcessorM : Type 0 → Type 0
SpiProcessorM A = M SpiProcessorError A

abbrev pub spi_flash_size : ℕ
spi_flash_size = 0x4000000

abbrev pub spi_mailbox_address : ℕ
spi_mailbox_address = 0x80000

-- `spi_device::MAX_READ_BUFFER_SIZE`
abbrev pub spi_mailbox_size : ℕ
spi_mailbox_size = 512

abbrev pub spi_tx_buf_size : ℕ
spi_tx_buf_size = 512

-- `spi_host::MAX_READ_BUFFER_LENGTH`
abbrev pub max_read_buffer_length : ℕ
max_read_buffer_length = 128

-- `from_wire(&mut data)?`: the value, and the data that follow it.
unfoldable pub parse : {A : Type 0} → Reader A → List ℕ → SpiProcessorM (A × List ℕ)
parse p bytes = elim (p bytes) [ ok x ↦ succeed x | err e ↦ fail (from_wire_error e) ]

-- `u16::try_from(n).map_err(..)?`
unfoldable pub to_u16 : ℕ → SpiProcessorM ℕ
to_u16 n = if ltb n (2 ^ 16) then succeed n else fail (from_wire_error out_of_range)

-- Writes behind the room for a header in `SPI_TX_BUF`: `consumed_len`. A write that fails leaves
-- in the buffer what it has written before.
unfoldable pub write_tx_buf : Writer → SpiProcessorM ℕ
write_tx_buf w = do
  tx_buf ← get (λ s. s.tx_buf)
  elim (w (new_cursor (drop header_len tx_buf))) [
    | ok c ↦
        modify (λ s. record s { tx_buf = take header_len tx_buf ++ (c.written ++ c.room) })
        >> succeed (consumed_len c)
    | err (e, c) ↦
        modify (λ s. record s { tx_buf = take header_len tx_buf ++ (c.written ++ c.room) })
        >> fail (to_wire_error e)
  ]

-- Whether an address is that of the mailbox.
unfoldable pub is_mailbox_address : ℕ → Bool
is_mailbox_address addr =
    leb spi_mailbox_address addr && ltb addr (spi_mailbox_address + spi_mailbox_size)
