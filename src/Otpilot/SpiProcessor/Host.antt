-- ===== src/Otpilot/SpiProcessor/Host.antt =====
-- spi_processor.rs: passing a command on to the flash chip behind the SPI host.
pub mod Inactive
pub mod Ends
use tock_on_titan.Common.{
  ℕ, zero, suc, ◌+◌, ◌-◌, ◌%◌, ◌^◌, min, List, [], ◌∷◌, ◌++◌, Bool, true, false, Option, none, some,
  ◌==◌, if◌then◌else◌, length, take, drop,
}
use tock_on_titan.Spiutils.Io.{
  ok, err, out_of_range, ByteOrder, Cursor, Writer, ◌>>◌, new_cursor, consumed_len, write_bytes,
}
use tock_on_titan.Spiutils.Flash.{
  Header, header_to_wire, has_dummy_byte, wait_busy_clear, address_try_from,
}
use tock_on_titan.Spiutils.Flash.OpCodes.{OpCode}
use tock_on_titan.Otpilot.Drivers.{
  DriverCall, set_wait_busy_clear_in_transactions, read_write_bytes, wait_read_write_done,
  end_transaction_with_status, Drivers, State, done, failed, unfinished, ◌>>=◌, succeed, fail, call,
  try, get,
}
use tock_on_titan.Otpilot.SpiProcessor.{
  SpiProcessorError, from_wire_error, to_wire_error, tock, SpiProcessorM, max_read_buffer_length,
}

-- `[0xff; n]`
abbrev pub erased : ℕ → List ℕ
erased zero = []
erased (suc n) = 0xff ∷ erased n

write_skipped : Bool → Writer
write_skipped false c = ok c
write_skipped true c = write_bytes (0x0 ∷ []) c

-- The bytes of data that fit behind a header.
abbrev data_len_to_send : Cursor → List ℕ → ℕ
data_len_to_send c bytes = min (max_read_buffer_length - consumed_len c) (length bytes)

write_data : List ℕ → Writer
write_data bytes c = write_bytes (take (data_len_to_send c bytes) bytes) c

-- The address moves on by what has been sent, in u32 arithmetic.
unfoldable pub advance : ℕ → Header → ℕ → Option Header
advance width header delta = elim header.address [
  | none ↦ some header
  | some addr ↦ elim (address_try_from width ((addr + delta) % 2 ^ 32)) [
    | some next_addr ↦ some (record header { address = some next_addr })
    | none ↦ none
  ]
]

module _ (be : ByteOrder) (d : Drivers) where
  -- The front of a transaction: the header, one more byte where the opcode has a dummy byte.
  front_to_wire : ℕ → Header → Writer
  unfolding write_skipped
  front_to_wire width header =
      header_to_wire be width header >> write_skipped (has_dummy_byte header.opcode)

  -- A transaction of the bytes written, the rest of the buffer being 0xff.
  carry : Header → Cursor → ℕ → SpiProcessorM ℕ
  carry header c n = do
    _ ← try d tock (set_wait_busy_clear_in_transactions (wait_busy_clear header.opcode))
    _ ← try d tock (read_write_bytes (c.written ++ c.room) (consumed_len c))
    _ ← call wait_read_write_done
    succeed n

  -- One transaction: how many bytes of data it carries.
  send_transaction : ℕ → Header → List ℕ → SpiProcessorM ℕ
  unfolding front_to_wire write_data carry
  send_transaction width header bytes =
      elim (front_to_wire width header (new_cursor (erased max_read_buffer_length))) [
        | err (e, c) ↦ fail (to_wire_error e)
        | ok front ↦ elim (write_data bytes front) [
          | err (e, c) ↦ fail (to_wire_error e)
          | ok c ↦ carry header c (data_len_to_send front bytes)
        ]
      ]

  -- The loop, which ends where no data is left.
  send_rest : ℕ → ℕ → Header → List ℕ → SpiProcessorM (Unit {0}) → SpiProcessorM (Unit {0})
  unfolding send_transaction
  send_rest zero width header bytes pre_transaction_fn = λ s. (unfinished, s)
  send_rest (suc fuel) width header bytes pre_transaction_fn = do
    _ ← pre_transaction_fn
    n ← send_transaction width header bytes
    elim (advance width header n) [
      | none ↦ fail (from_wire_error out_of_range)
      | some next ↦ elim (length (drop n bytes) == 0) [
        | true ↦ succeed tt
        | false ↦ send_rest fuel width next (drop n bytes) pre_transaction_fn
      ]
    ]

  unfoldable pub spi_host_send :
      ℕ → Header → List ℕ → SpiProcessorM (Unit {0}) → SpiProcessorM (Unit {0})
  unfolding send_rest
  spi_host_send width header bytes pre_transaction_fn =
      send_rest (length bytes + 1) width header bytes pre_transaction_fn

  -- The command has no address and no data; its type of addresses is u32.
  unfoldable pub spi_host_write_enable : SpiProcessorM (Unit {0})
  spi_host_write_enable =
      spi_host_send 4 (record { opcode = OpCode.write_enable; address = none }) [] (succeed tt)

  unfoldable pub spi_host_write : ℕ → Header → List ℕ → SpiProcessorM (Unit {0})
  spi_host_write width header bytes = spi_host_send width header bytes spi_host_write_enable

module _ (d : Drivers) where
  unfoldable pub clear_device_status : Bool → Bool → SpiProcessorM (Unit {0})
  clear_device_status clear_busy clear_write_enable =
      try d tock (end_transaction_with_status clear_busy clear_write_enable)
