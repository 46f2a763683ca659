-- ===== src/Otpilot/SpiProcessor/Packet/Inactive.antt =====
-- spi_processor.rs: what a packet erases and writes in the flash memory of the chip itself.
use tock_on_titan.Common.{ℕ, List, [], ◌∷◌, Bool, true, false}
use tock_on_titan.Spiutils.Io.{ByteOrder}
use tock_on_titan.Spiutils.Flash.{Header, header_from_wire}
use tock_on_titan.Spiutils.Flash.OpCodes.{OpCode}
use tock_on_titan.Otpilot.Drivers.{Drivers, State}
use tock_on_titan.Otpilot.Keeps.{
  Keeps-bind, Keeps-get, Keeps-succeed, Keeps-fail, Keeps-panic, Keeps-if, Keeps-Option,
}
use tock_on_titan.Otpilot.OnlyInactive.{IsFlashSegment, OnlyInactive, KeepsOnlyInactive}
use tock_on_titan.Otpilot.SpiProcessor.{SpiProcessorM, is_mailbox_address}
use tock_on_titan.Otpilot.SpiProcessor.Inactive.{parse-OnlyInactive}
use tock_on_titan.Otpilot.SpiProcessor.Payload.Inactive.{payload-OnlyInactive}
use tock_on_titan.Otpilot.SpiProcessor.Host.{spi_host_write}
use tock_on_titan.Otpilot.SpiProcessor.Host.Inactive.{host_write-OnlyInactive, clear-OnlyInactive}
use tock_on_titan.Otpilot.SpiProcessor.Packet.{
  address_width, if_write_enabled, page_program, process_erase, process_op_code, skip_dummy_byte,
  process_spi_header, process_spi_packet,
}

enabled-OnlyInactive :
    (d : Drivers) (m : SpiProcessorM (Unit {0}))
    → KeepsOnlyInactive d m
    → KeepsOnlyInactive d (if_write_enabled d m)
unfolding if_write_enabled
enabled-OnlyInactive d m k =
    Keeps-get (λ s. d.is_write_enable_set s.calls) _
      (λ enabled.
        Keeps-bind (Keeps-if enabled k (Keeps-succeed tt)) (λ _. clear-OnlyInactive d true true))

skip-OnlyInactive :
    (d : Drivers) (b : Bool) (bytes : List ℕ) → KeepsOnlyInactive d (skip_dummy_byte b bytes)
unfolding skip_dummy_byte
skip-OnlyInactive d false bytes = Keeps-succeed bytes
skip-OnlyInactive d true [] = Keeps-panic
skip-OnlyInactive d true (x ∷ bytes) = Keeps-succeed bytes

module _ (be : ByteOrder) (d : Drivers) (ro : IsFlashSegment d.inactive_ro)
    (rw_segment : IsFlashSegment d.inactive_rw) where
  program-OnlyInactive :
      (w : ℕ) (h : Header) (bytes : List ℕ) → KeepsOnlyInactive d (page_program be d w h bytes)
  unfolding page_program
  program-OnlyInactive w h bytes =
      Keeps-Option h.address
        (λ addr. enabled-OnlyInactive d _ (
          Keeps-if (is_mailbox_address addr) (payload-OnlyInactive be d ro rw_segment bytes)
            (host_write-OnlyInactive be d w h bytes)))
        (Keeps-fail _)

  process_erase-OnlyInactive :
      (w : ℕ) (h : Header) (bytes : List ℕ) → KeepsOnlyInactive d (process_erase be d w h bytes)
  unfolding process_erase
  process_erase-OnlyInactive w h bytes =
      Keeps-Option h.address
        (λ addr.
          Keeps-if (is_mailbox_address addr) (clear-OnlyInactive d true true)
            (enabled-OnlyInactive d _ (host_write-OnlyInactive be d w h bytes)))
        (Keeps-fail _)

  chip_erase-OnlyInactive :
      (w : ℕ) (h : Header) (bytes : List ℕ)
      → KeepsOnlyInactive d (if_write_enabled d (spi_host_write be d w h bytes))
  chip_erase-OnlyInactive w h bytes =
      enabled-OnlyInactive d _ (host_write-OnlyInactive be d w h bytes)

  op_code-OnlyInactive :
      (o : OpCode) (w : ℕ) (h : Header) (bytes : List ℕ)
      → KeepsOnlyInactive d (process_op_code be d o w h bytes)
  unfolding process_op_code
  op_code-OnlyInactive OpCode.page_program w h bytes = program-OnlyInactive w h bytes
  op_code-OnlyInactive OpCode.sector_erase w h bytes = process_erase-OnlyInactive w h bytes
  op_code-OnlyInactive OpCode.block_erase_32kb w h bytes = process_erase-OnlyInactive w h bytes
  op_code-OnlyInactive OpCode.block_erase_64kb w h bytes = process_erase-OnlyInactive w h bytes
  op_code-OnlyInactive OpCode.chip_erase w h bytes = chip_erase-OnlyInactive w h bytes
  op_code-OnlyInactive OpCode.chip_erase2 w h bytes = chip_erase-OnlyInactive w h bytes
  op_code-OnlyInactive _ w h bytes = Keeps-fail _

  -- Where the two inactive segments lie in flash memory, whatever packet is received and whatever
  -- the drivers answer, every page that is erased is a page of an inactive segment, and every
  -- write lies inside an inactive segment and is of at most 128 bytes, as before.
  pub process_spi_packet-OnlyInactive :
      (rx_buf : List ℕ) (s : State)
      → OnlyInactive d s.calls
      → OnlyInactive d (process_spi_packet be d rx_buf s).1.calls
  unfolding process_spi_packet process_spi_header
  process_spi_packet-OnlyInactive rx_buf s h =
      (Keeps-bind
          (parse-OnlyInactive d (header_from_wire be (address_width (d.address_mode s.calls)))
            rx_buf)
          (λ r.
            Keeps-bind (skip-OnlyInactive d _ r.1)
              (λ bytes. op_code-OnlyInactive r.0.opcode _ r.0 bytes))).keeps
        s h
