-- ===== src/Otpilot/SpiProcessor/Packet/Ends.antt =====
-- spi_processor.rs: a packet is handled to the end.
use tock_on_titan.Common.{◌≤◌, ◌≢◌, arith, ℕ, List, [], ◌∷◌, Bool, true, false}
use tock_on_titan.Spiutils.Io.{ByteOrder}
use tock_on_titan.Spiutils.Flash.{
  AddressMode, three_byte, four_byte, Header, header_from_wire, has_dummy_byte,
}
use tock_on_titan.Spiutils.Flash.OpCodes.{OpCode}
use tock_on_titan.Otpilot.Drivers.{Drivers, State, unfinished}
use tock_on_titan.Otpilot.Ends.{
  AlwaysEnds, Ends-bind, Ends-get, Ends-fail, Ends-panic, AlwaysEnds-succeed, Ends-if, Ends-Option,
  AlwaysEnds-ended,
}
use tock_on_titan.Otpilot.SpiProcessor.{SpiProcessorM, is_mailbox_address}
use tock_on_titan.Otpilot.SpiProcessor.Ends.{parse-Ends}
use tock_on_titan.Otpilot.SpiProcessor.Payload.Ends.{payload-Ends}
use tock_on_titan.Otpilot.SpiProcessor.Host.{spi_host_write}
use tock_on_titan.Otpilot.SpiProcessor.Host.Ends.{host_write-Ends, clear-Ends}
use tock_on_titan.Otpilot.SpiProcessor.Packet.{
  address_width, if_write_enabled, page_program, process_erase, process_op_code, skip_dummy_byte,
  process_spi_header, process_spi_packet,
}

enabled-Ends :
    (d : Drivers) (m : SpiProcessorM (Unit {0})) → AlwaysEnds m → AlwaysEnds (if_write_enabled d m)
unfolding if_write_enabled
enabled-Ends d m k =
    Ends-get (λ s. d.is_write_enable_set s.calls) _
      (λ enabled.
        Ends-bind (Ends-if enabled k (AlwaysEnds-succeed tt)) (λ _. clear-Ends d true true))

skip-Ends : (b : Bool) (bytes : List ℕ) → AlwaysEnds (skip_dummy_byte b bytes)
unfolding skip_dummy_byte
skip-Ends false bytes = AlwaysEnds-succeed bytes
skip-Ends true [] = Ends-panic
skip-Ends true (x ∷ bytes) = AlwaysEnds-succeed bytes

module _ (be : ByteOrder) (d : Drivers) where
  program-Ends :
      (w : ℕ) (h : Header) (bytes : List ℕ) → w ≤ 4 → AlwaysEnds (page_program be d w h bytes)
  unfolding page_program
  program-Ends w h bytes small =
      Ends-Option h.address
        (λ addr. enabled-Ends d _ (
          Ends-if (is_mailbox_address addr) (payload-Ends be d bytes)
            (host_write-Ends be d w h bytes small)))
        (Ends-fail _)

  process_erase-Ends :
      (w : ℕ) (h : Header) (bytes : List ℕ) → w ≤ 4 → AlwaysEnds (process_erase be d w h bytes)
  unfolding process_erase
  process_erase-Ends w h bytes small =
      Ends-Option h.address
        (λ addr.
          Ends-if (is_mailbox_address addr) (clear-Ends d true true)
            (enabled-Ends d _ (host_write-Ends be d w h bytes small)))
        (Ends-fail _)

  chip_erase-Ends :
      (w : ℕ) (h : Header) (bytes : List ℕ)
      → w ≤ 4
      → AlwaysEnds (if_write_enabled d (spi_host_write be d w h bytes))
  chip_erase-Ends w h bytes small = enabled-Ends d _ (host_write-Ends be d w h bytes small)

  op_code-Ends :
      (o : OpCode) (w : ℕ) (h : Header) (bytes : List ℕ)
      → w ≤ 4
      → AlwaysEnds (process_op_code be d o w h bytes)
  unfolding process_op_code
  op_code-Ends OpCode.page_program w h bytes small = program-Ends w h bytes small
  op_code-Ends OpCode.sector_erase w h bytes small = process_erase-Ends w h bytes small
  op_code-Ends OpCode.block_erase_32kb w h bytes small = process_erase-Ends w h bytes small
  op_code-Ends OpCode.block_erase_64kb w h bytes small = process_erase-Ends w h bytes small
  op_code-Ends OpCode.chip_erase w h bytes small = chip_erase-Ends w h bytes small
  op_code-Ends OpCode.chip_erase2 w h bytes small = chip_erase-Ends w h bytes small
  op_code-Ends _ w h bytes small = Ends-fail _

  width-small : (mode : AddressMode) → address_width mode ≤ 4
  unfolding address_width
  width-small three_byte = omega arith
  width-small four_byte = omega arith

  packet-Ends : (rx_buf : List ℕ) → AlwaysEnds (process_spi_packet be d rx_buf)
  unfolding process_spi_packet process_spi_header
  packet-Ends rx_buf = record {
    ends = λ s p.
        let mode = d.address_mode s.calls in
        let w = address_width mode in
        let packet = Ends-bind (parse-Ends (header_from_wire be w) rx_buf) (λ r.
          Ends-bind (skip-Ends (has_dummy_byte r.0.opcode) r.1)
            (λ bytes. op_code-Ends r.0.opcode w r.0 bytes (width-small mode))) in
        packet.ends s tt;
  }

  -- Whatever packet is received, whatever the drivers answer and whatever the state, handling the
  -- packet comes to an end: it does not run out of the rounds that the loops are given.
  pub process_spi_packet-ends :
      (rx_buf : List ℕ) (s : State) → (process_spi_packet be d rx_buf s).0 ≢ unfinished
  process_spi_packet-ends rx_buf = AlwaysEnds-ended (packet-Ends rx_buf)
