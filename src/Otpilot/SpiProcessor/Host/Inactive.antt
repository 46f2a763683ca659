-- ===== src/Otpilot/SpiProcessor/Host/Inactive.antt =====
-- spi_processor.rs: passing a command on leaves the flash memory of the chip itself as it is.
use tock_on_titan.Common.{ℕ, zero, suc, ◌+◌, List, [], Bool, none, ◌==◌, length, drop}
use tock_on_titan.Spiutils.Io.{ByteOrder, new_cursor}
use tock_on_titan.Spiutils.Flash.{Header}
use tock_on_titan.Spiutils.Flash.OpCodes.{OpCode}
use tock_on_titan.Otpilot.Drivers.{Drivers, succeed}
use tock_on_titan.Otpilot.Keeps.{
  Keeps-bind, Keeps-succeed, Keeps-fail, Keeps-elim, Keeps-Option, Keeps-Result,
}
use tock_on_titan.Otpilot.OnlyInactive.{KeepsOnlyInactive, call-OnlyInactive, try-OnlyInactive}
use tock_on_titan.Otpilot.SpiProcessor.{SpiProcessorM, max_read_buffer_length}
use tock_on_titan.Otpilot.SpiProcessor.Host.{
  erased, write_data, advance, front_to_wire, carry, send_transaction, send_rest, spi_host_send,
  spi_host_write_enable, spi_host_write, clear_device_status,
}

module _ (be : ByteOrder) (d : Drivers) where
  carry-OnlyInactive : (h : Header) (c : _) (n : ℕ) → KeepsOnlyInactive d (carry be d h c n)
  unfolding carry
  carry-OnlyInactive h c n = Keeps-bind (try-OnlyInactive d _ _ tt) (λ _.
      Keeps-bind (try-OnlyInactive d _ _ tt)
        (λ _. Keeps-bind (call-OnlyInactive d _ tt) (λ _. Keeps-succeed n)))

  transaction-OnlyInactive :
      (w : ℕ) (h : Header) (bytes : List ℕ) → KeepsOnlyInactive d (send_transaction be d w h bytes)
  unfolding send_transaction
  transaction-OnlyInactive w h bytes =
      Keeps-Result (front_to_wire be d w h (new_cursor (erased max_read_buffer_length)))
        (λ front.
          Keeps-Result (write_data bytes front) (λ c. carry-OnlyInactive h c _) (λ e. Keeps-fail _))
        (λ e. Keeps-fail _)

  rest-OnlyInactive :
      (fuel w : ℕ) (h : Header) (bytes : List ℕ) (pre : SpiProcessorM (Unit {0}))
      → KeepsOnlyInactive d pre
      → KeepsOnlyInactive d (send_rest be d fuel w h bytes pre)
  unfolding send_rest
  rest-OnlyInactive zero w h bytes pre k = record { keeps = λ s p. p }
  rest-OnlyInactive (suc fuel) w h bytes pre k = Keeps-bind k (λ _.
      Keeps-bind (transaction-OnlyInactive w h bytes) (λ n.
        Keeps-Option (advance w h n)
          (λ next.
            Keeps-elim (length (drop n bytes) == 0) (Keeps-succeed tt)
              (rest-OnlyInactive fuel w next (drop n bytes) pre k))
          (Keeps-fail _)))

  enable-OnlyInactive : KeepsOnlyInactive d (spi_host_write_enable be d)
  unfolding spi_host_write_enable spi_host_send
  enable-OnlyInactive =
      rest-OnlyInactive 1 4 (record { opcode = OpCode.write_enable; address = none }) []
        (succeed tt) (Keeps-succeed tt)

  pub host_write-OnlyInactive :
      (w : ℕ) (h : Header) (bytes : List ℕ) → KeepsOnlyInactive d (spi_host_write be d w h bytes)
  unfolding spi_host_write spi_host_send
  host_write-OnlyInactive w h bytes =
      rest-OnlyInactive (length bytes + 1) w h bytes (spi_host_write_enable be d)
        enable-OnlyInactive

pub clear-OnlyInactive :
    (d : Drivers) (a b : Bool) → KeepsOnlyInactive d (clear_device_status d a b)
unfolding clear_device_status
clear-OnlyInactive d a b = try-OnlyInactive d _ _ tt
