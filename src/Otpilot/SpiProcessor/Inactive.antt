-- ===== src/Otpilot/SpiProcessor/Inactive.antt =====
-- spi_processor.rs: reading a message and preparing a response leave the calls as they are.
use tock_on_titan.Common.{ℕ, List, drop}
use tock_on_titan.Spiutils.Io.{Reader, Writer, new_cursor}
use tock_on_titan.Spiutils.Payload.{header_len}
use tock_on_titan.Otpilot.Drivers.{Drivers}
use tock_on_titan.Otpilot.Keeps.{
  Keeps-get, Keeps-succeed, Keeps-fail, Keeps-if, Keeps-Result, Keeps-modify,
}
use tock_on_titan.Otpilot.OnlyInactive.{KeepsOnlyInactive}
use tock_on_titan.Otpilot.SpiProcessor.{parse, to_u16, write_tx_buf}

module _ (d : Drivers) where
  pub parse-OnlyInactive :
      {A : Type 0} (p : Reader A) (bytes : List ℕ) → KeepsOnlyInactive d (parse p bytes)
  unfolding parse
  parse-OnlyInactive p bytes = Keeps-Result (p bytes) Keeps-succeed (λ e. Keeps-fail _)

  pub to_u16-OnlyInactive : (n : ℕ) → KeepsOnlyInactive d (to_u16 n)
  unfolding to_u16
  to_u16-OnlyInactive n = Keeps-if _ (Keeps-succeed n) (Keeps-fail _)

  pub write-OnlyInactive : (w : Writer) → KeepsOnlyInactive d (write_tx_buf w)
  unfolding write_tx_buf
  write-OnlyInactive w =
      Keeps-get (λ s. s.tx_buf) _
        (λ tx_buf.
          Keeps-Result (w (new_cursor (drop header_len tx_buf)))
            (λ c. Keeps-modify _ _ (λ s h. h) (Keeps-succeed _))
            (λ failed. Keeps-modify _ _ (λ s h. h) (Keeps-fail _)))
