-- ===== src/Otpilot/SpiProcessor/Ends.antt =====
-- spi_processor.rs: reading a message and preparing a response come to an end.
use tock_on_titan.Common.{ℕ, List, drop}
use tock_on_titan.Spiutils.Io.{Reader, Writer, new_cursor}
use tock_on_titan.Spiutils.Payload.{header_len}
use tock_on_titan.Otpilot.Ends.{
  AlwaysEnds, Ends-get, Ends-fail, AlwaysEnds-succeed, Ends-if, Ends-Result, Ends-modify,
}
use tock_on_titan.Otpilot.SpiProcessor.{parse, to_u16, write_tx_buf}

pub parse-Ends : {A : Type 0} (p : Reader A) (bytes : List ℕ) → AlwaysEnds (parse p bytes)
unfolding parse
parse-Ends p bytes = Ends-Result (p bytes) (λ a e. AlwaysEnds-succeed a) (λ e. Ends-fail _)

pub to_u16-Ends : (n : ℕ) → AlwaysEnds (to_u16 n)
unfolding to_u16
to_u16-Ends n = Ends-if _ (AlwaysEnds-succeed n) (Ends-fail _)

pub write-Ends : (w : Writer) → AlwaysEnds (write_tx_buf w)
unfolding write_tx_buf
write-Ends w =
    Ends-get (λ s. s.tx_buf) _
      (λ tx_buf.
        Ends-Result (w (new_cursor (drop header_len tx_buf)))
          (λ c e. Ends-modify _ _ (AlwaysEnds-succeed _)) (λ failed. Ends-modify _ _ (Ends-fail _)))
