-- ===== src/Otpilot/SpiProcessor/Host/Ends.antt =====
-- spi_processor.rs: passing a command on comes to an end.
use tock_on_titan.Common.{
  ℕ, zero, suc, ◌+◌, ◌≤◌, ◌<◌, List, [], Bool, true, false, none, ◌≡◌, ◌==◌, length, drop,
  length-drop, arith, subst,
}
use tock_on_titan.Spiutils.Io.{ok, ByteOrder, Cursor, new_cursor, consumed_len}
use tock_on_titan.Spiutils.Io.Length.{
  Within, AtMost, AtMost-bytes, AtMost-none, AtMost-more, AtMost->>,
}
use tock_on_titan.Spiutils.Flash.{Header, has_dummy_byte}
use tock_on_titan.Spiutils.Flash.OpCodes.{OpCode}
use tock_on_titan.Spiutils.Flash.Length.{header_to_wire-AtMost}
use tock_on_titan.Otpilot.Drivers.{Drivers, State, succeed}
use tock_on_titan.Otpilot.Ends.{
  Ends, Any, AlwaysEnds, Ends-bind, Ends-fail, Ends-succeed, AlwaysEnds-succeed, Ends-elim,
  Ends-Option, Ends-Result, Ends-known, Ends-call, Ends-try,
}
use tock_on_titan.Otpilot.SpiProcessor.{SpiProcessorM, max_read_buffer_length}
use tock_on_titan.Otpilot.SpiProcessor.Host.{
  erased, write_skipped, data_len_to_send, write_data, advance, front_to_wire, carry,
  send_transaction, send_rest, spi_host_send, spi_host_write_enable, spi_host_write,
  clear_device_status,
}

skipped-AtMost : (b : Bool) → AtMost 1 (write_skipped b)
unfolding write_skipped
skipped-AtMost false = AtMost-more (omega arith) AtMost-none
skipped-AtMost true = AtMost-bytes _

-- A transaction carries some data where there is some.
abbrev Progress : List ℕ → ℕ → State → Type 0
Progress bytes n s = 1 ≤ length bytes → 1 ≤ n

module _ (be : ByteOrder) (d : Drivers) where
  front-AtMost : (w : ℕ) (h : Header) → AtMost (w + 3) (front_to_wire be d w h)
  unfolding front_to_wire
  front-AtMost w h =
      AtMost-more (omega arith)
        (AtMost->> (header_to_wire-AtMost be w h) (skipped-AtMost (has_dummy_byte h.opcode)))

  -- The front leaves room in a transaction.
  front-room :
      (w : ℕ) (h : Header) (front : Cursor)
      → w ≤ 4
      → front_to_wire be d w h (new_cursor (erased max_read_buffer_length)) ≡ ok front
      → length front.written ≤ 7
  unfolding new_cursor
  front-room w h front small e =
      let within = (front-AtMost w h).at_most (new_cursor (erased max_read_buffer_length)) in
      let written : length front.written ≤ 0 + (w + 3) = subst (λ r. Within (w + 3) 0 r) e within in
      omega (arith, written)

  carry-Ends :
      (h : Header) (c : Cursor) (n : ℕ) (bytes : List ℕ)
      → (1 ≤ length bytes → 1 ≤ n)
      → Ends Any (carry be d h c n) (Progress bytes)
  unfolding carry
  carry-Ends h c n bytes progress = Ends-bind (Ends-try Any d _ _ (λ s p. p)) (λ _.
      Ends-bind (Ends-try Any d _ _ (λ s p. p))
        (λ _. Ends-bind (Ends-call Any _ (λ s p. p)) (λ _. Ends-succeed n (λ s p. progress))))

  transaction-Ends :
      (w : ℕ) (h : Header) (bytes : List ℕ)
      → w ≤ 4
      → Ends Any (send_transaction be d w h bytes) (Progress bytes)
  unfolding send_transaction consumed_len
  transaction-Ends w h bytes small =
      Ends-Result (front_to_wire be d w h (new_cursor (erased max_read_buffer_length)))
        (λ front e.
          Ends-Result (write_data bytes front)
            (λ c _.
              carry-Ends h c (data_len_to_send front bytes) bytes
                (λ some_data. omega (arith, front-room w h front small e)))
            (λ e. Ends-fail _))
        (λ e. Ends-fail _)

  rest-Ends :
      (fuel w : ℕ) (h : Header) (bytes : List ℕ) (pre : SpiProcessorM (Unit {0}))
      → w ≤ 4
      → length bytes < fuel
      → AlwaysEnds pre
      → AlwaysEnds (send_rest be d fuel w h bytes pre)
  unfolding send_rest
  rest-Ends zero w h bytes pre small enough k = absurd (omega (arith, enough))
  rest-Ends (suc fuel) w h bytes pre small enough k = Ends-bind k (λ _.
      Ends-bind (transaction-Ends w h bytes small) (λ n. Ends-known (λ progress.
        Ends-Option (advance w h n)
          (λ next.
            Ends-elim (length (drop n bytes) == 0) (λ e. AlwaysEnds-succeed tt)
              (λ e.
                rest-Ends fuel w next (drop n bytes) pre small
                  (ground (arith, length-drop {0} n bytes)) k))
          (Ends-fail _))))

  enable-Ends : AlwaysEnds (spi_host_write_enable be d)
  unfolding spi_host_write_enable spi_host_send
  enable-Ends =
      rest-Ends 1 4 (record { opcode = OpCode.write_enable; address = none }) [] (succeed tt)
        (omega arith) (omega arith) (AlwaysEnds-succeed tt)

  pub host_write-Ends :
      (w : ℕ) (h : Header) (bytes : List ℕ) → w ≤ 4 → AlwaysEnds (spi_host_write be d w h bytes)
  unfolding spi_host_write spi_host_send
  host_write-Ends w h bytes small =
      rest-Ends (length bytes + 1) w h bytes (spi_host_write_enable be d) small (omega arith)
        enable-Ends

pub clear-Ends : (d : Drivers) (a b : Bool) → AlwaysEnds (clear_device_status d a b)
unfolding clear_device_status
clear-Ends d a b = Ends-try Any d _ _ (λ s p. p)
