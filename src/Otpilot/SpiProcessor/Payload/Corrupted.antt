-- ===== src/Otpilot/SpiProcessor/Payload/Corrupted.antt =====
-- spi_processor.rs: a payload in the mailbox whose checksum is wrong.
use tock_on_titan.Common.{
  ℕ, ◌+◌, ◌≤◌, ◌<◌, List, [], ◌∷◌, ◌++◌, Bool, true, false, Option, none, some, ◌==◌, ==_iff,
  Bool-cases, inl, inr, ◌≡◌, ◌≢◌, sym, ap, ◌∙◌, length, length-append, arith, if◌then◌else◌, take,
  ltb,
}
use tock_on_titan.Spiutils.Io.{ok, ByteOrder, Reader}
use tock_on_titan.Spiutils.Payload.{Header, compute_checksum, header_from_wire}
use tock_on_titan.Spiutils.Payload.Content.{ContentType}
use tock_on_titan.Spiutils.Payload.Checksum.{AreBytes, compute_checksum_detects}
use tock_on_titan.Spiutils.ErrorMessage.Messages.{bad_checksum, message_from_wire}
use tock_on_titan.Otpilot.Drivers.{end_transaction_with_data, Drivers, State, Outcome, done, panic}
use tock_on_titan.Otpilot.Keeps.{bind-done}
use tock_on_titan.Otpilot.SpiProcessor.{SpiProcessorError, SpiProcessorM, spi_tx_buf_size, parse}
use tock_on_titan.Otpilot.SpiProcessor.Response.{send_error}
use tock_on_titan.Otpilot.SpiProcessor.Response.Readable.{
  IsPacket, checksum_of, send_error-readable,
}
use tock_on_titan.Otpilot.SpiProcessor.Payload.{process_content, process_spi_payload}

parse-done :
    {A : Type 0} (p : Reader A) (bytes : List ℕ) (a : A × List ℕ) (s : State)
    → p bytes ≡ ok a
    → parse p bytes s ≡ (done a, s)
unfolding parse
parse-done p bytes a s e = rw (parse, e)

-- A payload that is long enough has a checksum.
has_checksum :
    (h : Header) (payload : List ℕ)
    → h.content_len ≤ length payload
    → (checksum : ℕ) × (compute_checksum h payload ≡ some checksum)
unfolding compute_checksum
has_checksum h payload fits =
    let long : ltb (length payload) h.content_len ≡ false = ground arith in
    (checksum_of h (take h.content_len payload), rw long)

module _ (be : ByteOrder) (d : Drivers) where
  wrong_checksum :
      (h : Header) (payload packet : List ℕ) (s : State)
      → header_from_wire be packet ≡ ok (h, payload)
      → h.content_len ≤ length payload
      → compute_checksum h payload ≢ some h.checksum
      → process_spi_payload be d packet s ≡ send_error be d bad_checksum s
  unfolding process_spi_payload
  wrong_checksum h payload packet s read fits wrong =
      let (checksum, e) = has_checksum h payload fits in
      let differs : (h.checksum == checksum) ≡ false = elim (Bool-cases (h.checksum == checksum)) [
        | inl same ↦ absurd (wrong (e ∙ ap some (sym ((==_iff h.checksum checksum).0 same))))
        | inr b ↦ b
      ] in
      bind-done (parse (header_from_wire be) packet) _ s s (h, payload)
        (parse-done (header_from_wire be) packet (h, payload) s read)
      ∙ ap (λ (o : Option ℕ). checked h payload o s) e
      ∙ ap
          (λ (b : Bool).
            (if b
                then process_content be d h.content (take h.content_len payload)
                else send_error be d bad_checksum)
              s)
          differs
    where
      checked : Header → List ℕ → Option ℕ → SpiProcessorM (Unit {0})
      checked h payload o = elim o [
        | some checksum ↦
            if h.checksum == checksum
            then process_content be d h.content (take h.content_len payload)
            else send_error be d bad_checksum
        | none ↦ panic
      ]

  -- When one byte of a payload is changed on its way, the payload is refused: the only call that is
  -- made sends a packet, from which the host reads the error BadChecksum. The payload is at least as
  -- long as its header says, the byte is one that the header says it holds, and the buffer for
  -- responses has its 512 bytes.
  pub corrupted_payload-refused :
      (h : Header) (front back packet : List ℕ) (x y : ℕ) (s : State)
      → compute_checksum h (front ++ x ∷ back) ≡ some h.checksum
      → header_from_wire be packet ≡ ok (h, front ++ y ∷ back)
      → length front < h.content_len
      → h.content_len ≤ length front + 1 + length back
      → AreBytes front
      → AreBytes back
      → x < 256
      → y < 256
      → x ≢ y
      → length s.tx_buf ≡ spi_tx_buf_size
      → (payload response : List ℕ) × ((process_spi_payload be d packet s).1.calls
          ≡ end_transaction_with_data response true true ∷ s.calls)
        × IsPacket be ContentType.error payload response
        × (message_from_wire payload ≡ ok (bad_checksum, []))
  corrupted_payload-refused h front back packet x y s sent read inside fits v w p q ne full =
      let long : h.content_len ≤ length (front ++ y ∷ back) =
        omega (arith, length-append {0} front (y ∷ back)) in
      let run =
        wrong_checksum h (front ++ y ∷ back) packet s read long
          (λ e. compute_checksum_detects h front back x y inside fits v w p q ne (sent ∙ sym e)) in
      let (payload, response, calls, is_packet, reads) =
        send_error-readable be d bad_checksum s full in
      (
        payload,
        response,
        ap (λ (r : Outcome SpiProcessorError (Unit {0}) × State). r.1.calls) run ∙ calls,
        is_packet,
        reads,
      )
