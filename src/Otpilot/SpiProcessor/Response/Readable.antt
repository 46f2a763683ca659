-- ===== src/Otpilot/SpiProcessor/Response/Readable.antt =====
-- spi_processor.rs: what the host reads in a response.
use tock_on_titan.Common.{
  ℕ, ◌+◌, ◌-◌, ◌/◌, ◌^◌, ◌≤◌, ◌<◌, List, [], ◌∷◌, ◌++◌, true, false, Option, none, some, ltb, ◌≡◌,
  refl, sym, ap, ◌∙◌, length, take, drop, length-append, length-take, length-drop, take-append,
  drop-append, Bool-cases, inl, inr, arith, subst, append-nil, append_assoc,
}
use tock_on_titan.Common.BitBounds.{bit_and-le}
use tock_on_titan.Spiutils.Io.{
  ok, err, WriteResult, ByteOrder, Writer, new_cursor, consumed_len, write_bytes,
}
use tock_on_titan.Spiutils.Io.Laws.{Writes}
use tock_on_titan.Spiutils.Payload.{
  Header, header_len, compute_checksum, header_from_wire, header_to_wire, to_be_bytes,
}
use tock_on_titan.Spiutils.Payload.Content.{ContentType, content_type}
use tock_on_titan.Spiutils.Payload.Crc.{crc_init, crc_add, crc_get}
use tock_on_titan.Spiutils.Payload.RoundTrip.{payload_header-RoundTrip}
use tock_on_titan.Spiutils.ErrorMessage.Messages as Error
use tock_on_titan.Spiutils.ErrorMessage.RoundTrip.{error_message-Whole}
use tock_on_titan.Spiutils.Firmware.Message as FirmwareMessage
use tock_on_titan.Spiutils.Firmware.RoundTrip.{message_len, message_round_trip}
use tock_on_titan.Otpilot.Drivers.{
  DriverCall, end_transaction_with_data, Drivers, State, Outcome, done, ◌>>=◌, ◌>>◌, fail, panic,
  modify, try,
}
use tock_on_titan.Otpilot.Keeps.{bind-done}
use tock_on_titan.Otpilot.SpiProcessor.{
  SpiProcessorError, tock, to_wire_error, SpiProcessorM, spi_tx_buf_size, to_u16, write_tx_buf,
}
use tock_on_titan.Otpilot.SpiProcessor.Response.{
  send_packet, send_data, send_error, send_firmware_response,
}

-- What a host finds in a packet: a header that announces the content, whose checksum is that of the
-- payload, and the payload, which ends the packet.
pub record IsPacket (be : ByteOrder) (content : ContentType) (payload packet : List ℕ)
    : Type 0 where
  pub header : Header
  pub reads : header_from_wire be packet ≡ ok (header, payload)
  pub content_type : header.content ≡ content
  pub content_len : header.content_len ≡ length payload
  pub checksum : compute_checksum header payload ≡ some header.checksum

try-state :
    {E : Type 0} (d : Drivers) (e : E) (c : DriverCall) (s : State)
    → (try d e c s).1.calls ≡ c ∷ s.calls
try-state d e c s = elim (Bool-cases (d.succeeds (c ∷ s.calls))) [ inl b ↦ rw b | inr b ↦ rw b ]

-- The buffer after a payload has been written behind the room for a header.
abbrev filled : List ℕ → List ℕ → List ℕ
filled tx_buf payload =
    take header_len tx_buf ++ (payload ++ drop (length payload) (drop header_len tx_buf))

write_tx_buf-filled :
    (w : Writer) (payload : List ℕ) (s : State)
    → Writes w payload
    → length s.tx_buf ≡ spi_tx_buf_size
    → length payload ≤ spi_tx_buf_size - header_len
    → write_tx_buf w s ≡ (done (length payload), record s { tx_buf = filled s.tx_buf payload })
unfolding write_tx_buf write_bytes new_cursor consumed_len
write_tx_buf-filled w payload s writes size fits =
    let room : length payload ≤ length (drop header_len s.tx_buf) =
      omega (arith, length-drop {0} header_len s.tx_buf, size, fits) in
    rw (writes.fits (record { written = []; room = drop header_len s.tx_buf }) room)

to_u16-done : (n : ℕ) (s : State) → n < 2 ^ 16 → to_u16 n s ≡ (done n, s)
unfolding to_u16
to_u16-done n s h = let e : ltb n (2 ^ 16) ≡ true = ground arith in rw e

-- The checksum of a payload with more behind it.
abbrev pub checksum_of : Header → List ℕ → ℕ
checksum_of h payload = crc_get (
    crc_add
      (crc_add (crc_add crc_init (content_type.to_wire_value h.content ∷ []))
        (to_be_bytes h.content_len))
      payload)

checksum-more :
    (h : Header) (payload rest : List ℕ)
    → h.content_len ≡ length payload
    → compute_checksum h (payload ++ rest) ≡ some (checksum_of h payload)
unfolding compute_checksum
checksum-more h payload rest e =
    let fits : ltb (length (payload ++ rest)) (length payload) ≡ false =
      ground (arith, length-append {0} payload rest) in
    rw (e, fits, take-append {0} payload rest)

drop_at : (n : ℕ) (xs ys : List ℕ) → length xs ≡ n → drop n (xs ++ ys) ≡ ys
drop_at n xs ys e = subst (λ k. drop k (xs ++ ys) ≡ ys) e (drop-append {0} xs ys)

take_both :
    (n : ℕ) (xs ys zs : List ℕ) → length xs ≡ n → take (n + length ys) (xs ++ (ys ++ zs)) ≡ xs ++ ys
take_both n xs ys zs e =
    let both : length (xs ++ ys) ≡ n + length ys = omega (arith, length-append {0} xs ys, e) in
    rw (sym (append_assoc xs ys zs))
      (subst (λ k. take k ((xs ++ ys) ++ zs) ≡ xs ++ ys) both (take-append {0} (xs ++ ys) zs))

crc_get-byte : (crc : ℕ) → crc_get crc < 256
unfolding crc_get
crc_get-byte crc = omega (arith, bit_and-le (crc / 2 ^ 8) 0xff)

module _ (be : ByteOrder) (d : Drivers) where
  send_packet-calls :
      (h : Header) (bytes : List ℕ) (s : State)
      → Writes (header_to_wire be h) bytes
      → length bytes ≡ header_len
      → length s.tx_buf ≡ spi_tx_buf_size
      → (send_packet be d h s).1.calls
        ≡ end_transaction_with_data
            (take (header_len + h.content_len) (bytes ++ drop header_len s.tx_buf))
            true
            true
          ∷ s.calls
  unfolding send_packet write_bytes new_cursor
  send_packet-calls h bytes s writes size full =
      let room : length bytes ≤ length s.tx_buf = omega arith in
      let written : header_to_wire be h (new_cursor s.tx_buf)
          ≡ ok (record { written = bytes; room = drop header_len s.tx_buf }) =
        rw (writes.fits (new_cursor s.tx_buf) room, size) refl in
      ap (λ (r : WriteResult). (sent h r s).1.calls) written ∙ try-state d tock _ _
    where
      sent : Header → WriteResult → SpiProcessorM (Unit {0})
      sent h r = elim r [
        | ok c ↦
            modify (λ s. record s { tx_buf = c.written ++ c.room })
            >> try d tock (
                end_transaction_with_data (take (header_len + h.content_len) (c.written ++ c.room))
                  true true)
        | err (e, c) ↦
            modify (λ s. record s { tx_buf = c.written ++ c.room }) >> fail (to_wire_error e)
      ]

  send_data-calls :
      (content : ContentType) (payload : List ℕ) (s : State)
      → length s.tx_buf ≡ spi_tx_buf_size
      → length payload ≤ spi_tx_buf_size - header_len
      → (packet : List ℕ) × ((send_data be d content
            (length payload)
            (record s { tx_buf = filled s.tx_buf payload })).1.calls
          ≡ end_transaction_with_data packet true true ∷ s.calls)
        × IsPacket be content payload packet
  unfolding send_data
  send_data-calls content payload s size fits =
      let tx_buf : List ℕ = filled s.tx_buf payload in
      let front : length (take header_len s.tx_buf) ≡ header_len =
        omega (arith, length-take {0} header_len s.tx_buf) in
      let rest : List ℕ = drop (length payload) (drop header_len s.tx_buf) in
      let behind : drop header_len tx_buf ≡ payload ++ rest =
        drop_at header_len (take header_len s.tx_buf) (payload ++ rest) front in
      let asked : Header = record {
        content = content;
        content_len = length payload;
        checksum = 0;
      } in
      let h : Header = record asked { checksum = checksum_of asked payload } in
      let r =
        payload_header-RoundTrip be h
          (record { content_len_u16 = omega arith; checksum_u8 = crc_get-byte _ }) in
      let full : length tx_buf ≡ spi_tx_buf_size = omega (
        arith,
        length-append {0} (take header_len s.tx_buf) (payload ++ rest),
        length-append {0} payload rest,
        length-drop {0} (length payload) (drop header_len s.tx_buf),
        length-drop {0} header_len s.tx_buf,
        front,
      ) in
      let packet : List ℕ = r.bytes ++ payload in
      let exact : take (header_len + length payload) (r.bytes ++ drop header_len tx_buf) ≡ packet =
        rw behind (take_both header_len r.bytes payload rest r.size) in
      let computed : compute_checksum asked (drop header_len tx_buf)
          ≡ some (checksum_of asked payload) =
        rw behind (checksum-more asked payload rest refl) in
      let sent = send_packet-calls h r.bytes (record s { tx_buf = tx_buf }) r.written r.size full in
      (
        packet,
        ap (λ (o : Option ℕ). (checked asked o (record s { tx_buf = tx_buf })).1.calls) computed
            ∙ sent
            ∙ ap (λ (p : List ℕ). end_transaction_with_data p true true ∷ s.calls) exact,
        record {
          header = h;
          reads = r.read_back.reads payload;
          content_type = refl;
          content_len = refl;
          checksum = rw append-nil at (checksum-more h payload [] refl);
        },
      )
    where
      checked : Header → Option ℕ → SpiProcessorM (Unit {0})
      checked h o = elim o [
        | some checksum ↦ send_packet be d (record h { checksum = checksum })
        | none ↦ panic
      ]

  -- A response of a content type, written behind the room for its header.
  send : ContentType → Writer → SpiProcessorM (Unit {0})
  send content w = do n ← write_tx_buf w; payload_len ← to_u16 n; send_data be d content payload_len

  send-calls :
      (content : ContentType) (w : Writer) (payload : List ℕ) (s : State)
      → Writes w payload
      → length s.tx_buf ≡ spi_tx_buf_size
      → length payload ≤ spi_tx_buf_size - header_len
      → (packet : List ℕ) × ((send content w s).1.calls
          ≡ end_transaction_with_data packet true true ∷ s.calls)
        × IsPacket be content payload packet
  unfolding send
  send-calls content w payload s writes size fits =
      let n : ℕ = length payload in
      let s' : State = record s { tx_buf = filled s.tx_buf payload } in
      let run : send content w s ≡ send_data be d content n s' =
        bind-done (write_tx_buf w) (λ n. to_u16 n >>= send_data be d content) s s' n
          (write_tx_buf-filled w payload s writes size fits)
        ∙ bind-done (to_u16 n) (send_data be d content) s' s' n
            (to_u16-done n s' (omega (arith, fits))) in
      let (packet, sent, is_packet) = send_data-calls content payload s size fits in
      (
        packet,
        ap (λ (r : Outcome SpiProcessorError (Unit {0}) × State). r.1.calls) run ∙ sent,
        is_packet,
      )

  -- The response to a firmware request, whose numbers are in range and which fits in the buffer of
  -- 512 bytes, is sent as one packet: its header announces firmware content, the checksum in it is
  -- that of the payload, and from the payload the response is read back, with nothing left.
  pub send_firmware_response-readable :
      (m : FirmwareMessage.Message) (s : State)
      → FirmwareMessage.IsMessage m
      → length s.tx_buf ≡ spi_tx_buf_size
      → message_len m ≤ 507
      → (payload packet : List ℕ) × ((send_firmware_response be d m s).1.calls
          ≡ end_transaction_with_data packet true true ∷ s.calls)
        × IsPacket be ContentType.firmware payload packet
        × (FirmwareMessage.message_from_wire be payload ≡ ok (m, []))
  unfolding send_firmware_response send
  send_firmware_response-readable m s v size fits =
      let (payload, writes, reads, len) = message_round_trip be m v in
      let (packet, sent, is_packet) =
        send-calls ContentType.firmware (FirmwareMessage.message_to_wire be m) payload s writes size
          (omega (arith, len, fits)) in
      (payload, packet, sent, is_packet, reads)

  -- An error is sent as one packet: its header announces an error, the checksum in it is that of
  -- the payload, and from the payload the error message is read back, with nothing left.
  pub send_error-readable :
      (m : Error.Message) (s : State)
      → length s.tx_buf ≡ spi_tx_buf_size
      → (payload packet : List ℕ) × ((send_error be d m s).1.calls
          ≡ end_transaction_with_data packet true true ∷ s.calls)
        × IsPacket be ContentType.error payload packet
        × (Error.message_from_wire payload ≡ ok (m, []))
  unfolding send_error send
  send_error-readable m s size =
      let r = error_message-Whole m in
      let (packet, sent, is_packet) =
        send-calls ContentType.error (Error.message_to_wire m) r.bytes s r.written size
          (omega (arith, r.size)) in
      (r.bytes, packet, sent, is_packet, r.read_whole)
