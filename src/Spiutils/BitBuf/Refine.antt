-- ===== src/Spiutils/BitBuf/Refine.antt =====
-- `BitBuf` is a queue of at most eight bits.
use tock_on_titan.Common.{
  ℕ, zero, suc, ◌+◌, ◌-◌, ◌*◌, ◌/◌, ◌%◌, ◌^◌, ◌<◌, ◌≤◌, ◌≡◌, refl, sym, ap, subst, Bool, true,
  false, not, List, [], ◌∷◌, ◌++◌, length, take, drop, take-append, drop-append, ltb, ◌==◌,
  if◌then◌else◌, arith, All, Bool-cases, inl, inr, ltb→lt,
}
use native.Mathlib.Nat.{mod-lt, div-add-mod'}
use tock_on_titan.Spiutils.Io.{IoError, Result, ok, err}
use tock_on_titan.Spiutils.BitBuf.{
  BitBuf, read_bits, read_bit, write_bits, write_bit, write_zero_bits,
}
use tock_on_titan.Spiutils.BitBuf.Results.{
  IsValid, without, power-positive, write_bits-refused, write_bits-done, read_bits-refused,
  read_bits-done,
}
use tock_on_titan.Spiutils.BitBuf.Queue.{
  Request, reads, reads_bit, writes, writes_bit, writes_zeros, Reply, value, bit, written, to_reply,
  serve, run, bits_of, number, push, pull, as_bit, serve_queue, queue,
}
use tock_on_titan.Spiutils.BitBuf.BitsOf.{
  length-bits_of, bits_of-append, bits_of-mod, number-bits_of, bits_of-zero,
}

-- The arguments are of their types, and the count of bits leaves room for the eight in the buffer.
unfoldable pub InRange : Request → Type 0
InRange (writes n b) = (n < 2 ^ 32 - 8) × (b < 256)
InRange (writes_zeros n) = n < 2 ^ 32 - 8
InRange r = Unit {0}

-- The buffer answers and goes on as the queue does, and its unused bits are zero.
abbrev pub Agrees : {A : Type 0} → A × BitBuf → A × List Bool → Type 0
Agrees (reply, rest) expected = ((reply, queue rest) ≡ expected) × IsValid rest

abbrev reply_with : {A : Type 0} → (A → Reply) → Result IoError A × BitBuf → Reply × BitBuf
reply_with f (answer, rest) = (to_reply f answer, rest)

write_bits-Agrees :
    (n b : ℕ) (buf : BitBuf)
    → IsValid buf
    → n < 2 ^ 32 - 8
    → b < 256
    → Agrees (reply_with (λ _. written) (write_bits n b buf)) (push (bits_of n b) (queue buf))
unfolding push queue IsValid
write_bits-Agrees n b buf (p, q) small byte =
    rw (length-bits_of n b, length-bits_of buf.len buf.bits)
      (elim (Bool-cases (ltb 8 (buf.len + n))) [
        | inl long ↦
            rw (long, write_bits-refused n b buf (omega arith) (ltb→lt _ _ long)) (refl, (p, q))
        | inr fits ↦
            let (e, valid) = write_bits-done n b buf (p, q) byte (ground arith) in
            rw
              (
                fits,
                e,
                bits_of-append buf.len n buf.bits (b % 2 ^ n) (mod-lt b (power-positive n)),
                bits_of-mod n b,
              )
              (refl, valid)
      ])

queue-front :
    (n : ℕ) (buf : BitBuf)
    → n ≤ buf.len
    → queue buf ≡ bits_of n (buf.bits / 2 ^ (buf.len - n)) ++ queue (without n buf)
unfolding queue
queue-front n buf enough =
    let offset : ℕ = buf.len - n in
    let high : ℕ = buf.bits / 2 ^ offset in
    let low : ℕ = buf.bits % 2 ^ offset in
    let l : n + offset ≡ buf.len = omega arith in
    let e : high * 2 ^ offset + low ≡ buf.bits = div-add-mod' buf.bits (2 ^ offset) in
    rw (l, e) at (bits_of-append n offset high low (mod-lt buf.bits (power-positive offset)))

take-front : (n : ℕ) (p q : List Bool) → length p ≡ n → take n (p ++ q) ≡ p
take-front n p q e = rw (← e) (take-append p q)

drop-front : (n : ℕ) (p q : List Bool) → length p ≡ n → drop n (p ++ q) ≡ q
drop-front n p q e = rw (← e) (drop-append p q)

read_bits-Agrees :
    (n : ℕ) (buf : BitBuf) (f : ℕ → Reply) (read : List Bool → Reply)
    → ((v : ℕ) → v < 2 ^ n → f v ≡ read (bits_of n v))
    → IsValid buf
    → Agrees (reply_with f (read_bits n buf)) (pull read n (queue buf))
unfolding pull queue IsValid
read_bits-Agrees n buf f read same (p, q) =
    rw (length-bits_of buf.len buf.bits) (elim (Bool-cases (ltb buf.len n)) [
      | inl short ↦ rw (short, read_bits-refused n buf (ltb→lt _ _ short)) (refl, (p, q))
      | inr enough ↦
          let (e, valid, low) = read_bits-done n buf (p, q) (ground arith) in
          let v : ℕ = buf.bits / 2 ^ (buf.len - n) in
          let rest = bits_of (buf.len - n) (buf.bits % 2 ^ (buf.len - n)) in
          rw
            (
              enough,
              e,
              queue-front n buf (ground arith),
              take-front n (bits_of n v) rest (length-bits_of n v),
              drop-front n (bits_of n v) rest (length-bits_of n v),
              same v low,
            )
            (refl, valid)
    ])

one_bit : (b : Bool) → bits_of 1 (if b then 1 else 0) ≡ b ∷ []
unfolding bits_of
one_bit true = refl
one_bit false = refl

bit_byte : (b : Bool) → (if b then 1 else 0) < 256
bit_byte true = omega arith
bit_byte false = omega arith

to_reply-bit :
    (answer : Result IoError ℕ)
    → to_reply (λ v. bit (not (v == 0))) answer
      ≡ to_reply bit (elim answer [ ok b ↦ ok (not (b == 0)) | err e ↦ err e ])
to_reply-bit (ok v) = refl
to_reply-bit (err e) = refl

read_bit-reply :
    (buf : BitBuf)
    → reply_with (λ v. bit (not (v == 0))) (read_bits 1 buf) ≡ reply_with bit (read_bit buf)
unfolding read_bit
read_bit-reply buf = rw (to_reply-bit (read_bits 1 buf).0) refl

bit-bits_of : (v : ℕ) → v < 2 → bit (not (v == 0)) ≡ as_bit (bits_of 1 v)
unfolding bits_of
bit-bits_of zero small = refl
bit-bits_of (suc zero) small = refl
bit-bits_of (suc (suc v)) small = absurd (omega arith)

serve-Agrees :
    (r : Request) (buf : BitBuf)
    → IsValid buf
    → InRange r
    → Agrees (serve r buf) (serve_queue r (queue buf))
unfolding serve serve_queue InRange write_bit write_zero_bits
serve-Agrees (reads n) buf valid range =
    read_bits-Agrees n buf value (λ new. value (number 0 new))
      (λ v small. ap value (sym (number-bits_of n v small))) valid
serve-Agrees reads_bit buf valid range =
    subst (λ answer. Agrees answer (pull as_bit 1 (queue buf))) (read_bit-reply buf)
      (read_bits-Agrees 1 buf (λ v. bit (not (v == 0))) as_bit bit-bits_of valid)
serve-Agrees (writes n b) buf valid range = write_bits-Agrees n b buf valid range.0 range.1
serve-Agrees (writes_bit b) buf valid range =
    subst (λ new. Agrees (serve (writes_bit b) buf) (push new (queue buf))) (one_bit b)
      (write_bits-Agrees 1 (if b then 1 else 0) buf valid (omega arith) (bit_byte b))
serve-Agrees (writes_zeros n) buf valid range =
    rw (← bits_of-zero n) (write_bits-Agrees n 0 buf valid range (omega arith))

-- However a buffer whose unused bits are zero is asked to read and write, one request after the
-- other, it answers as a queue of at most eight bits does that holds its bits, the most significant
-- first, and holds the bits of that queue at the end, with its unused bits zero; where each count
-- of bits to write is below 2 ^ 32 - 8 and the bits to write are a byte.
pub run_refines :
    (rs : List Request) (buf : BitBuf)
    → IsValid buf
    → All InRange rs
    → Agrees (run serve rs buf) (run serve_queue rs (queue buf))
unfolding run
run_refines [] buf valid range = (refl, valid)
run_refines (r ∷ rs) buf valid range =
    let (e, next_valid) = serve-Agrees r buf valid range.0 in
    let (es, last_valid) = run_refines rs (serve r buf).1 next_valid range.1 in
    rw (← e, ← es) (refl, last_valid)
