-- ===== src/Spiutils/BitBuf/Queue.antt =====
-- What `BitBuf` promises: a queue of at most eight bits, the oldest first.
use tock_on_titan.Common.{
  ℕ, zero, suc, ◌+◌, ◌*◌, ◌/◌, ◌%◌, Bool, false, not, List, [], ◌∷◌, ◌++◌, length, take, drop, ltb,
  ◌==◌, if◌then◌else◌,
}
use tock_on_titan.Spiutils.Io.{IoError, buffer_exhausted, Result, ok, err}
use tock_on_titan.Spiutils.BitBuf.{
  BitBuf, read_bits, read_bit, write_bits, write_bit, write_zero_bits,
}

pub data Request : Type 0 where
  reads : ℕ → Request
  reads_bit : Request
  writes : ℕ → ℕ → Request
  writes_bit : Bool → Request
  writes_zeros : ℕ → Request

pub data Reply : Type 0 where
  value : ℕ → Reply
  bit : Bool → Reply
  written : Reply
  failed : IoError → Reply

abbrev pub to_reply : {A : Type 0} → (A → Reply) → Result IoError A → Reply
to_reply f (ok v) = f v
to_reply f (err e) = failed e

-- Each request is a method of the buffer.
unfoldable pub serve : Request → BitBuf → Reply × BitBuf
serve (reads n) buf = let (answer, rest) = read_bits n buf in (to_reply value answer, rest)
serve reads_bit buf = let (answer, rest) = read_bit buf in (to_reply bit answer, rest)
serve (writes n b) buf =
    let (answer, rest) = write_bits n b buf in (to_reply (λ _. written) answer, rest)
serve (writes_bit b) buf =
    let (answer, rest) = write_bit b buf in (to_reply (λ _. written) answer, rest)
serve (writes_zeros n) buf =
    let (answer, rest) = write_zero_bits n buf in (to_reply (λ _. written) answer, rest)

unfoldable pub run : {A : Type 0} → (Request → A → Reply × A) → List Request → A → List Reply × A
run step [] a = ([], a)
run step (r ∷ rs) a =
    let (reply, next) = step r a in
    let (replies, last) = run step rs next in (reply ∷ replies, last)

-- The low `n` bits of a number, the most significant first, and the number that bits stand for.
unfoldable pub bits_of : ℕ → ℕ → List Bool
bits_of zero b = []
bits_of (suc n) b = bits_of n (b / 2) ++ (not (b % 2 == 0)) ∷ []

unfoldable pub number : ℕ → List Bool → ℕ
number high [] = high
number high (b ∷ q) = number (high * 2 + (if b then 1 else 0)) q

unfoldable pub zeros : ℕ → List Bool
zeros zero = []
zeros (suc n) = false ∷ zeros n

unfoldable pub push : List Bool → List Bool → Reply × List Bool
push new q =
    if ltb 8 (length q + length new) then (failed buffer_exhausted, q) else (written, q ++ new)

unfoldable pub pull : (List Bool → Reply) → ℕ → List Bool → Reply × List Bool
pull read n q =
    if ltb (length q) n then (failed buffer_exhausted, q) else (read (take n q), drop n q)

abbrev pub as_bit : List Bool → Reply
as_bit [] = failed buffer_exhausted
as_bit (b ∷ q) = bit b

unfoldable pub serve_queue : Request → List Bool → Reply × List Bool
serve_queue (reads n) q = pull (λ new. value (number 0 new)) n q
serve_queue reads_bit q = pull as_bit 1 q
serve_queue (writes n b) q = push (bits_of n b) q
serve_queue (writes_bit b) q = push (b ∷ []) q
serve_queue (writes_zeros n) q = push (zeros n) q

unfoldable pub queue : BitBuf → List Bool
queue buf = bits_of buf.len buf.bits
