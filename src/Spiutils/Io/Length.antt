-- ===== src/Spiutils/Io/Length.antt =====
-- How many bytes a writer of io.rs writes at most.
use tock_on_titan.Common.{
  ℕ, ◌+◌, ◌≤◌, List, ltb, inl, inr, length, length-append, Bool-cases, arith, subst,
}
use tock_on_titan.Spiutils.Io.{
  ok, err, WriteResult, Cursor, Writer, ◌>>◌, write_bytes, write_u8, write_int, ByteOrder,
}

-- At most `n` bytes more than `k` have been written, or the write has failed.
abbrev pub Within : ℕ → ℕ → WriteResult → Type 0
Within n k (ok c) = length c.written ≤ k + n
Within n k (err e) = Unit {0}

pub record AtMost (n : ℕ) (w : Writer) : Type 0 where
  pub at_most : (c : Cursor) → Within n (length c.written) (w c)

pub AtMost-bytes : (bytes : List ℕ) → AtMost (length bytes) (write_bytes bytes)
unfolding write_bytes
AtMost-bytes bytes = record {
  at_most = λ c. elim (Bool-cases (ltb (length c.room) (length bytes))) [
    | inl short ↦ rw (short, Within) tt
    | inr fits ↦ rw (fits, Within) (omega (arith, length-append {0} c.written bytes))
  ];
}

pub AtMost-u8 : (n : ℕ) → AtMost 1 (write_u8 n)
unfolding write_u8
AtMost-u8 n = AtMost-bytes _

pub AtMost-int : (order : ByteOrder) (w n : ℕ) → AtMost w (write_int order w n)
unfolding write_int
AtMost-int order w n =
    subst (λ k. AtMost k (write_bytes (order.write_uint w n))) (order.length-write w n)
      (AtMost-bytes (order.write_uint w n))

pub AtMost-none : AtMost 0 (λ c. ok c)
AtMost-none = record { at_most = λ c. omega arith }

pub AtMost-more : {m n : ℕ} {w : Writer} → m ≤ n → AtMost m w → AtMost n w
AtMost-more {m} {n} {w} h a = record { at_most = λ c. more c (w c) (a.at_most c) }
  where
    more :
        (c : Cursor) (r : WriteResult)
        → Within m (length c.written) r
        → Within n (length c.written) r
    more c (ok c') b = omega (arith, b, h)
    more c (err e) b = tt

pub AtMost->> : {m n : ℕ} {v w : Writer} → AtMost m v → AtMost n w → AtMost (m + n) (v >> w)
AtMost->> {m} {n} {v} {w} a b = record { at_most = λ c. then c (v c) (a.at_most c) }
  where
    both :
        (c c' : Cursor) (r : WriteResult)
        → length c'.written ≤ length c.written + m
        → Within n (length c'.written) r
        → Within (m + n) (length c.written) r
    both c c' (ok c'') h k = omega (arith, h, k)
    both c c' (err e) h k = tt

    then :
        (c : Cursor) (r : WriteResult)
        → Within m (length c.written) r
        → Within (m + n) (length c.written) (elim r [ ok c' ↦ w c' | err e ↦ err e ])
    then c (ok c') h = both c c' (w c') h (b.at_most c')
    then c (err e) h = tt
