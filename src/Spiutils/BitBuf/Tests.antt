-- ===== src/Spiutils/BitBuf/Tests.antt =====
-- The tests of shared-lib/spiutils/src/io.rs on `BitBuf` and `Cursor`, and the queue at one run.
use tock_on_titan.Common.{◌-◌, ◌^◌, ◌≡◌, refl, arith, true, List, [], ◌∷◌}
use tock_on_titan.Spiutils.Io.{
  buffer_exhausted, ok, new_cursor, write_bytes, take_consumed_bytes, write_slice,
}
use tock_on_titan.Spiutils.BitBuf.{
  new, from_bits, read_bits, read_some_bits, read_bit, write_bits, write_bit, write_zero_bits,
  inverse_popcnt, clear_bits,
}
use tock_on_titan.Spiutils.BitBuf.Queue.{
  Request, reads, reads_bit, writes, writes_bit, writes_zeros, value, bit, written, failed, serve,
  run, serve_queue, queue,
}
use tock_on_titan.Spiutils.BitBuf.Results.{IsValid}
use tock_on_titan.Spiutils.BitBuf.Refine.{Agrees, InRange, run_refines}

-- `bit_buf_queue`
abbrev bit_buf_queue : List Request
bit_buf_queue =
    writes 3 5
    ∷ writes 2 2
    ∷ writes_bit true
    ∷ writes_zeros 2
    ∷ writes_bit true
    ∷ reads 3
    ∷ reads_bit
    ∷ reads 4
    ∷ reads_bit
    ∷ []

bit_buf_queue_replies : run serve bit_buf_queue new ≡ (
  written
      ∷ written
      ∷ written
      ∷ written
      ∷ failed buffer_exhausted
      ∷ value 5
      ∷ bit true
      ∷ value 4
      ∷ failed buffer_exhausted
      ∷ [],
  new,
)
unfolding run serve read_bits read_some_bits read_bit write_bits write_bit write_zero_bits
    inverse_popcnt clear_bits
bit_buf_queue_replies = refl

-- `bit_bif_edge_cases`
edge_cases : run serve (reads 0 ∷ reads 8 ∷ []) (from_bits 0x55) ≡ (value 0 ∷ value 0x55 ∷ [], new)
unfolding run serve read_bits read_some_bits read_bit write_bits write_bit write_zero_bits
    inverse_popcnt clear_bits
edge_cases = refl

-- The sum of the length and the count wraps, and the write is accepted.
count_wraps :
    write_bits (2 ^ 32 - 1) 0 (record { len = 1; bits = 1 })
    ≡ (ok tt, record { len = 0; bits = 128 })
unfolding write_bits inverse_popcnt
count_wraps = refl

run_refines_example :
    Agrees
      (run serve bit_buf_queue (from_bits 0x55))
      (run serve_queue bit_buf_queue (queue (from_bits 0x55)))
unfolding IsValid InRange
run_refines_example = run_refines bit_buf_queue (from_bits 0x55) (omega arith) (omega arith)

-- A cursor and a slice are written alike; taking what is consumed leaves the rest of the room.
written_alike :
    (write_bytes (1 ∷ 2 ∷ []) (new_cursor (7 ∷ 8 ∷ 9 ∷ []))
      ≡ ok (record { written = 1 ∷ 2 ∷ []; room = 9 ∷ [] }))
    × (write_slice (1 ∷ 2 ∷ []) (7 ∷ 8 ∷ 9 ∷ []) ≡ ok (1 ∷ 2 ∷ [], 9 ∷ []))
    × (take_consumed_bytes (record { written = 1 ∷ 2 ∷ []; room = 9 ∷ [] })
        ≡ (1 ∷ 2 ∷ [], new_cursor (9 ∷ [])))
unfolding write_bytes write_slice take_consumed_bytes new_cursor
written_alike = (refl, refl, refl)
