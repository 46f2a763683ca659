-- ===== src/Spiutils/NetworkOrder.antt =====
-- The network byte order, as an instance of what the `byteorder` crate documents.
use tock_on_titan.Common.{
  ℕ, zero, suc, ◌+◌, ◌*◌, ◌/◌, ◌%◌, ◌^◌, ◌<◌, ◌≡◌, refl, arith, List, [], ◌∷◌, ◌++◌, length,
  length-append,
}
use tock_on_titan.Spiutils.Io.{ByteOrder}

abbrev pub write_uint : ℕ → ℕ → List ℕ
write_uint zero n = []
write_uint (suc w) n = write_uint w (n / 256) ++ (n % 256 ∷ [])

abbrev pub read_uint : ℕ → List ℕ → ℕ
read_uint acc [] = acc
read_uint acc (b ∷ bs) = read_uint (acc * 256 + b) bs

pub length-write_uint : (w n : ℕ) → length (write_uint w n) ≡ w
length-write_uint zero n = refl
length-write_uint (suc w) n = omega (
  arith,
  length-append {0} (write_uint w (n / 256)) (n % 256 ∷ []),
  length-write_uint w (n / 256),
)

read_uint_last :
    (acc : ℕ) (bs : List ℕ) (b : ℕ) → read_uint acc (bs ++ (b ∷ [])) ≡ read_uint acc bs * 256 + b
read_uint_last acc [] b = refl
read_uint_last acc (c ∷ bs) b = read_uint_last (acc * 256 + c) bs b

pub read-write_uint : (w n : ℕ) → n < 256 ^ w → read_uint 0 (write_uint w n) ≡ n
read-write_uint zero n h = omega arith
read-write_uint (suc w) n h =
    let k : n / 256 < 256 ^ w = omega arith in
    rw (read_uint_last 0 (write_uint w (n / 256)) (n % 256), read-write_uint w (n / 256) k)
      (omega arith)

abbrev pub network_order : ByteOrder
network_order = record {
  read_uint = λ w bs. read_uint 0 bs;
  write_uint = write_uint;
  length-write = length-write_uint;
  read-write = read-write_uint;
}
