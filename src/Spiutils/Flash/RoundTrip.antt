-- ===== src/Spiutils/Flash/RoundTrip.antt =====
-- Reading back a header of flash.rs.
use tock_on_titan.Common.{
  ℕ, ◌+◌, ◌^◌, ◌<◌, refl, arith, Bool, true, false, Option, none, some, [], ◌∷◌, ◌++◌,
  length-append, if◌then◌else◌,
}
use tock_on_titan.Spiutils.Io.{ByteOrder}
use tock_on_titan.Spiutils.Io.Laws.{
  Writes->>, Writes-none, Writes-int, Writes-u8, Reads->>=, Reads-map, Reads-int, Reads-u8,
  Reads-succeed, RoundTrip,
}
use tock_on_titan.Spiutils.Wire.{enum-RoundTrip}
use tock_on_titan.Spiutils.Flash.OpCodeLaws.{OpCode-IsWireEnum}
use tock_on_titan.Spiutils.Flash.{
  Header, has_address, has_dummy_byte, read_address, skip_dummy, write_address, write_dummy,
  header_from_wire, header_to_wire, dummy_byte_value,
}

-- An address stands exactly in the headers of op codes that want one, and fits its type.
abbrev pub IsAddress : ℕ → Bool → Option ℕ → Type 0
IsAddress width true (some a) = a < 256 ^ width
IsAddress width true none = ⊥
IsAddress width false (some a) = ⊥
IsAddress width false none = Unit {0}

abbrev pub flag_len : Bool → ℕ → ℕ
flag_len b n = if b then n else 0

module _ (be : ByteOrder) (width : ℕ) where
  address-RoundTrip :
      (b : Bool) (a : Option ℕ)
      → IsAddress width b a
      → RoundTrip (write_address be width b a) (read_address be width b) a (flag_len b width)
  unfolding write_address read_address
  address-RoundTrip true (some a) v = record {
    bytes = be.write_uint width a;
    written = record {
      fits = (Writes-int be width a).fits;
      too_long = (Writes-int be width a).too_long;
    };
    read_back = Reads-map _ (Reads-int be width a v);
    size = be.length-write width a;
  }
  address-RoundTrip true none v = absurd v
  address-RoundTrip false (some a) v = absurd v
  address-RoundTrip false none v = record {
    bytes = [];
    written = record { fits = Writes-none.fits; too_long = Writes-none.too_long };
    read_back = Reads-succeed none;
    size = refl;
  }

  dummy-RoundTrip :
      (b : Bool) → RoundTrip (write_dummy be width b) (skip_dummy be width b) tt (flag_len b 1)
  unfolding write_dummy skip_dummy
  dummy-RoundTrip true = record {
    bytes = dummy_byte_value ∷ [];
    written = record {
      fits = (Writes-u8 dummy_byte_value).fits;
      too_long = (Writes-u8 dummy_byte_value).too_long;
    };
    read_back = Reads-map _ (Reads-u8 dummy_byte_value);
    size = refl;
  }
  dummy-RoundTrip false = record {
    bytes = [];
    written = record { fits = Writes-none.fits; too_long = Writes-none.too_long };
    read_back = Reads-succeed tt;
    size = refl;
  }

  -- A header with an address exactly where its op code wants one reads back as it was written, in
  -- both address modes, whatever follows it; it takes one byte, the address and the dummy byte.
  pub flash_header-RoundTrip :
      (h : Header)
      → IsAddress width (has_address h.opcode) h.address
      → RoundTrip
          (header_to_wire be width h)
          (header_from_wire be width)
          h
          (1 + flag_len (has_address h.opcode) width + flag_len (has_dummy_byte h.opcode) 1)
  unfolding header_to_wire header_from_wire
  flash_header-RoundTrip h v =
      let o = enum-RoundTrip OpCode-IsWireEnum h.opcode in
      let a = address-RoundTrip (has_address h.opcode) h.address v in
      let d = dummy-RoundTrip (has_dummy_byte h.opcode) in
      record {
        bytes = o.bytes ++ (a.bytes ++ d.bytes);
        written = Writes->> o.written (Writes->> a.written d.written);
        read_back = Reads->>= _ o.read_back (Reads->>= _ a.read_back (Reads-map _ d.read_back));
        size = omega (
          arith,
          length-append {0} o.bytes (a.bytes ++ d.bytes),
          length-append {0} a.bytes d.bytes,
          o.size,
          a.size,
          d.size,
        );
      }
