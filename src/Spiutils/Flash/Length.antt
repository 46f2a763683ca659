-- ===== src/Spiutils/Flash/Length.antt =====
-- protocol/flash.rs: how many bytes a SPI flash header takes at most.
use tock_on_titan.Common.{ℕ, ◌+◌, Bool, true, false, Option, none, some, arith}
use tock_on_titan.Spiutils.Io.{ByteOrder}
use tock_on_titan.Spiutils.Io.Length.{
  AtMost, AtMost-u8, AtMost-int, AtMost-none, AtMost-more, AtMost->>,
}
use tock_on_titan.Spiutils.Wire.{enum_to_wire}
use tock_on_titan.Spiutils.Flash.{
  Header, write_address, write_dummy, header_to_wire, has_address, has_dummy_byte,
}

module _ (be : ByteOrder) (width : ℕ) where
  address-AtMost : (b : Bool) (a : Option ℕ) → AtMost width (write_address be width b a)
  unfolding write_address
  address-AtMost false a = AtMost-more (omega arith) AtMost-none
  address-AtMost true none = record { at_most = λ c. tt }
  address-AtMost true (some a) = AtMost-int be width a

  dummy-AtMost : (b : Bool) → AtMost 1 (write_dummy be width b)
  unfolding write_dummy
  dummy-AtMost false = AtMost-more (omega arith) AtMost-none
  dummy-AtMost true = AtMost-u8 _

  pub header_to_wire-AtMost : (h : Header) → AtMost (1 + (width + 1)) (header_to_wire be width h)
  unfolding header_to_wire enum_to_wire
  header_to_wire-AtMost h = AtMost->> (AtMost-u8 _) (
      AtMost->> (address-AtMost (has_address h.opcode) h.address)
        (dummy-AtMost (has_dummy_byte h.opcode)))
