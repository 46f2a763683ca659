-- ===== src/Usb/Types/Tests.antt =====
-- The descriptors at those that the U2F device gives.
use tock_on_titan.Common.{
  ℕ, zero, suc, ◌+◌, ◌*◌, ◌≡◌, refl, List, [], ◌∷◌, some, length, take, arith,
}
use tock_on_titan.Usb.Types.{
  ConfigurationDescriptor, new_configuration, set_total_length, configuration_into_u32_buf,
  configuration_into_u8_buf, InterfaceDescriptor, new_interface, interface_into_u32_buf,
  interface_into_u8_buf, new_string, string_into_u32_buf,
}
use tock_on_titan.Usb.Types.Bytes.{le_bytes}
use tock_on_titan.Usb.Types.SameBytes.{
  SameBytes, IsConfiguration, IsInterface, into_buffers-SameBytes,
}
use tock_on_titan.Usb.Types.Strings.{bytes_of_characters, string_into_u32_buf_lem}

abbrev zeros : ℕ → List ℕ
zeros zero = []
zeros (suc n) = 0 ∷ zeros n

abbrev u2f_configuration : ConfigurationDescriptor
u2f_configuration = set_total_length (new_configuration 2 5 50) 0x149

abbrev u2f_interface : InterfaceDescriptor
u2f_interface = new_interface 6 1 3 0 0

into_buffers-SameBytes_example :
    SameBytes
      (configuration_into_u32_buf u2f_configuration (zeros 64))
      (configuration_into_u8_buf u2f_configuration (zeros 16))
    × SameBytes
        (interface_into_u32_buf u2f_interface (zeros 64))
        (interface_into_u8_buf u2f_interface (zeros 16))
unfolding IsConfiguration IsInterface new_configuration set_total_length new_interface
into_buffers-SameBytes_example =
    into_buffers-SameBytes u2f_configuration u2f_interface (zeros 64) (zeros 16) (omega arith)
      (omega arith) refl (omega arith)

-- "U2F"
abbrev u2f : List ℕ
u2f = 0x55 ∷ 0x32 ∷ 0x46 ∷ []

string_into_u32_buf_lem_example :
    (filled : List ℕ) × (string_into_u32_buf (new_string u2f) (zeros 64)
      ≡ some (2 + 2 * length u2f, filled))
    × (take (2 + 2 * length u2f) (le_bytes filled)
        ≡ (2 + 2 * length u2f) ∷ 3 ∷ bytes_of_characters u2f)
string_into_u32_buf_lem_example =
    string_into_u32_buf_lem u2f (zeros 64) (omega arith) (omega arith) refl
