-- ===== src/Spiutils/Payload/Content.antt =====
-- payload.rs, the content types.
use tock_on_titan.Common.{ℕ, [], ◌∷◌}
use Prim.Native.String.{String}
use tock_on_titan.Spiutils.Wire.{WireEnum}

-- `ContentType` of payload.rs.
pub data ContentType : Type 0 where
  error manticore firmware : ContentType

content_type_value : ContentType → ℕ
content_type_value error = 0x00
content_type_value manticore = 0x01
content_type_value firmware = 0x02

content_type_name : ContentType → String
content_type_name error = "Error"
content_type_name manticore = "Manticore"
content_type_name firmware = "Firmware"

unfoldable pub content_type : WireEnum ContentType
unfolding content_type_value content_type_name
content_type = record {
  arms =
      (0x00, "Error", error) ∷ (0x01, "Manticore", manticore) ∷ (0x02, "Firmware", firmware) ∷ [];
  to_wire_value = content_type_value;
  name = content_type_name;
}
