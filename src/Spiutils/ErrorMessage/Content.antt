-- ===== src/Spiutils/ErrorMessage/Content.antt =====
-- shared-lib/spiutils/src/protocol/error.rs, the content types.
use tock_on_titan.Common.{ℕ, [], ◌∷◌}
use Prim.Native.String.{String}
use tock_on_titan.Spiutils.Wire.{WireEnum}

-- `ContentType` of error.rs.
pub data ContentType : Type 0 where
  bad_checksum content_type_not_supported : ContentType

content_type_value : ContentType → ℕ
content_type_value bad_checksum = 0x01
content_type_value content_type_not_supported = 0x02

content_type_name : ContentType → String
content_type_name bad_checksum = "BadChecksum"
content_type_name content_type_not_supported = "ContentTypeNotSupported"

unfoldable pub content_type : WireEnum ContentType
unfolding content_type_value content_type_name
content_type = record {
  arms =
      (0x01, "BadChecksum", bad_checksum)
      ∷ (0x02, "ContentTypeNotSupported", content_type_not_supported)
      ∷ [];
  to_wire_value = content_type_value;
  name = content_type_name;
}
