-- ===== src/Spiutils/ErrorMessage/ContentLaws.antt =====
-- The laws of the content types of error.rs.
use tock_on_titan.Common.{All, ◌<◌, ◌≡◌, refl, arith, some}
use tock_on_titan.Spiutils.Wire.{IsWireEnum, Agrees, from_wire_value, from_name}
use tock_on_titan.Spiutils.ErrorMessage.Content.{
  ContentType, bad_checksum, content_type_not_supported, content_type,
}

content_type_from_value :
    (x : ContentType) → from_wire_value content_type (content_type.to_wire_value x) ≡ some x
unfolding content_type
content_type_from_value bad_checksum = refl
content_type_from_value content_type_not_supported = refl

from_name-content_type : (x : ContentType) → from_name content_type (content_type.name x) ≡ some x
unfolding content_type
from_name-content_type bad_checksum = refl
from_name-content_type content_type_not_supported = refl

content_type_is_byte : (x : ContentType) → content_type.to_wire_value x < 256
unfolding content_type
content_type_is_byte bad_checksum = omega arith
content_type_is_byte content_type_not_supported = omega arith

content_type_arms : All (Agrees content_type) (content_type.arms)
unfolding content_type
content_type_arms = ((refl, refl), ((refl, refl), tt))

pub ContentType-IsWireEnum : IsWireEnum content_type
ContentType-IsWireEnum = record {
  from_value = content_type_from_value;
  from_own_name = from_name-content_type;
  value_is_byte = content_type_is_byte;
  arms_agree = content_type_arms;
}
