-- ===== src/Spiutils/Payload/ContentLaws.antt =====
-- The laws of the content types of payload.rs.
use tock_on_titan.Common.{All, ◌<◌, ◌≡◌, refl, arith, some}
use tock_on_titan.Spiutils.Wire.{IsWireEnum, Agrees, from_wire_value, from_name}
use tock_on_titan.Spiutils.Payload.Content.{ContentType, error, manticore, firmware, content_type}

content_type_from_value :
    (x : ContentType) → from_wire_value content_type (content_type.to_wire_value x) ≡ some x
unfolding content_type
content_type_from_value error = refl
content_type_from_value manticore = refl
content_type_from_value firmware = refl

from_name-content_type : (x : ContentType) → from_name content_type (content_type.name x) ≡ some x
unfolding content_type
from_name-content_type error = refl
from_name-content_type manticore = refl
from_name-content_type firmware = refl

content_type_is_byte : (x : ContentType) → content_type.to_wire_value x < 256
unfolding content_type
content_type_is_byte error = omega arith
content_type_is_byte manticore = omega arith
content_type_is_byte firmware = omega arith

content_type_arms : All (Agrees content_type) (content_type.arms)
unfolding content_type
content_type_arms = ((refl, refl), ((refl, refl), ((refl, refl), tt)))

pub ContentType-IsWireEnum : IsWireEnum content_type
ContentType-IsWireEnum = record {
  from_value = content_type_from_value;
  from_own_name = from_name-content_type;
  value_is_byte = content_type_is_byte;
  arms_agree = content_type_arms;
}
