-- ===== src/Spiutils/ErrorMessage/Messages.antt =====
-- shared-lib/spiutils/src/protocol/error.rs: the header and the messages behind it, which have no
-- field.
use tock_on_titan.Spiutils.Io.{ok, Reader, Writer, ◌>>=◌, ◌>>◌, succeed}
use tock_on_titan.Spiutils.Wire.{enum_from_wire, enum_to_wire}
use tock_on_titan.Spiutils.ErrorMessage.Content.{ContentType, content_type}

pub record Header : Type 0 where
  pub content : ContentType

unfoldable pub header_from_wire : Reader Header
header_from_wire = do content ← enum_from_wire content_type; succeed (record { content = content })

unfoldable pub header_to_wire : Header → Writer
header_to_wire h = enum_to_wire content_type h.content

-- The structs `BadChecksum` and `ContentTypeNotSupported`.
pub data Message : Type 0 where
  bad_checksum content_type_not_supported : Message

-- `Message::TYPE`
unfoldable pub content : Message → ContentType
content bad_checksum = ContentType.bad_checksum
content content_type_not_supported = ContentType.content_type_not_supported

-- Neither message writes anything.
unfoldable pub to_wire : Message → Writer
to_wire bad_checksum c = ok c
to_wire content_type_not_supported c = ok c

-- `from_wire` of the message that a content type names.
unfoldable pub from_wire : ContentType → Reader Message
from_wire ContentType.bad_checksum = succeed bad_checksum
from_wire ContentType.content_type_not_supported = succeed content_type_not_supported

-- A header and the message that it announces, as `send_error` writes them.
unfoldable pub message_to_wire : Message → Writer
message_to_wire m = header_to_wire (record { content = content m }) >> to_wire m

-- The header, and then the message that it announces.
unfoldable pub message_from_wire : Reader Message
message_from_wire = header_from_wire >>= λ h. from_wire h.content
