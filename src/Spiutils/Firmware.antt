-- ===== src/Spiutils/Firmware.antt =====
-- shared-lib/spiutils/src/protocol/firmware.rs: the firmware messages.
pub mod Enums
pub mod EnumLaws
pub mod Messages
pub mod Message
pub mod Parts
pub mod RoundTrip
