-- ===== src/Spiutils/ErrorMessage.antt =====
-- shared-lib/spiutils/src/protocol/error.rs: error messages.
pub mod Content
pub mod ContentLaws
pub mod Messages
pub mod RoundTrip
