-- ===== src/Spiutils.antt =====
-- shared-lib/spiutils/src: the byte formats that the SPI processor and its host exchange.
pub mod Io
pub mod BitBuf
pub mod Wire
pub mod Segment
pub mod Payload
pub mod ErrorMessage
pub mod Firmware
pub mod Flash
pub mod NetworkOrder
mod Tests
