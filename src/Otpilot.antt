-- ===== src/Otpilot.antt =====
-- userspace/otpilot/src: the process that answers SPI packets.
pub mod Drivers
pub mod FirmwareController
pub mod SpiProcessor
pub mod Keeps
pub mod OnlyInactive
pub mod Ends
pub mod Tests
pub mod Sfdp
