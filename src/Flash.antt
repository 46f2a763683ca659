-- ===== src/Flash.antt =====
-- kernel/h1/src/hil/flash: the driver of the flash module.
pub mod SmartProgram
pub mod Driver
pub mod VirtualFlash
mod Tests
