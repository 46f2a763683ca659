-- ===== src/NvCounter.antt =====
-- kernel/h1/src/nvcounter: the non-volatile counter kept in two flash pages.
pub mod Device
pub mod Page
pub mod Capsule
mod Tests
