-- ===== src/Usb.antt =====
-- kernel/h1/src/usb: the descriptors that the device gives a USB host.
pub mod Types
