-- ===== src/VendorHid.antt =====
-- Requests of the host and their responses: subsys/vendor_hid/src/vendor_hid_protocol.c and
-- include/subsys/vendor_hid_protocol.h, with the backlight, the battery and the master role built in.
pub mod Scripts
pub mod Device
pub mod Context
pub mod Exchange
pub mod Refused
pub mod Slots
mod Tests
