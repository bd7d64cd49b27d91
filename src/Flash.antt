-- ===== src/Flash.antt =====
-- The cable flasher, companion/crates/hidfi-flash.
pub mod Slip
pub mod Proto
pub mod Image
pub mod Hex
pub mod Flasher
pub mod Update
