-- ===== src/Flash/Image.antt =====
-- What is on a board's flash: companion/crates/hidfi-flash/src/image.rs.
pub mod Table
pub mod Otadata
pub mod App
