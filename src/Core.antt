-- ===== src/Core.antt =====
-- The decisions shared by the Companion's parts, companion/crates/hidfi-core.
pub mod Crates
pub mod Pairing
pub mod Proto
pub mod Discovery
pub mod Ota
