-- ===== src/App.antt =====
-- The companion app, companion/crates/hidfi-companion.
pub mod Health
pub mod Updates
