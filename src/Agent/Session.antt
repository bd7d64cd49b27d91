-- ===== src/Agent/Session.antt =====
-- The session with one board: companion/crates/hidfi-agent/src/session.rs.
mod Defs
mod Steps
pub mod Frame
pub mod Errors
pub mod Invariants
pub mod Key
mod Tests
pub use Defs.*
unfoldable pub use Steps.*
