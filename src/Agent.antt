-- ===== src/Agent.antt =====
-- The app's side of the conversation with its board, companion/crates/hidfi-agent.
pub mod Env
pub mod Exec
pub mod Nonces
pub mod Session
pub mod Locate
