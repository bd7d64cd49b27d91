-- ===== src/Agent/Nonces.antt =====
-- Ticket nonces: `TicketNonces` of companion/crates/hidfi-agent/src/session.rs. The lock around the
-- queue is not modelled: each method is one step.
pub mod Live
use hid_fi.Common.{ℕ, ◌-◌, Bool, true, false, ◌&&◌, ◌||◌, List, [], ◌∷◌, ltb, take, any}
use hid_fi.Common.Text.{Text, eq}

abbrev pub tn_lifetime : ℕ
tn_lifetime = 90_000

-- The nonces with the times of their announcement, newest first.
abbrev pub TicketNonces : Type 0
TicketNonces = List (Text × ℕ)

unfoldable pub announce : Text → ℕ → TicketNonces → TicketNonces
announce tn now q = take 8 ((tn, now) ∷ q)

-- `saturating_duration_since` is the truncated difference.
unfoldable pub is_live : Text → ℕ → TicketNonces → Bool
is_live tn now [] = false
is_live tn now ((t, at_time) ∷ q) = eq t tn && ltb (now - at_time) tn_lifetime || is_live tn now q
