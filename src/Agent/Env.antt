-- ===== src/Agent/Env.antt =====
-- The outside world of the agent (companion/crates/hidfi-agent/src/env.rs): plain HTTP, the clock
-- and the random source, each acting on the state of the world, and the crates that the agent
-- calls. Times and durations are whole milliseconds.
use hid_fi.Common.{ℕ, Option, List}
use hid_fi.Common.Text.{Text}
use hid_fi.Core.Crates.{Crypto, Hex}
use hid_fi.Core.Proto.{Json}

pub data NetError : Type 0 where
  unreachable : Text → NetError
  too_large : NetError

-- A reply with any HTTP status is a reply.
pub data HttpResult : Type 0 where
  reply : ℕ → Text → HttpResult
  failed : NetError → HttpResult

pub record World : Type 1 where
  pub W : Type 0
  pub post_json : Text → Text → W → HttpResult × W
  pub get : Text → W → HttpResult × W
  pub now : W → ℕ
  pub fill : ℕ → W → Option (List ℕ) × W  -- getrandom: so many bytes, or a failure
  pub uptime_sec : Text → Option ℕ  -- serde_json: the field of that name, if it is a number
  pub crypto : Crypto
  pub hex : Hex
  pub json : Json
