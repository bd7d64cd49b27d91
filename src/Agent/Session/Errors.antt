-- ===== src/Agent/Session/Errors.antt =====
-- How long a session waits after failures: `on_error` of session.rs.
use native.Mathlib.Nat.{pow-suc}
use hid_fi.Common.{◌≡◌, ℕ, zero, suc, ◌*◌, ◌^◌, ◌≤◌, min, arith}
use hid_fi.Core.Proto.{
  Refusal, refused, malformed, pin_required, full, unknown_pc, bad_proof, stale_challenge,
  unsupported, rate_limited, other,
}
use hid_fi.Agent.Exec.{CallError, net, reply}
use hid_fi.Agent.Env.{NetError}
use hid_fi.Agent.Session.Defs.{
  Session, backoff_min, backoff_max, on_lost, on_unpaired, on_problem, on_refusal, on_error,
}

on_refusal_waits : (r : Refusal) (s : Session) → backoff_min ≤ (on_refusal r s).0
unfolding on_refusal on_unpaired on_problem
on_refusal_waits pin_required s = omega arith
on_refusal_waits (rate_limited ms) s = grind arith
on_refusal_waits stale_challenge s = omega arith
on_refusal_waits full s = omega arith
on_refusal_waits unsupported s = omega arith
on_refusal_waits (other t) s = omega arith
on_refusal_waits unknown_pc s = ground arith
on_refusal_waits bad_proof s = ground arith

-- Whatever the error, the board is left alone for a second at least, if the wait of the session is
-- no shorter.
pub on_error_waits :
    (e : CallError) (s : Session) → backoff_min ≤ s.backoff → backoff_min ≤ (on_error e s).0
unfolding on_error on_lost
on_error_waits (net e) s h = h
on_error_waits (reply malformed) s h = h
on_error_waits (reply (refused r)) s h = on_refusal_waits r s

-- The session after so many failures of the network.
pub after : ℕ → NetError → Session → Session
after zero e s = s
after (suc n) e s = (on_error (net e) (after n e s)).1

power_doubles : (b n : ℕ) → b * 2 ^ suc n ≡ b * 2 ^ n * 2
power_doubles b n = grind (arith, pow-suc 2 n)

-- After `n` failures of the network the wait has doubled `n` times, up to thirty seconds.
pub on_error_doubles :
    (n : ℕ) (e : NetError) (s : Session)
    → s.backoff ≤ backoff_max
    → (on_error (net e) (after n e s)).0 ≡ min (s.backoff * 2 ^ n) backoff_max
unfolding on_error on_lost after
on_error_doubles zero e s h = grind arith
on_error_doubles (suc n) e s h = grind (arith, on_error_doubles n e s h, power_doubles s.backoff n)
