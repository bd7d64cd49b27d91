-- ===== src/Agent/Session/Key.antt =====
-- Where the key of a session comes from: session.rs.
use hid_fi.Common.{
  ◌≡◌, refl, ◌∙◌, ℕ, Bool, true, Option, none, some, List, inl, inr, ◌⊎◌, Bool-cases,
}
use hid_fi.Core.Pairing.{Initiator, Confirmed}
use hid_fi.Core.Proto.{
  Refusal, refused, malformed, pin_required, full, unknown_pc, bad_proof, stale_challenge,
  unsupported, rate_limited, other,
}
use hid_fi.Agent.Env.{World}
use hid_fi.Common.Exec.{gets, modify, ◌>>=◌, Res, ok, err, panicked}
use hid_fi.Agent.Exec.{CallError, net, reply}
use hid_fi.Agent.Session.Defs.{
  Session, Phase, idle, unpaired, paired, pairing, reset_pairing, is_paired_phase, on_lost,
  on_unpaired, on_problem, on_refusal, on_error,
}
use hid_fi.Agent.Session.Steps.{
  Live, keep_key, settled, start_pairing, poll_pairing, beat, beat_with, step_phase, step,
}
use hid_fi.Agent.Session.Frame.{Stable, beat_with-Keeps, start_pairing-Leads, poll_pairing-Leads}

-- Where a session `s` may get the key it holds after a step.
pub data KeyFrom (s : Session) : Option (List ℕ) → Type 0 where
  kept : KeyFrom s s.identity.key
  thrown_away : is_paired_phase s.phase ≡ true → KeyFrom s none
  confirmed :
      (init : Initiator) (c : Confirmed) (announced : Bool) (asked_at : Option ℕ)
      → s.phase ≡ pairing init (some c) announced asked_at
      → KeyFrom s (some c.key)

-- The key is `k`, and the phase is paired at most where `b` is.
record Holds (k : Option (List ℕ)) (b : Bool) (s : Session) : Type 0 where
  key : s.identity.key ≡ k
  phase : is_paired_phase s.phase ≡ true → b ≡ true

Holds-Stable : (k : Option (List ℕ)) (b : Bool) → Stable (Holds k b)
Holds-Stable k b = record {
  quiet = record {
    status = λ x s h. record { key = h.key; phase = h.phase };
    nonces = λ x s h. record { key = h.key; phase = h.phase };
  };
  phase = λ x s n h. record { key = h.key; phase = λ e. cc (e, n) };
}

-- What a failure does to the key: it is dropped only in the paired phase.
Dropped : Option (List ℕ) → Bool → Session → Type 0
Dropped k b s = (s.identity.key ≡ k) ⊎ ((b ≡ true) × (s.identity.key ≡ none))

on_refusal-Dropped :
    (k : Option (List ℕ)) (b : Bool) (r : Refusal) (s : Session)
    → Holds k b s
    → Dropped k b (on_refusal r s).1
unfolding Dropped on_refusal on_unpaired on_problem reset_pairing
on_refusal-Dropped k b pin_required s h = inl h.key
on_refusal-Dropped k b (rate_limited ms) s h = inl h.key
on_refusal-Dropped k b stale_challenge s h = inl h.key
on_refusal-Dropped k b full s h = inl h.key
on_refusal-Dropped k b unsupported s h = inl h.key
on_refusal-Dropped k b (other t) s h = inl h.key
on_refusal-Dropped k b unknown_pc s h = elim (Bool-cases (is_paired_phase s.phase)) [
  | inl p ↦ rw p (inr (h.phase p, refl))
  | inr p ↦ rw p (inl h.key)
]
on_refusal-Dropped k b bad_proof s h = elim (Bool-cases (is_paired_phase s.phase)) [
  | inl p ↦ rw p (inr (h.phase p, refl))
  | inr p ↦ rw p (inl h.key)
]

on_error-Dropped :
    (k : Option (List ℕ)) (b : Bool) (e : CallError) (s : Session)
    → Holds k b s
    → Dropped k b (on_error e s).1
unfolding Dropped on_error on_lost
on_error-Dropped k b (net e) s h = inl h.key
on_error-Dropped k b (reply malformed) s h = inl h.key
on_error-Dropped k b (reply (refused r)) s h = on_refusal-Dropped k b r s h

-- How a poll ends: with the key it began with, or with the key of the confirmed attempt.
data Ending (s0 : Session) : Res CallError ℕ → Session → Type 0 where
  same :
      (r : Res CallError ℕ) (s : Session)
      → Holds s0.identity.key (is_paired_phase s0.phase) s
      → Ending s0 r s
  taken :
      (init : Initiator) (c : Confirmed) (announced : Bool) (asked_at : Option ℕ)
      → s0.phase ≡ pairing init (some c) announced asked_at
      → (s : Session) → s.identity.key ≡ some c.key
      → Ending s0 (ok 0) s

same_from :
    (s0 : Session) (r : Res CallError ℕ) (s : Session)
    → Holds s0.identity.key (is_paired_phase s0.phase) s
    → Ending s0 r s
same_from s0 r s h = same r s h

KeyFrom-Dropped :
    (s0 s : Session)
    → Dropped s0.identity.key (is_paired_phase s0.phase) s
    → KeyFrom s0 s.identity.key
unfolding Dropped
KeyFrom-Dropped s0 s (inl e) = rw e kept
KeyFrom-Dropped s0 s (inr (p, e)) = rw e (thrown_away p)

module _ (w : World) where
  settled-KeyFrom :
      (s0 : Session) (r : Res CallError ℕ) (l : Live w.W)
      → Ending s0 r l.session
      → KeyFrom s0 (settled w (r, l)).1.session.identity.key
  settled-KeyFrom s0 r l (taken init c announced asked p s e) =
      rw e (confirmed init c announced asked p)
  settled-KeyFrom s0 (ok wait) l (same r s h) = rw h.key kept
  settled-KeyFrom s0 panicked l (same r s h) = rw h.key kept
  settled-KeyFrom s0 (err e) l (same r s h) =
      KeyFrom-Dropped s0 _ (on_error-Dropped _ _ e l.session h)

  start : (s : Session) → Holds s.identity.key (is_paired_phase s.phase) s
  start s = record { key = refl; phase = λ e. e }

  beat-Holds :
      (k : Option (List ℕ)) (b : Bool) (l : Live w.W) (key : Option (List ℕ))
      → Holds k b l.session
      → Holds k b (beat_with w key l.session.listener l).1.session
  unfolding beat_with ◌>>=◌ modify
  beat-Holds k b l (some key) h =
      (beat_with-Keeps w (Holds-Stable k b).quiet key l.session.listener).at l h
  beat-Holds k b l none h = (Holds-Stable k b).phase unpaired l.session refl h

  step_phase-KeyFrom :
      (phase : Phase) (l : Live w.W)
      → l.session.phase ≡ phase
      → KeyFrom l.session (step_phase w phase l).1.session.identity.key
  unfolding step_phase beat gets ◌>>=◌
  step_phase-KeyFrom idle l e = kept
  step_phase-KeyFrom unpaired l e =
      settled-KeyFrom l.session (start_pairing w l).0 (start_pairing w l).1
        ((start_pairing-Leads w (Holds-Stable _ _) (same_from l.session)).at l (start l.session))
  step_phase-KeyFrom (pairing init held announced asked) l e =
      settled-KeyFrom l.session (poll_pairing w l).0 (poll_pairing w l).1 (
        poll_pairing-Leads w (Holds-Stable _ _) (same_from l.session) init held announced asked l e
          (λ c s p h. taken init c announced asked (e ∙ rw p refl) (keep_key c.key s) refl)
          (start l.session))
  step_phase-KeyFrom paired l e =
      settled-KeyFrom l.session (beat w l).0 (beat w l).1
        (same _ _ (beat-Holds _ _ l l.session.identity.key (start l.session)))

  -- After a step the key is the one before it, or none if the session was paired, or the key of the
  -- attempt that the session held as confirmed: no board can put another key there.
  pub step-KeyFrom : (l : Live w.W) → KeyFrom l.session (step w l).1.session.identity.key
  unfolding step
  step-KeyFrom l = step_phase-KeyFrom l.session.phase l refl
