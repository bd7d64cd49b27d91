-- ===== src/Agent/Session/Invariants.antt =====
-- What holds of every session that its owner can reach: session.rs.
use hid_fi.Common.{
  ◌≡◌, refl, sym, ◌∙◌, ℕ, ◌≤◌, arith, Bool, true, false, Option, none, some, List, inl, inr,
  Bool-cases,
}
use hid_fi.Common.Text.{Text}
use hid_fi.Core.Proto.{
  Refusal, refused, malformed, pin_required, full, unknown_pc, bad_proof, stale_challenge,
  unsupported, rate_limited, other,
}
use hid_fi.Agent.Env.{World}
use hid_fi.Common.Exec.{gets, ◌>>=◌, Res, ok, err, panicked}
use hid_fi.Agent.Exec.{CallError, net, reply}
use hid_fi.Agent.Session.Defs.{
  Session, Identity, Listener, Phase, idle, unpaired, paired, pairing, backoff_min, backoff_max,
  first_phase, new_session, set_base, lost, found_again, set_listener, reset_pairing, is_idle,
  request_pairing, is_paired_phase, on_lost, on_unpaired, on_problem, on_refusal, on_error,
}
use hid_fi.Agent.Session.Steps.{Live, keep_key, settled, beat, beat_with, step_phase, step}
use hid_fi.Agent.Session.Frame.{
  Quiet, Stable, beat_with-Keeps, start_pairing-Leads, poll_pairing-Leads,
}

abbrev is_some_key : Option (List ℕ) → Bool
is_some_key none = false
is_some_key (some k) = true

-- A key is held in the paired phase and in no other, and the wait that is kept for the next network
-- failure is in its bounds.
pub record Valid (s : Session) : Type 0 where
  pub coherent : is_paired_phase s.phase ≡ is_some_key s.identity.key
  pub above : backoff_min ≤ s.backoff
  pub below : s.backoff ≤ backoff_max

-- A valid session that is not paired.
record Apart (s : Session) : Type 0 where
  no_key : is_some_key s.identity.key ≡ false
  not_paired : is_paired_phase s.phase ≡ false
  above : backoff_min ≤ s.backoff
  below : s.backoff ≤ backoff_max

Apart-Valid : (s : Session) → Apart s → Valid s
Apart-Valid s h = record {
  coherent = h.not_paired ∙ sym h.no_key;
  above = h.above;
  below = h.below;
}

Valid-Apart : (s : Session) → is_paired_phase s.phase ≡ false → Valid s → Apart s
Valid-Apart s n h = record {
  no_key = sym h.coherent ∙ n;
  not_paired = n;
  above = h.above;
  below = h.below;
}

Valid-Quiet : Quiet Valid
Valid-Quiet = record {
  status = λ x s h. record { coherent = h.coherent; above = h.above; below = h.below };
  nonces = λ x s h. record { coherent = h.coherent; above = h.above; below = h.below };
}

Apart-Stable : Stable Apart
Apart-Stable = record {
  quiet = record {
    status = λ x s h. record {
      no_key = h.no_key;
      not_paired = h.not_paired;
      above = h.above;
      below = h.below;
    };
    nonces = λ x s h. record {
      no_key = h.no_key;
      not_paired = h.not_paired;
      above = h.above;
      below = h.below;
    };
  };
  phase = λ x s n h. record { no_key = h.no_key; not_paired = n; above = h.above; below = h.below };
}

keep_key-Valid : (k : List ℕ) (s : Session) → Apart s → Valid (keep_key k s)
keep_key-Valid k s h = record { coherent = refl; above = h.above; below = h.below }

unpaired-Valid : (s : Session) → Valid s → Valid (on_unpaired s).1
unfolding on_unpaired reset_pairing
unpaired-Valid s h = record { coherent = refl; above = h.above; below = h.below }

problem-Valid : (why : Text) (s : Session) → Valid s → Valid (on_problem why s).1
unfolding on_problem
problem-Valid why s h = record { coherent = h.coherent; above = h.above; below = h.below }

lost-Valid : (s : Session) → Valid s → Valid (on_lost s).1
unfolding on_lost
lost-Valid s h = record {
  coherent = h.coherent;
  above = grind (arith, h.above, h.below);
  below = grind (arith, h.above, h.below);
}

on_refusal-Valid : (r : Refusal) (s : Session) → Valid s → Valid (on_refusal r s).1
unfolding on_refusal
on_refusal-Valid pin_required s h = record {
  coherent = h.coherent;
  above = h.above;
  below = h.below;
}
on_refusal-Valid (rate_limited ms) s h = h
on_refusal-Valid stale_challenge s h = h
on_refusal-Valid full s h = problem-Valid _ s h
on_refusal-Valid unsupported s h = problem-Valid _ s h
on_refusal-Valid (other t) s h = problem-Valid _ s h
on_refusal-Valid unknown_pc s h = elim (Bool-cases (is_paired_phase s.phase)) [
  | inl p ↦ rw p (unpaired-Valid s h)
  | inr p ↦ rw p (problem-Valid _ s h)
]
on_refusal-Valid bad_proof s h = elim (Bool-cases (is_paired_phase s.phase)) [
  | inl p ↦ rw p (unpaired-Valid s h)
  | inr p ↦ rw p (record { coherent = sym p ∙ h.coherent; above = h.above; below = h.below })
]

on_error-Valid : (e : CallError) (s : Session) → Valid s → Valid (on_error e s).1
unfolding on_error
on_error-Valid (net e) s h = lost-Valid s h
on_error-Valid (reply malformed) s h = lost-Valid s h
on_error-Valid (reply (refused r)) s h = on_refusal-Valid r s h

module _ (w : World) where
  settled-Valid :
      (r : Res CallError ℕ × Live w.W) → Valid r.1.session → Valid (settled w r).1.session
  settled-Valid (ok wait, l) h = record {
    coherent = h.coherent;
    above = omega arith;
    below = omega arith;
  }
  settled-Valid (err e, l) h = on_error-Valid e l.session h
  settled-Valid (panicked, l) h = h

  beat-Valid :
      (l : Live w.W) (key : Option (List ℕ))
      → l.session.identity.key ≡ key
      → l.session.phase ≡ paired
      → Valid l.session
      → Valid (beat_with w key l.session.listener l).1.session
  beat-Valid l (some k) e p h = (beat_with-Keeps w Valid-Quiet k l.session.listener).at l h
  beat-Valid l none e p h = cc (h.coherent, e, p)

  step_phase-Valid :
      (phase : Phase) (l : Live w.W)
      → l.session.phase ≡ phase
      → Valid l.session
      → Valid (step_phase w phase l).1.session
  unfolding step_phase beat gets ◌>>=◌
  step_phase-Valid idle l e h = h
  step_phase-Valid unpaired l e h = settled-Valid _ (
      (start_pairing-Leads w Apart-Stable (λ r. Apart-Valid)).at l
        (Valid-Apart l.session (rw e refl) h))
  step_phase-Valid (pairing init confirmed announced asked) l e h = settled-Valid _ (
      poll_pairing-Leads w Apart-Stable (λ r. Apart-Valid) init confirmed announced asked l e
        (λ c s e' p. keep_key-Valid c.key s p) (Valid-Apart l.session (rw e refl) h))
  step_phase-Valid paired l e h = settled-Valid _ (beat-Valid l l.session.identity.key refl e h)

  -- A step keeps a session valid, whatever the board and the network do.
  pub step-Valid : (l : Live w.W) → Valid l.session → Valid (step w l).1.session
  unfolding step
  step-Valid l h = step_phase-Valid l.session.phase l refl h

-- What the owner of a session may do to it: companion/crates/hidfi-companion, its service.
pub data Move (w : World) (s : Session) : Session → Type 0 where
  stepped : (x : w.W) → Move w s (step w (record { session = s; world = x })).1.session
  moved_to : (base : Text) → Move w s (set_base base s)
  found : Move w s (found_again s)
  listening : (l : Listener) → Move w s (set_listener l s)
  unpairing : Move w s (reset_pairing s)
  asking : Move w s (request_pairing s)

pub data Reached (w : World) : Session → Type 0 where
  new : (identity : Identity) (base : Text) → Reached w (new_session identity base)
  next : {s t : Session} → Reached w s → Move w s t → Reached w t

first_phase_key : (key : Option (List ℕ)) → is_paired_phase (first_phase key) ≡ is_some_key key
first_phase_key none = refl
first_phase_key (some k) = refl

new-Valid : (identity : Identity) (base : Text) → Valid (new_session identity base)
unfolding new_session
new-Valid identity base = record {
  coherent = first_phase_key identity.key;
  above = omega arith;
  below = omega arith;
}

is_idle-apart : (x : Phase) → is_idle x ≡ true → is_paired_phase x ≡ false
is_idle-apart idle e = refl
is_idle-apart unpaired e = cc
is_idle-apart paired e = cc
is_idle-apart (pairing i c a t) e = cc

asking-Valid : (s : Session) → Valid s → Valid (request_pairing s)
unfolding request_pairing
asking-Valid s h = elim (Bool-cases (is_idle s.phase)) [
  | inl p ↦ rw p (record {
    coherent = sym (is_idle-apart s.phase p) ∙ h.coherent;
    above = h.above;
    below = h.below;
  })
  | inr p ↦ rw p h
]

Move-Valid : (w : World) (s t : Session) → Move w s t → Valid s → Valid t
unfolding set_base set_listener reset_pairing found_again request_pairing
Move-Valid w s t (stepped x) h = step-Valid w (record { session = s; world = x }) h
Move-Valid w s t (moved_to base) h = record {
  coherent = h.coherent;
  above = h.above;
  below = h.below;
}
Move-Valid w s t (listening l) h = record {
  coherent = h.coherent;
  above = h.above;
  below = h.below;
}
Move-Valid w s t unpairing h = record { coherent = refl; above = h.above; below = h.below }
Move-Valid w s t found h = elim (Bool-cases (lost s)) [
  | inl p ↦ rw p (record { coherent = h.coherent; above = omega arith; below = omega arith })
  | inr p ↦ rw p h
]
Move-Valid w s t asking h = asking-Valid s h

-- Whatever the board, the network and the owner do, a session that is reached from a new one holds
-- a key just when its phase is paired, and the wait that it keeps for its next network failure is from
-- one second to thirty.
pub Reached-Valid : (w : World) (s : Session) → Reached w s → Valid s
Reached-Valid w s (new identity base) = new-Valid identity base
Reached-Valid w t (next {s} r m) = Move-Valid w s t m (Reached-Valid w s r)
