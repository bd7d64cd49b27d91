-- ===== src/Agent/Nonces/Live.antt =====
-- Which nonces are live.
use hid_fi.Common.{
  ℕ, ◌+◌, ◌-◌, ◌≤◌, ◌<◌, ◌≡◌, refl, true, ◌&&◌, [], ◌∷◌, arith, ltb, lt→ltb, length, length-take,
  inl, inr, ◌⊎◌, Bool-cases,
}
use hid_fi.Common.Text.{Text, eq, eq_refl, eq_sound}
use hid_fi.Agent.Nonces.{TicketNonces, tn_lifetime, announce, is_live}

-- A nonce is live from its announcement until it is 90 seconds old, and no queue is longer than
-- eight nonces.
pub announce-is_live :
    (tn : Text) (now later : ℕ) (q : TicketNonces)
    → later < now + tn_lifetime
    → (is_live tn later (announce tn now q) ≡ true) × (length (announce tn now q) ≤ 8)
unfolding announce is_live
announce-is_live tn now later q h = (
  rw (eq_refl tn, lt→ltb (later - now) tn_lifetime (omega arith)) refl,
  omega (arith, length-take 8 ((tn, now) ∷ q)),
)

-- An entry of the queue, by its text and time.
abbrev pub Announced : Text → ℕ → TicketNonces → Type 0
Announced tn now [] = ⊥
Announced tn now ((t, at_time) ∷ q) =
    ((t ≡ tn) × (now < at_time + tn_lifetime)) ⊎ Announced tn now q

-- A nonce that is live was announced, less than 90 seconds ago.
pub is_live-Announced :
    (tn : Text) (now : ℕ) (q : TicketNonces) → is_live tn now q ≡ true → Announced tn now q
unfolding is_live
is_live-Announced tn now [] h = cc
is_live-Announced tn now ((t, at_time) ∷ q) h =
    elim (Bool-cases (eq t tn && ltb (now - at_time) tn_lifetime)) [
      | inl p ↦ inl (eq_sound t tn (ground arith), ground arith)
      | inr p ↦ inr (is_live-Announced tn now q (rw p at h))
    ]
