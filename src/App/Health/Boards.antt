-- ===== src/App/Health/Boards.antt =====
-- Every board's samples, and whether anyone is looking: `Health` of health.rs. Each method is one
-- step; the map is a list of entries, by MAC. The time of an answer comes with the probe.
use hid_fi.Common.{
  ◌≡◌, ◌≢◌, refl, sym, Bool, true, false, List, [], ◌∷◌, if◌then◌else◌, any, inl, inr, Bool-cases,
}
use hid_fi.Common.Text.{Text, eq, eq_sound, eq_refl}
use hid_fi.App.Health.{Samples, no_samples}
use hid_fi.App.Health.Kept.{Probed, record_probe}

abbrev pub Entries : Type 0
Entries = List (Text × Samples)

pub record Health : Type 0 where
  pub entries : Entries
  pub active : Bool

-- `entry(mac).or_default()`, read.
unfoldable pub samples_of : Text → Entries → Samples
samples_of mac [] = no_samples
samples_of mac ((m, s) ∷ es) = let rest = samples_of mac es in if eq m mac then s else rest

unfoldable pub recorded : Text → Probed → Entries → Entries
recorded mac p [] = (mac, record_probe no_samples p) ∷ []
recorded mac p ((m, s) ∷ es) =
    let rest = recorded mac p es in if eq m mac then (m, record_probe s p) ∷ es else (m, s) ∷ rest

unfoldable pub set_active : Bool → Health → Health
set_active on h =
    if on
    then record h { active = true }
    else if h.active
    then record { entries = []; active = false }
    else h

unfoldable pub retain : List (Text × Text) → Entries → Entries
retain keep [] = []
retain keep ((m, s) ∷ es) =
    let rest = retain keep es in if any (λ k. eq k.0 m) keep then (m, s) ∷ rest else rest

own :
    (mac : Text) (p : Probed) (es : Entries)
    → samples_of mac (recorded mac p es) ≡ record_probe (samples_of mac es) p
unfolding samples_of recorded
own mac p [] = rw (eq_refl mac) refl
own mac p ((m, s) ∷ es) = elim (Bool-cases (eq m mac)) [
  | inl h ↦ simp (h)
  | inr h ↦ rw (h, h) (own mac p es)
]

not_eq : (a b : Text) → a ≢ b → eq b a ≡ false
not_eq a b n = elim (Bool-cases (eq b a)) [
  | inl h ↦ elim (n (sym (eq_sound b a h))) [ ]
  | inr h ↦ h
]

another :
    (mac other : Text) (p : Probed) (es : Entries)
    → other ≢ mac
    → samples_of other (recorded mac p es) ≡ samples_of other es
unfolding samples_of recorded
another mac other p [] n = rw (not_eq other mac n) refl
another mac other p ((m, s) ∷ es) n = elim (Bool-cases (eq m mac)) [
  | inl h ↦ simp (eq_sound m mac h, eq_refl mac, not_eq other mac n)
  | inr h ↦ simp (h, another mac other p es n)
]

-- A probe changes the samples of its own board, by what it brought, and not those of any other.
pub samples_of-recorded :
    (mac other : Text) (p : Probed) (es : Entries)
    → other ≢ mac
    → (samples_of mac (recorded mac p es) ≡ record_probe (samples_of mac es) p)
      × (samples_of other (recorded mac p es) ≡ samples_of other es)
samples_of-recorded mac other p es n = (own mac p es, another mac other p es n)
