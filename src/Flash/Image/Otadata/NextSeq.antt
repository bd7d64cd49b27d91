-- ===== src/Flash/Image/Otadata/NextSeq.antt =====
-- The loop of `otadata_switch` that looks for a sequence number.
use hid_fi.Common.{
  ℕ, zero, suc, ◌+◌, ◌-◌, ◌%◌, ◌^◌, ◌≤◌, ◌<◌, ◌≡◌, ◌≢◌, ◌⊎◌, sym, ap, ◌∙◌, true, false, some, arith,
  ◌==◌, ltb, if◌then◌else◌, Bool-cases, inl, inr,
}
use native.Mathlib.Nat.{mod-eq_of_lt, mod-lt, suc-mod, mod_self}
use native.Mathlib.Decide.{dec_lt}
use hid_fi.Flash.Image.Otadata.{slot_of, next_seq}

pub slot_of_lem : (seq slots : ℕ) → seq < 2 ^ 32 → slot_of (suc seq) slots ≡ seq % slots
unfolding slot_of
slot_of_lem seq slots h = ap (λ (n : ℕ). n % slots) (omega arith)

-- How many steps of the loop are left until `r` is the wanted remainder.
pub distance : ℕ → ℕ → ℕ → ℕ
distance r slot slots = if ltb slot r then slot + slots - r else slot - r

mod_step :
    (r slots : ℕ)
    → r < slots
    → ((suc r % slots ≡ suc r) × (suc r < slots)) ⊎ ((suc r % slots ≡ 0) × (suc r ≡ slots))
mod_step r slots h = elim (dec_lt (suc r) slots) [
  | yes p ↦ inl (mod-eq_of_lt p, p)
  | no p ↦
      let e : suc r ≡ slots = omega arith in
      inr (ap (λ (n : ℕ). suc r % n) (sym e) ∙ mod_self (suc r), e)
]

distance_step :
    (s slot slots : ℕ)
    → slot < slots
    → s % slots ≢ slot
    → suc (distance (suc s % slots) slot slots) ≡ distance (s % slots) slot slots
unfolding distance
distance_step s slot slots h ne =
    let r-lt : s % slots < slots = mod-lt s (omega arith) in
    rw (suc-mod s slots) (elim (mod_step (s % slots) slots r-lt) [
      | inl (e, p) ↦ rw e (ground arith)
      | inr (e, p) ↦ rw e (ground arith)
    ])

next_seq_here :
    (fuel slot slots s : ℕ)
    → s < 2 ^ 32 - 1
    → (s % slots == slot) ≡ true
    → next_seq (suc fuel) slot slots (suc s) ≡ some (suc s)
unfolding next_seq
next_seq_here fuel slot slots s h e = rw (slot_of_lem s slots (omega arith)) (rw e)

next_seq_later :
    (fuel slot slots s : ℕ)
    → s < 2 ^ 32 - 2
    → (s % slots == slot) ≡ false
    → next_seq (suc fuel) slot slots (suc s) ≡ next_seq fuel slot slots (suc (suc s))
unfolding next_seq
next_seq_later fuel slot slots s h e =
    rw (slot_of_lem s slots (omega arith)) (rw e (ap (next_seq fuel slot slots) (omega arith)))

-- With fuel for the distance, and no wrap on the way, the loop finds the next number of the slot.
pub next_seq_found :
    (fuel slot slots s : ℕ)
    → slot < slots
    → distance (s % slots) slot slots < fuel
    → s + fuel < 2 ^ 32
    → (t : ℕ) × (next_seq fuel slot slots (suc s) ≡ some (suc t))
      × (s ≤ t)
      × (t < s + fuel)
      × (t % slots ≡ slot)
next_seq_found zero slot slots s h hd hf = absurd (omega arith)
next_seq_found (suc fuel) slot slots s h hd hf = elim (Bool-cases (s % slots == slot)) [
  | inl e ↦
      (s, next_seq_here fuel slot slots s (omega arith) e, omega arith, omega arith, ground arith)
  | inr ne ↦
      let (t, found, lo, hi, m) =
        next_seq_found fuel slot slots (suc s) h
          (omega (arith, distance_step s slot slots h (ground arith))) (omega arith) in
      (t, next_seq_later fuel slot slots s (omega arith) ne ∙ found, omega arith, omega arith, m)
]

-- The distance is always within one round of the slots.
pub distance-lt : (r slot slots : ℕ) → r < slots → slot < slots → distance r slot slots < slots
unfolding distance
distance-lt r slot slots h k = ground arith
