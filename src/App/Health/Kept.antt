-- ===== src/App/Health/Kept.antt =====
-- Which answers are kept: `Samples` of health.rs.
use hid_fi.Common.{
  ◌≡◌, refl, sym, ap, ◌∙◌, ℕ, zero, suc, ◌+◌, ◌-◌, ◌^◌, ◌≤◌, min, arith, false, List, [], ◌∷◌, ◌++◌,
  ◌==◌, leb, inl, inr, Bool-cases, length, length-append, length-drop, drop,
}
use hid_fi.App.Health.{keep, Samples, no_samples, pushed, answered, unanswered}

-- What a probe brings: the times of an answer, or none.
pub data Probed : Type 0 where
  answer : ℕ → ℕ → ℕ → Probed
  silence : Probed

pub record_probe : Samples → Probed → Samples
record_probe s (answer ms whole at_time) = answered ms whole at_time s
record_probe s silence = unanswered s

pub record_all : Samples → List Probed → Samples
record_all s [] = s
record_all s (p ∷ ps) = record_all (record_probe s p) ps

-- The round trips of the answers.
pub trips : List Probed → List ℕ
trips [] = []
trips (answer ms whole at_time ∷ ps) = ms ∷ trips ps
trips (silence ∷ ps) = trips ps

-- How many probes in a row went unanswered at the end, after so many before.
pub silent : ℕ → List Probed → ℕ
silent n [] = n
silent n (answer ms whole at_time ∷ ps) = silent 0 ps
silent n (silence ∷ ps) = silent (n + 1) ps

pub last_of : ℕ → List ℕ → List ℕ
last_of n xs = drop (length xs - n) xs

drop-suc : (k : ℕ) (xs : List ℕ) → drop 1 (drop k xs) ≡ drop (suc k) xs
drop-suc zero xs = refl
drop-suc (suc k) [] = refl
drop-suc (suc k) (x ∷ xs) = drop-suc k xs

positive : (k : ℕ) → ¬ (suc k ≤ 0)
positive k h = omega arith

drop-append_le : (k : ℕ) (xs ys : List ℕ) → k ≤ length xs → drop k (xs ++ ys) ≡ drop k xs ++ ys
drop-append_le zero xs ys h = refl
drop-append_le (suc k) [] ys h = elim (positive k h) [ ]
drop-append_le (suc k) (x ∷ xs) ys h = drop-append_le k xs ys (omega arith)

append_nil : (xs : List ℕ) → xs ++ [] ≡ xs
append_nil [] = refl
append_nil (x ∷ xs) = ap (λ (l : List ℕ). x ∷ l) (append_nil xs)

append_step : (xs : List ℕ) (y : ℕ) (ys : List ℕ) → (xs ++ y ∷ []) ++ ys ≡ xs ++ y ∷ ys
append_step [] y ys = refl
append_step (x ∷ xs) y ys = ap (λ (l : List ℕ). x ∷ l) (append_step xs y ys)

pushed_full : (x : ℕ) (ys : List ℕ) → length ys ≡ keep → pushed x ys ≡ drop 1 ys ++ x ∷ []
pushed_full x ys h = rw h refl

pushed_short : (x : ℕ) (ys : List ℕ) → (length ys == keep) ≡ false → pushed x ys ≡ ys ++ x ∷ []
pushed_short x ys h = rw h refl

long :
    (x : ℕ) (xs : List ℕ)
    → keep ≤ length xs
    → pushed x (last_of keep xs) ≡ last_of keep (xs ++ x ∷ [])
unfolding last_of
long x xs h =
    let k = length xs - keep in
    pushed_full x (drop k xs) (omega (arith, length-drop k xs))
    ∙ ap (λ (l : List ℕ). l ++ x ∷ []) (drop-suc k xs)
    ∙ sym (drop-append_le (suc k) xs (x ∷ []) (omega arith))
    ∙ ap (λ (n : ℕ). drop n (xs ++ x ∷ [])) {x = suc k} (omega (arith, length-append xs (x ∷ [])))

short :
    (x : ℕ) (xs : List ℕ)
    → ¬ (keep ≤ length xs)
    → pushed x (last_of keep xs) ≡ last_of keep (xs ++ x ∷ [])
unfolding last_of
short x xs h =
    let k = length xs - keep in
    pushed_short x (drop k xs) (grind (arith, length-drop k xs))
    ∙ sym (drop-append_le k xs (x ∷ []) (omega arith))
    ∙ ap (λ (n : ℕ). drop n (xs ++ x ∷ [])) (omega (arith, length-append xs (x ∷ [])))

pushed-last_of : (x : ℕ) (xs : List ℕ) → pushed x (last_of keep xs) ≡ last_of keep (xs ++ x ∷ [])
pushed-last_of x xs = elim (Bool-cases (leb keep (length xs))) [
  | inl p ↦ long x xs (ground arith)
  | inr p ↦ short x xs (ground arith)
]

-- The samples of a history of round trips, with so many unanswered probes at its end.
record Of (history : List ℕ) (n : ℕ) (s : Samples) : Type 0 where
  ms : s.ms ≡ last_of keep history
  failing : s.failing ≡ min n (2 ^ 32 - 1)

record_all-Of :
    (ps : List Probed) (history : List ℕ) (n : ℕ) (s : Samples)
    → Of history n s
    → Of (history ++ trips ps) (silent n ps) (record_all s ps)
unfolding trips silent record_all record_probe answered unanswered
record_all-Of [] history n s h = record {
  ms = h.ms ∙ ap (last_of keep) (sym (append_nil history));
  failing = h.failing;
}
record_all-Of (answer ms whole at_time ∷ ps) history n s h =
    rw⁻¹ (append_step history ms (trips ps)) (
      record_all-Of ps (history ++ ms ∷ []) 0 _
        (record { ms = ap (pushed ms) h.ms ∙ pushed-last_of ms history; failing = refl }))
record_all-Of (silence ∷ ps) history n s h =
    record_all-Of ps history (n + 1) _ (record { ms = h.ms; failing = grind (arith, h.failing) })

-- After any probes, from none, the kept round trips are those of the last five answers, oldest
-- first, and the failing count is how many probes in a row went unanswered since, as far as 32 bits
-- count.
pub record_all-last_of :
    (ps : List Probed)
    → ((record_all no_samples ps).ms ≡ last_of keep (trips ps))
      × ((record_all no_samples ps).failing ≡ min (silent 0 ps) (2 ^ 32 - 1))
unfolding last_of
record_all-last_of ps =
    let h = record_all-Of ps [] 0 no_samples (record { ms = refl; failing = refl }) in
    (h.ms, h.failing)
