-- ===== src/Flash/Flasher/Region.antt =====
-- Which bytes of the flash a write covers: the blocks of `write` in flasher.rs.
use hid_fi.Common.{
  ◌≡◌, ◌≢◌, refl, ap, ◌∙◌, ◌↔◌, inl, inr, ℕ, zero, suc, ◌+◌, ◌-◌, ◌*◌, ◌/◌, ◌%◌, ◌≤◌, ◌<◌, min,
  arith, Bool, true, false, List, [], ◌∷◌, ◌++◌, leb, Bool-cases, length, take, drop, replicate,
  All, length-append, length-replicate, length-take, length-drop, take-append-drop,
}
use native.Mathlib.Nat.{add-div_left, div-eq_of_lt, lt-div-mul-add}
use hid_fi.Flash.Flasher.{sector, stub_block}
use hid_fi.Flash.Flasher.Chip.{chunks_from, chunks, div_ceil}
use hid_fi.Flash.Flasher.Transfer.{sectors_of, block_of, region_of, padded}

pub joined : List (List ℕ) → List ℕ
joined [] = []
joined (c ∷ cs) = c ++ joined cs

one_block : (b : ℕ) → 0 < b → (b + (b - 1)) / b ≡ 1
one_block b h =
    add-div_left (b - 1) h ∙ ap (λ (q : ℕ). q + 1) (div-eq_of_lt {n = b - 1} {m = b} (omega arith))

pub small : (s : ℕ) → 0 < s → s ≤ stub_block → div_ceil s (min stub_block s) * min stub_block s ≡ s
unfolding div_ceil
small s p h = let e : min stub_block s ≡ s = grind arith in rw (e, one_block s p) (omega arith)

pub ceil-le : (a b : ℕ) → 0 < b → a ≤ div_ceil a b * b
unfolding div_ceil
ceil-le a b h = let l = lt-div-mul-add {a = a + (b - 1)} {b = b} h in omega arith

chunks_from-joined :
    (fuel n : ℕ) (xs : List ℕ) → 0 < n → length xs ≤ fuel → joined (chunks_from fuel n xs) ≡ xs
unfolding chunks_from joined
chunks_from-joined zero n [] p h = refl
chunks_from-joined zero n (x ∷ xs) p h = absurd (omega arith)
chunks_from-joined (suc fuel) n [] p h = refl
chunks_from-joined (suc fuel) n (x ∷ xs) p h =
    ap (λ (ys : List ℕ). take n (x ∷ xs) ++ ys)
      (chunks_from-joined fuel n (drop n (x ∷ xs)) p (omega (arith, length-drop n (x ∷ xs))))
    ∙ take-append-drop n (x ∷ xs)

chunks_from-lengths :
    (fuel n k : ℕ) (xs : List ℕ)
    → 0 < n
    → length xs ≡ k * n
    → All (λ c. length c ≡ n) (chunks_from fuel n xs)
unfolding chunks_from
chunks_from-lengths zero n k xs p h = tt
chunks_from-lengths (suc fuel) n k [] p h = tt
chunks_from-lengths (suc fuel) n zero (x ∷ xs) p h = absurd (omega arith)
chunks_from-lengths (suc fuel) n (suc k) (x ∷ xs) p h = (
  grind (arith, length-take n (x ∷ xs)),
  chunks_from-lengths fuel n k (drop n (x ∷ xs)) p (grind (arith, length-drop n (x ∷ xs))),
)

pub sectors_of-pos : (n : ℕ) → 0 < n → 0 < sectors_of n
unfolding sectors_of div_ceil
sectors_of-pos n h = omega arith

pub block_of-pos : (stub : Bool) (n : ℕ) → 0 < n → 0 < block_of stub n
unfolding block_of sectors_of div_ceil
block_of-pos true n h = grind arith
block_of-pos false n h = omega arith

pub le-region_of : (stub : Bool) (n : ℕ) → 0 < n → n ≤ region_of stub n
unfolding region_of sectors_of
le-region_of stub n h = omega (
  arith,
  ceil-le n sector (omega arith),
  ceil-le (sectors_of n) (block_of stub n) (block_of-pos stub n h),
)

pub length-padded :
    (stub : Bool) (bytes : List ℕ)
    → 0 < length bytes
    → length (padded stub bytes) ≡ region_of stub (length bytes)
unfolding padded
length-padded stub bytes h = omega (
  arith,
  length-append bytes (replicate (region_of stub (length bytes) - length bytes) 0xFF),
  length-replicate {A = ℕ} (region_of stub (length bytes) - length bytes) 0xFF,
  le-region_of stub (length bytes) h,
)

-- The blocks that a write of some bytes sends are the bytes with a filling of 0xFF behind them; each
-- has the size that was announced, and together they are as long as the region that was erased.
pub chunks-padded :
    (stub : Bool) (bytes : List ℕ)
    → 0 < length bytes
    → (joined (chunks (block_of stub (length bytes)) (padded stub bytes))
        ≡ bytes ++ replicate (region_of stub (length bytes) - length bytes) 0xFF)
      × All
          (λ c. length c ≡ block_of stub (length bytes))
          (chunks (block_of stub (length bytes)) (padded stub bytes))
      × (length (padded stub bytes) ≡ region_of stub (length bytes))
unfolding chunks padded
chunks-padded stub bytes h = (
  chunks_from-joined _ (block_of stub (length bytes)) (padded stub bytes)
      (block_of-pos stub (length bytes) h) (omega arith),
  chunks_from-lengths _ (block_of stub (length bytes)) _ (padded stub bytes)
      (block_of-pos stub (length bytes) h) (length-padded stub bytes h),
  length-padded stub bytes h,
)

small_iff : (x s : ℕ) → x ≡ s → s ≤ stub_block → (s < x) ↔ ((stub_block < s) × (s % stub_block ≢ 0))
small_iff x s e h = (λ l. absurd (omega arith), λ p. absurd (omega (arith, p.0)))

beyond : (s : ℕ) → s % stub_block ≢ 0 → s < (s + (stub_block - 1)) / stub_block * stub_block
beyond s h = grind (arith, h)

large_iff :
    (s : ℕ)
    → stub_block < s
    → (s < div_ceil s stub_block * stub_block) ↔ ((stub_block < s) × (s % stub_block ≢ 0))
unfolding div_ceil
large_iff s h = ((λ l. (h, λ e. omega arith)), λ p. beyond s p.1)

-- With the stub, a write reaches beyond the whole sectors of its bytes exactly when these are more
-- than one block of 16 KiB and not whole blocks.
pub region_of-beyond_iff :
    (n : ℕ)
    → 0 < n
    → (sectors_of n < region_of true n)
      ↔ ((stub_block < sectors_of n) × (sectors_of n % stub_block ≢ 0))
unfolding region_of block_of
region_of-beyond_iff n h = elim (Bool-cases (leb (sectors_of n) stub_block)) [
  | inl p ↦
      let le : sectors_of n ≤ stub_block = ground arith in
      small_iff _ (sectors_of n) (small (sectors_of n) (sectors_of-pos n h) le) le
  | inr p ↦
      let lt : stub_block < sectors_of n = ground arith in
      let e : min stub_block (sectors_of n) ≡ stub_block = grind arith in
      rw e (large_iff (sectors_of n) lt)
]
