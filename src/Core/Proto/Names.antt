-- ===== src/Core/Proto/Names.antt =====
-- A cleaned name fits the board.
use hid_fi.Common.{
  ℕ, ◌+◌, ◌≤◌, ◌≡◌, refl, ap, ◌∙◌, false, ◌&&◌, [], ◌∷◌, ◌++◌, arith, ltb, if◌then◌else◌, length,
  length-append, append-nil, All, All-append, Bool-cases, inl, inr, ltb_false→le,
}
use hid_fi.Common.Text.{
  Text, codes, is_empty, is_control, is_whitespace, len_utf8, utf8_char, utf8, trim, trim_start,
  trim_end,
}
use hid_fi.Core.Proto.{max_name, keep_chars, clean_name}

abbrev pub Printable : ℕ → Type 0
Printable c = is_control c ≡ false

length-utf8_char : (c : ℕ) → length (utf8_char c) ≡ len_utf8 c
unfolding utf8_char len_utf8
length-utf8_char c = ground arith

length-utf8_append : (xs ys : Text) → length (utf8 (xs ++ ys)) ≡ length (utf8 xs) + length (utf8 ys)
unfolding utf8
length-utf8_append [] ys = omega arith
length-utf8_append (x ∷ xs) ys = omega (
  arith,
  length-append (utf8_char x) (utf8 (xs ++ ys)),
  length-append (utf8_char x) (utf8 xs),
  length-utf8_append xs ys,
)

module _ (P : ℕ → Type 0) where
  trim_start-All : (cs : Text) → All P cs → All P (trim_start cs)
  unfolding trim_start
  trim_start-All [] h = tt
  trim_start-All (c ∷ cs) h = elim (Bool-cases (is_whitespace c)) [
    | inl p ↦ rw p (trim_start-All cs h.1)
    | inr p ↦ rw p h
  ]

  trim_end-All : (cs : Text) → All P cs → All P (trim_end cs)
  unfolding trim_end
  trim_end-All [] h = tt
  trim_end-All (c ∷ cs) h = elim (Bool-cases (is_whitespace c && is_empty (trim_end cs))) [
    | inl p ↦ rw p tt
    | inr p ↦ rw p (h.0, trim_end-All cs h.1)
  ]

trim_start-le : (cs : Text) → length (utf8 (trim_start cs)) ≤ length (utf8 cs)
unfolding trim_start utf8
trim_start-le [] = omega arith
trim_start-le (c ∷ cs) = elim (Bool-cases (is_whitespace c)) [
  | inl p ↦ rw p (omega (arith, trim_start-le cs, length-append (utf8_char c) (utf8 cs)))
  | inr p ↦ rw p (omega arith)
]

trim_end-le : (cs : Text) → length (utf8 (trim_end cs)) ≤ length (utf8 cs)
unfolding trim_end utf8
trim_end-le [] = omega arith
trim_end-le (c ∷ cs) = elim (Bool-cases (is_whitespace c && is_empty (trim_end cs))) [
  | inl p ↦ rw p (omega arith)
  | inr p ↦ rw p (
      omega (
        arith,
        trim_end-le cs,
        length-append (utf8_char c) (utf8 cs),
        length-append (utf8_char c) (utf8 (trim_end cs)),
      ))
]

length-utf8_one : (c : ℕ) → length (utf8 (c ∷ [])) ≡ len_utf8 c
unfolding utf8
length-utf8_one c = ap length (append-nil (utf8_char c)) ∙ length-utf8_char c

cleaned_Printable : (r : ℕ) → Printable (if is_control r then 0x20 else r)
cleaned_Printable r = elim (Bool-cases (is_control r)) [
  | inl p ↦ rw p (unfold is_control in refl)
  | inr p ↦ rw p p
]

keep_chars-fits :
    (out raw : Text)
    → length (utf8 out) ≤ max_name
    → All Printable out
    → (length (utf8 (keep_chars out raw)) ≤ max_name) × All Printable (keep_chars out raw)
unfolding keep_chars
keep_chars-fits out [] h p = (h, p)
keep_chars-fits out (r ∷ raw) h p =
    let c = if is_control r then 0x20 else r in
    elim (Bool-cases (ltb max_name (length (utf8 out) + len_utf8 c))) [
      | inl q ↦ rw q (h, p)
      | inr q ↦ rw q (
          keep_chars-fits (out ++ c ∷ []) raw
            (omega (
              arith,
              length-utf8_append out (c ∷ []),
              length-utf8_one c,
              ltb_false→le max_name (length (utf8 out) + len_utf8 c) q,
            ))
            (All-append Printable out (c ∷ []) p (cleaned_Printable r, tt)))
    ]

computer_fits : (length (utf8 (codes "Computer")) ≤ max_name) × All Printable (codes "Computer")
unfolding utf8 utf8_char is_control
computer_fits = (omega arith, (refl, (refl, (refl, (refl, (refl, (refl, (refl, (refl, tt)))))))))

-- The name sent to the board is never empty, fits its 32 bytes, and holds no control character.
pub clean_name_fits :
    (raw : Text)
    → (is_empty (clean_name raw) ≡ false)
      × (length (utf8 (clean_name raw)) ≤ max_name)
      × All Printable (clean_name raw)
unfolding clean_name
clean_name_fits raw =
    let kept = keep_chars [] raw in
    let (fits, printable) = keep_chars-fits [] raw (unfold utf8 in (omega arith)) tt in
    elim (Bool-cases (is_empty (trim kept))) [
      | inl p ↦ rw p (refl, computer_fits.0, computer_fits.1)
      | inr p ↦ rw p (
        p,
        unfold trim in (omega (arith, trim_end-le (trim_start kept), trim_start-le kept)),
        unfold trim in
            (trim_end-All Printable (trim_start kept) (trim_start-All Printable kept printable)),
      )
    ]
