-- ===== src/Flash/Slip/Escape.antt =====
-- What `encode` writes between its two END bytes, and an independent reading of it.
use hid_fi.Common.{
  ℕ, ◌≡◌, ◌≢◌, ap, Bool, true, false, Option, none, some, List, [], ◌∷◌, ◌++◌, arith, ◌==◌,
  if◌then◌else◌, Bool-cases, Option-cases, sym, ◌∙◌, append-nil, All, All-append, inl, inr, ◌>>=◌,
}
use hid_fi.Flash.Slip.{end, esc, esc_end, esc_esc, encode_byte, escape}

abbrev pub NotEnd : ℕ → Type 0
NotEnd b = b ≢ end

encode_byte-NotEnd : (b : ℕ) → All NotEnd (encode_byte b)
unfolding encode_byte
encode_byte-NotEnd b = elim (Bool-cases (b == end)) [
  | inl e ↦ rw e (omega arith)
  | inr n ↦ rw n (elim (Bool-cases (b == esc)) [
    | inl e ↦ rw e (omega arith)
    | inr m ↦ rw m ((λ e. ground arith), tt)
  ])
]

-- No byte between the two marks of an encoded frame is the mark itself.
pub escape-NotEnd : (frame : List ℕ) → All NotEnd (escape frame)
unfolding escape
escape-NotEnd [] = tt
escape-NotEnd (b ∷ bs) =
    All-append NotEnd (encode_byte b) (escape bs) (encode_byte-NotEnd b) (escape-NotEnd bs)

-- What a receiver makes of the bytes between two marks, `pending` when an ESC has just come:
-- `none` when an ESC stands before a byte that it cannot stand before.
unfoldable pub unescape : Bool → List ℕ → Option (List ℕ)
unescape pending [] = some []
unescape true (b ∷ bs) =
    if b == esc_end
    then (do r ← unescape false bs; some (end ∷ r))
    else if b == esc_esc
    then (do r ← unescape false bs; some (esc ∷ r))
    else none
unescape false (b ∷ bs) =
    let escaped = unescape true bs in
    let plain = unescape false bs in if b == esc then escaped else (do r ← plain; some (b ∷ r))

-- Reading undoes escaping, whatever follows.
pub unescape-escape :
    (frame rest : List ℕ)
    → unescape false (escape frame ++ rest) ≡ (do r ← unescape false rest; some (frame ++ r))
unfolding escape encode_byte unescape
unescape-escape [] rest = elim (Option-cases (unescape false rest)) [
  | inl e ↦ rw e
  | inr (r, e) ↦ rw e
]
unescape-escape (b ∷ bs) rest = ground (arith, unescape-escape bs rest)

pub unescape-escape_self : (frame : List ℕ) → unescape false (escape frame) ≡ some frame
unfolding unescape
unescape-escape_self frame =
    ap (unescape false) (sym (append-nil (escape frame)))
    ∙ unescape-escape frame []
    ∙ ap some (append-nil frame)
