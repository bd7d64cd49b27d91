-- ===== src/Flash/Slip.antt =====
-- SLIP framing (RFC 1055): companion/crates/hidfi-flash/src/slip.rs. A `&mut self` method returns
-- the new decoder; `out`, the caller's list of whole frames, is threaded.
pub mod Escape
pub mod Resync
pub mod Frames
mod Tests
use hid_fi.Common.{ℕ, Bool, true, false, List, [], ◌∷◌, ◌++◌, ◌==◌, if◌then◌else◌}

abbrev pub end : ℕ
end = 0xC0

abbrev pub esc : ℕ
esc = 0xDB

abbrev pub esc_end : ℕ
esc_end = 0xDC

abbrev pub esc_esc : ℕ
esc_esc = 0xDD

-- The body of the loop of `encode`.
unfoldable pub encode_byte : ℕ → List ℕ
encode_byte b =
    if b == end then esc ∷ esc_end ∷ [] else if b == esc then esc ∷ esc_esc ∷ [] else b ∷ []

unfoldable pub escape : List ℕ → List ℕ
unfolding encode_byte
escape [] = []
escape (b ∷ bs) = encode_byte b ++ escape bs

unfoldable pub encode : List ℕ → List ℕ
unfolding escape
encode frame = end ∷ (escape frame ++ end ∷ [])

pub record Decoder : Type 0 where
  pub buf : List ℕ
  pub in_esc : Bool  -- `esc`
  pub bad : Bool
  pub started : Bool

-- `Decoder::default()`.
abbrev pub new_decoder : Decoder
new_decoder = record { buf = []; in_esc = false; bad = false; started = false }

abbrev is_empty : List ℕ → Bool
is_empty [] = true
is_empty (x ∷ xs) = false

-- `push` at END: a started, non-empty, well-formed buffer is a frame.
unfoldable pub push_end : Decoder → List (List ℕ) → Decoder × List (List ℕ)
push_end d out = (
  record { buf = []; in_esc = false; bad = false; started = true },
  if d.started
      then (if is_empty d.buf then out else if d.bad then out else out ++ d.buf ∷ [])
      else out,
)

-- `push` at any other byte.
unfoldable pub push_byte : Decoder → ℕ → Decoder
push_byte d byte =
    if d.started
    then if d.in_esc
      then if byte == esc_end
        then record d { in_esc = false; buf = d.buf ++ end ∷ [] }
        else if byte == esc_esc
        then record d { in_esc = false; buf = d.buf ++ esc ∷ [] }
        else record d { in_esc = false; bad = true }
      else if byte == esc
      then record d { in_esc = true }
      else record d { buf = d.buf ++ byte ∷ [] }
    else d

unfoldable pub push : Decoder → ℕ → List (List ℕ) → Decoder × List (List ℕ)
unfolding push_end push_byte
push d byte out = if byte == end then push_end d out else (push_byte d byte, out)

-- `for &b in bytes { dec.push(b, &mut out); }`.
unfoldable pub feed : Decoder → List ℕ → List (List ℕ) → Decoder × List (List ℕ)
feed d [] out = (d, out)
feed d (b ∷ bs) out = let (d', out') = push d b out in feed d' bs out'
