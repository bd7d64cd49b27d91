-- ===== src/Flash/Image/App/Checked.antt =====
-- What an accepted image and an identified version are.
use hid_fi.Common.{
  ℕ, zero, suc, ◌+◌, ◌≤◌, ◌<◌, ◌≡◌, refl, sym, ap, ◌∙◌, true, not, ◌||◌, Option, none, some, List,
  [], ◌∷◌, ◌++◌, arith, ◌==◌, length, take, drop, get_or, min, All, take-append-drop, Bool-cases,
  inl, inr, ltb, ◌%◌,
}
use mathlib.Core.Path.{subst}
use hid_fi.Common.Bytes.{from_le_bytes}
use hid_fi.Common.Text.{Text, eq, eq_sound, from_utf8_lossy, from_utf8_lossy-ascii}
use hid_fi.Flash.Image.App.{
  is_ascii_graphic, ImageId, tag, from_tag, graphic_prefix, version_of, identify, id_window,
  segments_end, pad_to_16, hash_ok, image_is_valid,
}

-- The length that a segment's header states.
abbrev pub stated : List ℕ → ℕ → ℕ
stated img pos = from_le_bytes (take 4 (drop (pos + 4) img))

-- Segments that follow one another from a place on, each inside the image, up to another place.
pub data Segments (img : List ℕ) : ℕ → ℕ → ℕ → Type 0 where
  no_more : (pos : ℕ) → Segments img 0 pos pos
  segment :
      (n pos e : ℕ)
      → pos + (8 + stated img pos) ≤ length img
      → Segments img n (pos + (8 + stated img pos)) e
      → Segments img (suc n) pos e

segments_end-Segments :
    (img : List ℕ) (n pos e : ℕ) → segments_end img n pos ≡ some e → Segments img n pos e
unfolding segments_end
segments_end-Segments img zero pos e h =
    let is : pos ≡ e = cc in subst (Segments img 0 pos) is (no_more pos)
segments_end-Segments img (suc n) pos e h =
    let next = pos + (8 + stated img pos) in
    elim (Bool-cases (ltb (length img) (pos + 8))) [
      | inl p ↦ cc (rw p at h)
      | inr p ↦ elim (Bool-cases (ltb (length img) next)) [
        | inl q ↦ cc (rw (p, q) at h)
        | inr q ↦
            segment n pos e (ground arith) (segments_end-Segments img n next e (rw (p, q) at h))
      ]
    ]

pad_to_16-next : (e : ℕ) → (pad_to_16 e % 16 ≡ 0) × (e < pad_to_16 e) × (pad_to_16 e ≤ e + 16)
unfolding pad_to_16
pad_to_16-next e = (omega arith, omega arith, omega arith)

module _ (sha256 : List ℕ → List ℕ) (img : List ℕ) where
  hash_ok_sound :
      (o : Option ℕ)
      → hash_ok sha256 img o ≡ true
      → get_or img 23 0 ≡ 1
      → (e : ℕ) × (o ≡ some e)
        × (pad_to_16 e + 32 ≤ length img)
        × (sha256 (take (pad_to_16 e) img) ≡ take 32 (drop (pad_to_16 e) img))
  unfolding hash_ok
  hash_ok_sound none h one = cc
  hash_ok_sound (some e) h one =
      let digest = sha256 (take (pad_to_16 e) img) in
      let stored = take 32 (drop (pad_to_16 e) img) in
      (e, refl, ground arith, eq_sound digest stored (ground arith))

  -- An image accepted with its hash appended has as many segments as it says, one behind the other
  -- and inside the image, and at the next multiple of 16 behind the byte after them, inside the
  -- image, the SHA-256 of everything before it.
  pub image_is_valid-hashed :
      image_is_valid sha256 img ≡ true
      → get_or img 23 0 ≡ 1
      → (e pos : ℕ) × Segments img (get_or img 1 0) 24 e
        × ((pos % 16 ≡ 0) × (e < pos) × (pos ≤ e + 16))
        × (pos + 32 ≤ length img)
        × (sha256 (take pos img) ≡ take 32 (drop pos img))
  unfolding image_is_valid
  image_is_valid-hashed h one =
      let (e, ends, fits, hashed) =
        hash_ok_sound (segments_end img (get_or img 1 0) 24) (ground arith) one in
      (
        e,
        pad_to_16 e,
        segments_end-Segments img (get_or img 1 0) 24 e ends,
        pad_to_16-next e,
        fits,
        hashed,
      )

graphic_prefix-prefix : (bs : List ℕ) → (rest : List ℕ) × (bs ≡ graphic_prefix bs ++ rest)
unfolding graphic_prefix
graphic_prefix-prefix [] = ([], refl)
graphic_prefix-prefix (b ∷ bs) =
    let (rest, e) = graphic_prefix-prefix bs in
    elim (Bool-cases (b == 0 || not (is_ascii_graphic b))) [
      | inl p ↦ (b ∷ bs, rw p)
      | inr p ↦ (rest, rw p (ap (λ t. b ∷ t) e))
    ]

graphic_prefix-ascii : (bs : List ℕ) → All (λ b. b < 0x80) (graphic_prefix bs)
unfolding graphic_prefix
graphic_prefix-ascii [] = tt
graphic_prefix-ascii (b ∷ bs) = ground (arith, graphic_prefix-ascii bs)

from_tag-found :
    (bs rest : List ℕ)
    → from_tag bs ≡ some rest
    → (before : List ℕ) × (bs ≡ before ++ rest) × (take 8 rest ≡ tag)
unfolding from_tag
from_tag-found [] rest h = cc
from_tag-found (b ∷ bs) rest h = elim (Bool-cases (eq (take 8 (b ∷ bs)) tag)) [
  | inl p ↦
      let e : some (b ∷ bs) ≡ some rest = rw p at h in
      let is : b ∷ bs ≡ rest = cc in
      ([], is, ap (take 8) (sym is) ∙ eq_sound (take 8 (b ∷ bs)) tag p)
  | inr p ↦
      let (before, e, t) = from_tag-found bs rest (rw p at h) in (b ∷ before, ap (λ s. b ∷ s) e, t)
]

graphic_prefix-tag : (bs : List ℕ) → take 8 bs ≡ tag → take 8 (graphic_prefix bs) ≡ tag
unfolding graphic_prefix
graphic_prefix-tag bs h =
    let e : bs ≡ tag ++ drop 8 bs = sym (take-append-drop 8 bs) ∙ ap (λ t. t ++ drop 8 bs) h in
    ap (λ t. take 8 (graphic_prefix t)) e

-- A version that was read from the window.
version_of-found :
    (o : Option (List ℕ)) (v : Text)
    → version_of o ≡ some v
    → (rest : List ℕ) × (o ≡ some rest) × (v ≡ graphic_prefix rest)
version_of-found none v h = cc
version_of-found (some rest) v h = (
  rest,
  refl,
  let e : from_utf8_lossy (graphic_prefix rest) ≡ v = cc in
      sym e ∙ from_utf8_lossy-ascii (graphic_prefix rest) (graphic_prefix-ascii rest),
)

identify-parts :
    (head : List ℕ) (i : ImageId)
    → identify head ≡ some i
    → i.hidfi_version ≡ version_of (from_tag (take (min (length head) id_window) head))
unfolding identify
identify-parts head i h = ground arith

-- A version that is read stands, in the window of the image's first bytes, as a run of printable
-- characters that starts with the product's tag.
pub identify-version :
    (head : List ℕ) (i : ImageId) (v : Text)
    → identify head ≡ some i
    → i.hidfi_version ≡ some v
    → (before after : List ℕ) × (take (min (length head) id_window) head ≡ before ++ (v ++ after))
      × (take 8 v ≡ tag)
      × All (λ b. b < 0x80) v
identify-version head i v h hv =
    let window = take (min (length head) id_window) head in
    let (rest, found, is) =
      version_of-found (from_tag window) v (sym (identify-parts head i h) ∙ hv) in
    let (before, at_tag, tagged) = from_tag-found window rest found in
    let (after, split) = graphic_prefix-prefix rest in
    (
      before,
      after,
      at_tag ∙ ap (λ t. before ++ t) (split ∙ ap (λ t. t ++ after) (sym is)),
      ap (take 8) is ∙ graphic_prefix-tag rest tagged,
      rw is (graphic_prefix-ascii rest),
    )
