-- ===== src/Flash/Image/App.antt =====
-- App images: image.rs. The digest of the sha2 crate is a parameter.
pub mod Checked
mod Tests
use hid_fi.Common.{
  ℕ, zero, suc, ◌+◌, ◌-◌, ◌*◌, ◌/◌, Bool, true, false, not, ◌&&◌, ◌||◌, Option, none, some, List,
  [], ◌∷◌, ◌==◌, ltb, leb, min, if◌then◌else◌, length, take, drop, get_or, ◌>>=◌,
}
use hid_fi.Common.Bytes.{from_le_bytes}
use hid_fi.Common.Text.{Text, codes, eq, in_range, from_utf8_lossy}

abbrev pub esp32s3_chip_id : ℕ
esp32s3_chip_id = 9

unfoldable pub id_window : ℕ
id_window = 0x1000

pub record ImageId : Type 0 where
  pub chip_id : ℕ
  pub hidfi_version : Option Text

-- b"hid_fi_v"
abbrev pub tag : List ℕ
tag = codes "hid_fi_v"

-- `windows(8).position(|w| w == tag)`, and the window from there on.
unfoldable pub from_tag : List ℕ → Option (List ℕ)
from_tag [] = none
from_tag (b ∷ bs) =
    let rest = from_tag bs in if eq (take 8 (b ∷ bs)) tag then some (b ∷ bs) else rest

abbrev pub is_ascii_graphic : ℕ → Bool
is_ascii_graphic b = in_range 0x21 0x7E b

-- `rest[..end]`, up to the first byte that is 0 or not graphic.
unfoldable pub graphic_prefix : List ℕ → List ℕ
graphic_prefix [] = []
graphic_prefix (b ∷ bs) = if b == 0 || not (is_ascii_graphic b) then [] else b ∷ graphic_prefix bs

abbrev version_of : Option (List ℕ) → Option Text
version_of none = none
version_of (some rest) = some (from_utf8_lossy (graphic_prefix rest))

unfoldable pub identify : List ℕ → Option ImageId
identify head =
    if ltb (length head) 24 || not (get_or head 0 0 == 0xE9)
    then none
    else some (record {
      chip_id = from_le_bytes (take 2 (drop 12 head));
      hidfi_version = version_of (from_tag (take (min (length head) id_window) head));
    })

-- The loop over the segments: the position behind the last, or none where one leaves the image.
unfoldable pub segments_end : List ℕ → ℕ → ℕ → Option ℕ
segments_end img zero pos = some pos
segments_end img (suc n) pos =
    let len = from_le_bytes (take 4 (drop (pos + 4) img)) in
    let rest = segments_end img n (pos + (8 + len)) in
    if ltb (length img) (pos + 8)
    then none
    else if ltb (length img) (pos + (8 + len))
    then none
    else rest

-- `(pos + 16) & !15`
unfoldable pub pad_to_16 : ℕ → ℕ
pad_to_16 pos = (pos + 16) / 16 * 16

module _ (sha256 : List ℕ → List ℕ) where
  unfoldable pub hash_ok : List ℕ → Option ℕ → Bool
  hash_ok img none = false
  hash_ok img (some e) =
      let pos = pad_to_16 e in
      if not (get_or img 23 0 == 1)
      then leb pos (length img)
      else if ltb (length img) (pos + 32)
      then false
      else eq (sha256 (take pos img)) (take 32 (drop pos img))

  unfoldable pub image_is_valid : List ℕ → Bool
  image_is_valid img =
      if ltb (length img) 24 || not (get_or img 0 0 == 0xE9)
      then false
      else hash_ok img (segments_end img (get_or img 1 0) 24)
