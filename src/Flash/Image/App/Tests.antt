-- ===== src/Flash/Image/App/Tests.antt =====
-- The crate's test images, with a stand-in digest, and the theorems at them.
use hid_fi.Common.{
  ◌%◌, ℕ, ◌+◌, ◌≤◌, ◌<◌, ◌≡◌, refl, true, false, some, List, [], ◌∷◌, ◌++◌, replicate, length, take,
  drop, get_or,
}
use hid_fi.Common.Bytes.{to_le_bytes, from_le_bytes}
use hid_fi.Common.Text.{codes, eq, from_utf8_lossy}
use hid_fi.Flash.Image.App.{
  ImageId, id_window, from_tag, graphic_prefix, identify, segments_end, pad_to_16, hash_ok,
  image_is_valid,
}
use hid_fi.Flash.Image.App.Checked.{Segments, image_is_valid-hashed}

-- A header with one segment and an appended digest.
abbrev header : List ℕ
header = 0xE9 ∷ 1 ∷ (replicate 10 0 ++ 9 ∷ (replicate 10 0 ++ 1 ∷ []))

-- A digest that is told by the number of bytes alone.
abbrev sha256_of : List ℕ → List ℕ
sha256_of bytes = replicate 32 (length bytes)

abbrev tiny_image : List ℕ
tiny_image =
    header
    ++ (to_le_bytes 4 0x3C00_0000
        ++ (to_le_bytes 4 16
            ++ (codes "hid_fi_v4.1.0" ++ (replicate 3 0 ++ (replicate 16 0 ++ replicate 32 64)))))

tiny_image_is_valid : image_is_valid sha256_of tiny_image ≡ true
unfolding image_is_valid hash_ok segments_end pad_to_16 eq to_le_bytes from_le_bytes
tiny_image_is_valid = refl

erased_is_not_valid : image_is_valid sha256_of (replicate 128 0xFF) ≡ false
unfolding image_is_valid
erased_is_not_valid = refl

abbrev tiny_id : ImageId
tiny_id = record { chip_id = 9; hidfi_version = some (codes "hid_fi_v4.1.0") }

tiny_image_is_ours : identify tiny_image ≡ some tiny_id
unfolding identify from_tag graphic_prefix from_utf8_lossy from_le_bytes to_le_bytes eq id_window
tiny_image_is_ours = refl

image_is_valid-hashed_example :
    (e pos : ℕ) × Segments tiny_image (get_or tiny_image 1 0) 24 e
    × ((pos % 16 ≡ 0) × (e < pos) × (pos ≤ e + 16))
    × (pos + 32 ≤ length tiny_image)
    × (sha256_of (take pos tiny_image) ≡ take 32 (drop pos tiny_image))
image_is_valid-hashed_example = image_is_valid-hashed sha256_of tiny_image tiny_image_is_valid refl
