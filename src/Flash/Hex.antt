-- ===== src/Flash/Hex.antt =====
-- Two characters of a text as a byte: `u8::from_str_radix(&s[2 * i..2 * i + 2], 16)` of flasher.rs
-- and update.rs, over the bytes of the text. A slice inside a character is a panic.
use hid_fi.Common.{
  ℕ, ◌+◌, ◌*◌, ◌-◌, Bool, false, ◌&&◌, Option, none, some, ◌>>=◌, List, [], ◌∷◌, ◌==◌, leb, ltb,
  if◌then◌else◌,
}

unfoldable pub hex_digit : ℕ → Option ℕ
hex_digit c =
    if leb b'0' c && leb c b'9'
    then some (c - b'0')
    else if leb b'a' c && leb c b'f'
    then some (c - 87)
    else if leb b'A' c && leb c b'F'
    then some (c - 55)
    else none

-- A leading `+` is allowed.
unfoldable pub from_radix_16 : ℕ → ℕ → Option ℕ
unfolding hex_digit
from_radix_16 a b =
    if a == b'+' then hex_digit b else do x ← hex_digit a; y ← hex_digit b; some (16 * x + y)

-- The byte continues a character.
unfoldable pub is_inside : ℕ → Bool
is_inside b = leb 0x80 b && ltb b 0xC0

unfoldable pub starts_inside : List ℕ → Bool
unfolding is_inside
starts_inside [] = false
starts_inside (b ∷ bs) = is_inside b
