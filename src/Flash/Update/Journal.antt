-- ===== src/Flash/Update/Journal.antt =====
-- The journal of a cable update, and the texts it keeps bytes in: update.rs.
use hid_fi.Common.{
  ◌≡◌, refl, ap, ℕ, ◌+◌, ◌/◌, ◌%◌, ◌<◌, arith, false, ◌||◌, Option, none, some, List, [], ◌∷◌, ◌==◌,
  ltb, if◌then◌else◌, All,
}
use hid_fi.Common.Bytes.{IsByte}
use hid_fi.Common.Text.{Text, codes, utf8, utf8_char}
use hid_fi.Flash.Hex.{hex_digit, from_radix_16, is_inside, starts_inside}
use hid_fi.Flash.Update.{Path2}

pub data Step : Type 0 where
  planned preflighted image_written switched table_written restarted cancelled : Step

-- The order of the checkpoints.
unfoldable pub rank : Step → ℕ
rank planned = 0
rank preflighted = 1
rank image_written = 2
rank switched = 3
rank table_written = 4
rank restarted = 5
rank cancelled = 6

-- `{step:?}`
unfoldable pub step_name : Step → Text
step_name planned = codes "Planned"
step_name preflighted = codes "Preflighted"
step_name image_written = codes "ImageWritten"
step_name switched = codes "Switched"
step_name table_written = codes "TableWritten"
step_name restarted = codes "Restarted"
step_name cancelled = codes "Cancelled"

pub record Journal : Type 0 where
  pub mac : Text
  pub to : Text
  pub path : Path2
  pub step : Step
  pub target_slot : ℕ
  pub target_offset : ℕ
  pub image_md5 : Text
  pub image_len : ℕ
  pub original_otadata : Text
  pub original_table : Text
  pub history : List Text

unfoldable pub lower_digit : ℕ → ℕ
lower_digit n = if ltb n 10 then b'0' + n else 87 + n

-- `{x:02x}` of each byte.
unfoldable pub hex : List ℕ → Text
unfolding lower_digit
hex [] = []
hex (b ∷ bs) = lower_digit (b / 16) ∷ lower_digit (b % 16) ∷ hex bs

abbrev pub or_zero : Option ℕ → ℕ
or_zero none = 0
or_zero (some n) = n

abbrev pub cons_some : ℕ → Option (List ℕ) → Option (List ℕ)
cons_some x none = none
cons_some x (some xs) = some (x ∷ xs)

-- `none` is a panic: a slice that would begin or end inside a character.
unfoldable pub unhex_bytes : List ℕ → Option (List ℕ)
unfolding from_radix_16 is_inside starts_inside
unhex_bytes (a ∷ b ∷ rest) =
    let others = unhex_bytes rest in
    if is_inside a || starts_inside rest
    then none
    else cons_some (or_zero (from_radix_16 a b)) others
unhex_bytes _ = some []

unfoldable pub unhex : Text → Option (List ℕ)
unfolding unhex_bytes
unhex s = unhex_bytes (utf8 s)

unfoldable pub upper_digit : ℕ → ℕ
upper_digit n = if ltb n 10 then b'0' + n else 55 + n

-- `{b:02X}`, joined by colons.
unfoldable pub mac_str : List ℕ → Text
unfolding upper_digit
mac_str [] = []
mac_str (b ∷ []) = upper_digit (b / 16) ∷ upper_digit (b % 16) ∷ []
mac_str (b ∷ c ∷ bs) = upper_digit (b / 16) ∷ upper_digit (b % 16) ∷ b':' ∷ mac_str (c ∷ bs)

-- Digits are characters of one byte, none of them the inside of another.
digit_value : (n : ℕ) → n < 16 → hex_digit (lower_digit n) ≡ some n
unfolding hex_digit lower_digit
digit_value n h = ground arith

lower_digit-ascii : (n : ℕ) → n < 16 → lower_digit n < 128
unfolding lower_digit
lower_digit-ascii n h = ground arith

utf8_char-ascii : (c : ℕ) → c < 128 → utf8_char c ≡ c ∷ []
unfolding utf8_char
utf8_char-ascii c h = ground arith

lower_digit-outside : (n : ℕ) → n < 16 → is_inside (lower_digit n) ≡ false
unfolding lower_digit is_inside
lower_digit-outside n h = ground arith

lower_digit-sign : (n : ℕ) → n < 16 → (lower_digit n == b'+') ≡ false
unfolding lower_digit
lower_digit-sign n h = ground arith

pair_value :
    (b : ℕ) → b < 256 → from_radix_16 (lower_digit (b / 16)) (lower_digit (b % 16)) ≡ some b
unfolding from_radix_16
pair_value b h =
    rw
      (
        lower_digit-sign (b / 16) (omega arith),
        digit_value (b / 16) (omega arith),
        digit_value (b % 16) (omega arith),
      )
      (ap some (omega arith))

utf8-hex : (bs : List ℕ) → All IsByte bs → utf8 (hex bs) ≡ hex bs
unfolding utf8 hex
utf8-hex [] h = refl
utf8-hex (b ∷ bs) (h, hs) =
    rw
      (
        utf8_char-ascii (lower_digit (b / 16)) (lower_digit-ascii _ (omega arith)),
        utf8_char-ascii (lower_digit (b % 16)) (lower_digit-ascii _ (omega arith)),
        utf8-hex bs hs,
      )
      refl

starts_inside-hex : (bs : List ℕ) → All IsByte bs → starts_inside (hex bs) ≡ false
unfolding starts_inside hex
starts_inside-hex [] h = refl
starts_inside-hex (b ∷ bs) (h, hs) = lower_digit-outside (b / 16) (omega arith)

unhex_bytes-hex : (bs : List ℕ) → All IsByte bs → unhex_bytes (hex bs) ≡ some bs
unfolding unhex_bytes hex
unhex_bytes-hex [] h = refl
unhex_bytes-hex (b ∷ bs) (h, hs) =
    rw
      (
        lower_digit-outside (b / 16) (omega arith),
        starts_inside-hex bs hs,
        pair_value b h,
        unhex_bytes-hex bs hs,
      )
      refl

-- What the journal keeps as text is read back as it was.
pub unhex-hex : (bs : List ℕ) → All IsByte bs → unhex (hex bs) ≡ some bs
unfolding unhex
unhex-hex bs h = rw (utf8-hex bs h) (unhex_bytes-hex bs h)
