-- ===== src/Common/Text.antt =====
-- Text as its list of characters (Unicode scalar values), and what the program uses of the
-- standard library's `str`, `char` and byte strings.
use Prim.Native.Char.{code}
use Prim.Native.String.{String}
use Prim.Native.Nat.{ℕ, zero, suc, ◌+◌, ◌-◌, ◌*◌, ◌/◌, ◌%◌, ◌<◌}
use mathlib.Core.Path.{◌≡◌, refl, ap}
use mathlib.Core.Bool.{Bool, true, false, ◌&&◌, ◌||◌}
use mathlib.Core.List.{List, [], ◌∷◌, ◌++◌}
use mathlib.Core.Option.{Option, none, some}
use native.Mathlib.Omega.{arith}
use hid_fi.Common.Tests.{lt→ltb, leb, ltb, ◌==◌, if◌then◌else◌}
use hid_fi.Common.Lists.{All, length, replicate}

abbrev pub Text : Type 0
Text = List ℕ

-- A text literal.
abbrev pub codes : String → Text
codes String.[] = []
codes (String.◌∷◌ c s) = code c ∷ codes s

abbrev pub is_empty {ℓ} : {A : Type ℓ} → List A → Bool
is_empty [] = true
is_empty (x ∷ xs) = false

-- `==` of texts and of byte strings.
unfoldable pub eq : List ℕ → List ℕ → Bool
eq [] [] = true
eq (x ∷ xs) (y ∷ ys) = x == y && eq xs ys
eq _ _ = false

pub eq_sound : (xs ys : List ℕ) → eq xs ys ≡ true → xs ≡ ys
unfolding eq
eq_sound [] [] h = refl
eq_sound [] (y ∷ ys) h = cc
eq_sound (x ∷ xs) [] h = cc
eq_sound (x ∷ xs) (y ∷ ys) h = ground (arith, eq_sound xs ys)

pub eq_refl : (xs : List ℕ) → eq xs xs ≡ true
unfolding eq
eq_refl [] = refl
eq_refl (x ∷ xs) = ground (arith, eq_refl xs)

pub eq-false : (xs ys : List ℕ) → eq xs ys ≡ false → ¬ (xs ≡ ys)
eq-false xs ys h e = cc (ap (eq xs) e, eq_refl xs)

-- `s.as_deref() == Some(t)`.
unfoldable pub is_some_text : Option Text → Text → Bool
unfolding eq
is_some_text none t = false
is_some_text (some s) t = eq s t

pub is_some_text_sound : (o : Option Text) (t : Text) → is_some_text o t ≡ true → o ≡ some t
unfolding is_some_text
is_some_text_sound none t h = cc
is_some_text_sound (some s) t h = ap some (eq_sound s t h)

-- `char::len_utf8` and the encoding.
unfoldable pub len_utf8 : ℕ → ℕ
len_utf8 c = if ltb c 0x80 then 1 else if ltb c 0x800 then 2 else if ltb c 0x10000 then 3 else 4

unfoldable pub utf8_char : ℕ → List ℕ
utf8_char c =
    if ltb c 0x80
    then c ∷ []
    else if ltb c 0x800
    then (0xC0 + c / 0x40) ∷ (0x80 + c % 0x40) ∷ []
    else if ltb c 0x10000
    then (0xE0 + c / 0x1000) ∷ (0x80 + c / 0x40 % 0x40) ∷ (0x80 + c % 0x40) ∷ []
    else (0xF0 + c / 0x40000)
      ∷ (0x80 + c / 0x1000 % 0x40)
      ∷ (0x80 + c / 0x40 % 0x40)
      ∷ (0x80 + c % 0x40)
      ∷ []

-- `as_bytes`.
unfoldable pub utf8 : Text → List ℕ
utf8 [] = []
utf8 (c ∷ cs) = utf8_char c ++ utf8 cs

abbrev pub in_range : ℕ → ℕ → ℕ → Bool
in_range lo hi b = leb lo b && leb b hi

abbrev pub replacement : ℕ
replacement = 0xFFFD

-- Where the decoder of `from_utf8_lossy` stands: how many continuation bytes the character still
-- needs, the range of the next one, and the bits read so far.
record Partial : Type 0 where
  need : ℕ
  lo : ℕ
  hi : ℕ
  bits : ℕ

abbrev idle : Partial
idle = record { need = 0; lo = 0; hi = 0; bits = 0 }

abbrev awaiting : ℕ → ℕ → ℕ → ℕ → Text × Partial
awaiting n lo hi bits = ([], record { need = n; lo = lo; hi = hi; bits = bits })

-- A byte where a character may begin.
lead : ℕ → Text × Partial
lead b =
    if ltb b 0x80
    then (b ∷ [], idle)
    else if in_range 0xC2 0xDF b
    then awaiting 1 0x80 0xBF (b - 0xC0)
    else if b == 0xE0
    then awaiting 2 0xA0 0xBF 0
    else if b == 0xED
    then awaiting 2 0x80 0x9F 0xD
    else if in_range 0xE1 0xEF b
    then awaiting 2 0x80 0xBF (b - 0xE0)
    else if b == 0xF0
    then awaiting 3 0x90 0xBF 0
    else if in_range 0xF1 0xF3 b
    then awaiting 3 0x80 0xBF (b - 0xF0)
    else if b == 0xF4
    then awaiting 3 0x80 0x8F 4
    else (replacement ∷ [], idle)

abbrev after_replacement : Text × Partial → Text × Partial
after_replacement (t, p) = (replacement ∷ t, p)

-- A byte that does not fit ends the character as U+FFFD, and is read again as a first byte.
decode_byte : Partial → ℕ → Text × Partial
unfolding lead
decode_byte p b =
    if p.need == 0
    then lead b
    else if in_range p.lo p.hi b
    then if p.need == 1
      then ((p.bits * 64 + (b - 0x80)) ∷ [], idle)
      else awaiting (p.need - 1) 0x80 0xBF (p.bits * 64 + (b - 0x80))
    else after_replacement (lead b)

decode : Partial → List ℕ → Text
unfolding decode_byte
decode p [] = if p.need == 0 then [] else replacement ∷ []
decode p (b ∷ bs) = let (t, q) = decode_byte p b in t ++ decode q bs

unfoldable pub from_utf8_lossy : List ℕ → Text
unfolding decode
from_utf8_lossy bytes = decode idle bytes

-- ASCII bytes are their own characters.
pub from_utf8_lossy-ascii :
    (bytes : List ℕ) → All (λ b. b < 0x80) bytes → from_utf8_lossy bytes ≡ bytes
unfolding from_utf8_lossy
from_utf8_lossy-ascii [] h = refl
from_utf8_lossy-ascii (b ∷ bs) h =
    rw (lt→ltb b 0x80 h.0) (ap (λ t. b ∷ t) (from_utf8_lossy-ascii bs h.1))

-- Decoding a text's own bytes, at one character of each width.
from_utf8_lossy_widths :
    from_utf8_lossy (utf8 (0x61 ∷ 0xE9 ∷ 0x20AC ∷ 0x1F600 ∷ []))
    ≡ 0x61 ∷ 0xE9 ∷ 0x20AC ∷ 0x1F600 ∷ []
unfolding from_utf8_lossy utf8 utf8_char
from_utf8_lossy_widths = refl

from_utf8_lossy_invalid :
    from_utf8_lossy (0xE2 ∷ 0x82 ∷ 0x41 ∷ 0xFF ∷ []) ≡ 0xFFFD ∷ 0x41 ∷ 0xFFFD ∷ []
unfolding from_utf8_lossy
from_utf8_lossy_invalid = refl

-- `trim_end_matches(c)`.
unfoldable pub trim_end_matches : ℕ → Text → Text
trim_end_matches c [] = []
trim_end_matches c (x ∷ xs) =
    let rest = trim_end_matches c xs in if x == c && is_empty rest then [] else x ∷ rest

unfoldable pub is_ascii_digit : ℕ → Bool
is_ascii_digit b = in_range 0x30 0x39 b

-- Decimal digits, most significant first, as `format!("{}")` prints a number. The fuel is the
-- number itself, more than it has digits.
unfoldable pub digits_from : ℕ → ℕ → Text
digits_from zero n = []
digits_from (suc fuel) n =
    let rest = digits_from fuel (n / 10) in
    if ltb n 10 then (0x30 + n) ∷ [] else rest ++ (0x30 + n % 10) ∷ []

unfoldable pub show_nat : ℕ → Text
unfolding digits_from
show_nat n = digits_from (suc n) n

-- `{:0w}`
unfoldable pub zero_padded : ℕ → Text → Text
zero_padded w digits = replicate (w - length digits) 0x30 ++ digits

-- The number that digits spell.
abbrev pub read_from : ℕ → Text → ℕ
read_from acc [] = acc
read_from acc (c ∷ cs) = read_from (acc * 10 + (c - 0x30)) cs

-- `char::is_control` and `char::is_whitespace`.
unfoldable pub is_control : ℕ → Bool
is_control c = ltb c 0x20 || in_range 0x7F 0x9F c

unfoldable pub is_whitespace : ℕ → Bool
is_whitespace c =
    in_range 9 13 c
    || c == 0x20
    || c == 0x85
    || c == 0xA0
    || c == 0x1680
    || in_range 0x2000 0x200A c
    || in_range 0x2028 0x2029 c
    || c == 0x202F
    || c == 0x205F
    || c == 0x3000

unfoldable pub trim_start : Text → Text
trim_start [] = []
trim_start (c ∷ cs) = let rest = trim_start cs in if is_whitespace c then rest else c ∷ cs

unfoldable pub trim_end : Text → Text
trim_end [] = []
trim_end (c ∷ cs) =
    let rest = trim_end cs in if is_whitespace c && is_empty rest then [] else c ∷ rest

unfoldable pub trim : Text → Text
unfolding trim_start trim_end is_whitespace
trim cs = trim_end (trim_start cs)
