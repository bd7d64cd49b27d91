-- ===== src/Core/Ota/Versions.antt =====
-- Versions: `parse_version` and `plain_version` of ota.rs.
use hid_fi.Common.{
  ℕ, Bool, not, ◌&&◌, ◌||◌, Option, none, some, ◌>>=◌, List, [], ◌∷◌, ◌==◌, ltb, if◌then◌else◌,
  length, all,
}
use hid_fi.Common.Text.{Text, is_empty, is_ascii_digit, read_from, utf8}

pub record Version : Type 0 where
  pub major : ℕ
  pub minor : ℕ
  pub patch : ℕ

-- `a > b` on the tuples.
unfoldable pub later : Version → Version → Bool
later a b =
    ltb b.major a.major
    || a.major == b.major && (ltb b.minor a.minor || a.minor == b.minor && ltb b.patch a.patch)

abbrev pub or_else : Option Text → Option Text → Option Text
or_else none o = o
or_else (some t) o = some t

abbrev pub after_mark : ℕ → Text → Option Text
after_mark c [] = none
after_mark c (d ∷ ds) = if c == b'_' && d == b'v' then some ds else none

-- `rsplit_once("_v")`, its second part.
unfoldable pub after_last : Text → Option Text
after_last [] = none
after_last (c ∷ cs) = or_else (after_last cs) (after_mark c cs)

abbrev pub unwrap_or : Option Text → Text → Text
unwrap_or none t = t
unwrap_or (some t) s = t

unfoldable pub strip_v : Text → Text
strip_v [] = []
strip_v (c ∷ cs) = if c == b'v' || c == b'V' then cs else c ∷ cs

-- `split(['-', '+']).next()`.
unfoldable pub core_of : Text → Text
core_of [] = []
core_of (c ∷ cs) = let rest = core_of cs in if c == b'-' || c == b'+' then [] else c ∷ rest

abbrev pub cons_first : ℕ → List Text → List Text
cons_first c [] = (c ∷ []) ∷ []
cons_first c (p ∷ ps) = (c ∷ p) ∷ ps

-- `split('.')`.
unfoldable pub split_dots : Text → List Text
split_dots [] = [] ∷ []
split_dots (c ∷ cs) = let rest = split_dots cs in if c == b'.' then [] ∷ rest else cons_first c rest

unfoldable pub number : Text → Option ℕ
number p =
    if is_empty p || ltb 6 (length (utf8 p)) || not (all is_ascii_digit (utf8 p))
    then none
    else some (read_from 0 p)

unfoldable pub version_of : List Text → Option Version
unfolding number
version_of (a ∷ b ∷ []) = do
  major ← number a
  minor ← number b
  some (record { major = major; minor = minor; patch = 0 })
version_of (a ∷ b ∷ c ∷ []) = do
  major ← number a
  minor ← number b
  patch ← number c
  some (record { major = major; minor = minor; patch = patch })
version_of _ = none

unfoldable pub parse_version : Text → Option Version
unfolding after_last strip_v core_of split_dots version_of
parse_version s = version_of (split_dots (core_of (strip_v (unwrap_or (after_last s) s))))

unfoldable pub plain_version : Text → Option Version
unfolding parse_version
plain_version s =
    if is_empty s || not (all (λ b. is_ascii_digit b || b == b'.') (utf8 s))
    then none
    else parse_version s
