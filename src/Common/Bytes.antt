-- ===== src/Common/Bytes.antt =====
-- Little-endian words as byte lists, and slices that may be out of range: the standard library's
-- `to_le_bytes`, `from_le_bytes` and `get(a..b)`.
use Prim.Native.Nat.{ℕ, zero, suc, ◌+◌, ◌-◌, ◌*◌, ◌/◌, ◌%◌, ◌^◌, ◌≤◌, ◌<◌}
use mathlib.Core.Path.{◌≡◌, refl, ap, ap₂, ◌∙◌}
use mathlib.Core.Bool.{◌&&◌}
use mathlib.Core.List.{List, [], ◌∷◌, ◌++◌}
use mathlib.Core.Option.{Option, none, some}
use native.Mathlib.Omega.{arith}
use native.Mathlib.Nat.{pow-suc}
use hid_fi.Common.Tests.{leb, if◌then◌else◌}
use hid_fi.Common.Lists.{
  length, take, drop, All, length-append, length-take, length-drop, drop-append, take-append,
}

abbrev pub IsByte : ℕ → Type 0
IsByte b = b < 256

-- The `w` low bytes of `n`, lowest first.
unfoldable pub to_le_bytes : ℕ → ℕ → List ℕ
to_le_bytes zero n = []
to_le_bytes (suc w) n = n % 256 ∷ to_le_bytes w (n / 256)

unfoldable pub from_le_bytes : List ℕ → ℕ
from_le_bytes [] = 0
from_le_bytes (b ∷ bs) = b + 256 * from_le_bytes bs

-- `xs.get(a..b)`: none when the range leaves the slice (or is reversed).
unfoldable pub slice? : {A : Type 0} → List A → ℕ → ℕ → Option (List A)
slice? xs a b = if leb a b && leb b (length xs) then some (take (b - a) (drop a xs)) else none

pub length-to_le_bytes : (w n : ℕ) → length (to_le_bytes w n) ≡ w
unfolding to_le_bytes
length-to_le_bytes zero n = refl
length-to_le_bytes (suc w) n = ap suc (length-to_le_bytes w (n / 256))

pub to_le_bytes-IsByte : (w n : ℕ) → All IsByte (to_le_bytes w n)
unfolding to_le_bytes
to_le_bytes-IsByte zero n = tt
to_le_bytes-IsByte (suc w) n = (omega arith, to_le_bytes-IsByte w (n / 256))

-- Writing a word and reading it back keeps what fits its width.
pub from_le_bytes-to_le_bytes : (w n : ℕ) → n < 256 ^ w → from_le_bytes (to_le_bytes w n) ≡ n
unfolding to_le_bytes from_le_bytes
from_le_bytes-to_le_bytes zero n h = omega arith
from_le_bytes-to_le_bytes (suc w) n h =
    omega (arith, from_le_bytes-to_le_bytes w (n / 256) (omega (arith, pow-suc 256 w)))

pub from_le_bytes-lt : (bs : List ℕ) → All IsByte bs → from_le_bytes bs < 256 ^ length bs
unfolding from_le_bytes
from_le_bytes-lt [] h = omega arith
from_le_bytes-lt (b ∷ bs) h = omega (arith, from_le_bytes-lt bs h.1, pow-suc 256 (length bs))

add_sub_self : (m n : ℕ) → m + n - m ≡ n
add_sub_self m n = omega arith

pub slice?_append :
    {A : Type 0} (xs ys zs : List A) (a b : ℕ)
    → a ≡ length xs
    → b ≡ length xs + length ys
    → slice? (xs ++ (ys ++ zs)) a b ≡ some ys
unfolding slice?
slice?_append xs ys zs a b ha hb =
    rw (ha, hb)
      (ground (
        arith,
        length-append xs (ys ++ zs),
        length-append ys zs,
        drop-append xs (ys ++ zs),
        take-append ys zs,
        add_sub_self (length xs) (length ys),
      ))

pub slice?_eq_some :
    {A : Type 0} (xs ys : List A) (a b : ℕ)
    → slice? xs a b ≡ some ys
    → (a + length ys ≡ b) × (b ≤ length xs) × (ys ≡ take (b - a) (drop a xs))
unfolding slice?
slice?_eq_some xs ys a b h = ground (arith, length-take (b - a) (drop a xs), length-drop a xs)

-- Reading a word and writing it again gives the same bytes.
pub to_le_bytes-from_le_bytes :
    (bs : List ℕ) → All IsByte bs → to_le_bytes (length bs) (from_le_bytes bs) ≡ bs
unfolding to_le_bytes from_le_bytes
to_le_bytes-from_le_bytes [] h = refl
to_le_bytes-from_le_bytes (b ∷ bs) h =
    ap₂ ◌∷◌ (omega arith)
      (ap (to_le_bytes (length bs)) (omega arith) ∙ to_le_bytes-from_le_bytes bs h.1)
