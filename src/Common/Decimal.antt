-- ===== src/Common/Decimal.antt =====
-- Printed decimal numbers: their digits, their length and their value.
use hid_fi.Common.Text.{Text, digits_from, show_nat, read_from}
use Prim.Native.Nat.{ℕ, zero, suc, ◌+◌, ◌-◌, ◌*◌, ◌/◌, ◌%◌, ◌^◌, ◌≤◌, ◌<◌}
use mathlib.Core.Path.{◌≡◌, refl, ◌∙◌}
use mathlib.Core.List.{[], ◌∷◌, ◌++◌}
use mathlib.Core.Logic.{inl, inr}
use native.Mathlib.Omega.{arith}
use native.Mathlib.Nat.{pow-suc}
use hid_fi.Common.Tests.{ltb, Bool-cases, lt→ltb, ltb→lt, ltb_false→le}
use hid_fi.Common.Lists.{length, All, All-append, length-append, replicate}

abbrev pub IsDigit : ℕ → Type 0
IsDigit c = (0x30 ≤ c) × (c < 0x3A)

read_from-append :
    (acc : ℕ) (xs : Text) (c : ℕ)
    → read_from acc (xs ++ c ∷ []) ≡ read_from acc xs * 10 + (c - 0x30)
read_from-append acc [] c = refl
read_from-append acc (x ∷ xs) c = read_from-append (acc * 10 + (x - 0x30)) xs c

digits_from-IsDigit : (fuel n : ℕ) → All IsDigit (digits_from fuel n)
unfolding digits_from
digits_from-IsDigit zero n = tt
digits_from-IsDigit (suc fuel) n = elim (Bool-cases (ltb n 10)) [
  | inl p ↦ rw p ((omega (arith, ltb→lt n 10 p), omega (arith, ltb→lt n 10 p)), tt)
  | inr p ↦ rw p (
      All-append IsDigit (digits_from fuel (n / 10)) ((0x30 + n % 10) ∷ [])
        (digits_from-IsDigit fuel (n / 10)) ((omega arith, omega arith), tt))
]

read_from-digits_from : (fuel n : ℕ) → n < fuel → read_from 0 (digits_from fuel n) ≡ n
unfolding digits_from
read_from-digits_from zero n h = absurd (omega arith)
read_from-digits_from (suc fuel) n h = elim (Bool-cases (ltb n 10)) [
  | inl p ↦ rw p (omega arith)
  | inr p ↦ rw p (
      read_from-append 0 (digits_from fuel (n / 10)) (0x30 + n % 10)
      ∙ omega (arith, read_from-digits_from fuel (n / 10) (omega (arith, ltb_false→le n 10 p))))
]

length-digits_from : (fuel n w : ℕ) → n < 10 ^ suc w → length (digits_from fuel n) ≤ suc w
unfolding digits_from
length-digits_from zero n w h = omega arith
length-digits_from (suc fuel) n zero h = rw (lt→ltb n 10 (omega arith)) (omega arith)
length-digits_from (suc fuel) n (suc w) h = elim (Bool-cases (ltb n 10)) [
  | inl p ↦ rw p (omega arith)
  | inr p ↦ rw p (
      omega (
        arith,
        length-append (digits_from fuel (n / 10)) ((0x30 + n % 10) ∷ []),
        length-digits_from fuel (n / 10) w (omega (arith, pow-suc 10 (suc w))),
      ))
]

pub show_nat-IsDigit : (n : ℕ) → All IsDigit (show_nat n)
unfolding show_nat
show_nat-IsDigit n = digits_from-IsDigit (suc n) n

pub read_from-show_nat : (n : ℕ) → read_from 0 (show_nat n) ≡ n
unfolding show_nat
read_from-show_nat n = read_from-digits_from (suc n) n (omega arith)

pub length-show_nat : (n w : ℕ) → n < 10 ^ suc w → length (show_nat n) ≤ suc w
unfolding show_nat
length-show_nat n w h = length-digits_from (suc n) n w h

pub read_from-zeros : (k : ℕ) (xs : Text) → read_from 0 (replicate k 0x30 ++ xs) ≡ read_from 0 xs
read_from-zeros zero xs = refl
read_from-zeros (suc k) xs = read_from-zeros k xs

pub zeros-IsDigit : (k : ℕ) → All IsDigit (replicate k 0x30)
zeros-IsDigit zero = tt
zeros-IsDigit (suc k) = ((omega arith, omega arith), zeros-IsDigit k)
