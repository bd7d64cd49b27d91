-- ===== src/Core/Pairing/Code.antt =====
-- The six-digit code.
use hid_fi.Common.{
  ℕ, ◌-◌, ◌%◌, ◌≡◌, ◌∙◌, List, arith, All, All-append, length, replicate, length-append,
  length-replicate,
}
use hid_fi.Common.Text.{show_nat, read_from}
use hid_fi.Common.Decimal.{
  IsDigit, show_nat-IsDigit, read_from-show_nat, length-show_nat, read_from-zeros, zeros-IsDigit,
}
use hid_fi.Core.Crates.{Crypto}
use hid_fi.Core.Pairing.{format_code, sas}

-- A code is shown as exactly six digits that spell it modulo one million.
pub format_code_digits :
    (code : ℕ)
    → (length (format_code code) ≡ 6)
      × All IsDigit (format_code code)
      × (read_from 0 (format_code code) ≡ code % 1_000_000)
unfolding format_code
format_code_digits code =
    let digits = show_nat (code % 1_000_000) in
    let zeros = 6 - length digits in
    (
      omega (
        arith,
        length-append (replicate zeros 0x30) digits,
        length-replicate {A = ℕ} zeros 0x30,
        length-show_nat (code % 1_000_000) 5 (omega arith),
      ),
      All-append IsDigit (replicate zeros 0x30) digits (zeros-IsDigit zeros)
          (show_nat-IsDigit (code % 1_000_000)),
      read_from-zeros zeros digits ∙ read_from-show_nat (code % 1_000_000),
    )

-- The code that the two sides compare is what the digits on the screen spell.
pub format_code-sas :
    (c : Crypto) (a_pub b_pub n_a n_b : List ℕ)
    → read_from 0 (format_code (sas c a_pub b_pub n_a n_b)) ≡ sas c a_pub b_pub n_a n_b
unfolding sas
format_code-sas c a_pub b_pub n_a n_b =
    (format_code_digits (sas c a_pub b_pub n_a n_b)).2 ∙ omega arith
