-- ===== src/Core/Proto/Tests.antt =====
-- Runs of the names and refusals, and the theorems at concrete replies.
use hid_fi.Common.{
  ℕ, ◌≤◌, ◌≡◌, refl, false, none, some, List, [], ◌∷◌, All, length, if◌then◌else◌, Bool-cases, inl,
  inr, replicate,
}
use hid_fi.Common.Text.{
  codes, eq, eq_sound, utf8, utf8_char, len_utf8, trim, is_empty, is_some_text,
}
use hid_fi.Core.Crates.{Hex}
use hid_fi.Core.Proto.{RawReply, rate_limited, pin_required, Json, max_name, clean_name, refusal_of}
use hid_fi.Core.Proto.Names.{Printable, clean_name_fits}
use hid_fi.Core.Proto.Replies.{DecodesPairs}

names :
    (clean_name (codes " a\tb ") ≡ codes "a b")
    × (clean_name [] ≡ codes "Computer")
    × (clean_name (7 ∷ 8 ∷ []) ≡ codes "Computer")
unfolding clean_name trim utf8 utf8_char len_utf8
names = (refl, refl, refl)

abbrev empty_reply : RawReply
empty_reply = record {
  status = codes "error";
  reply = none;
  message = none;
  state = none;
  b_pub = none;
  n_b = none;
  chal = none;
  retry_ms = none;
  done = none;
}

abbrev slow_down : RawReply
slow_down = record empty_reply { reply = some (codes "rate_limited"); retry_ms = some 999_999 }

refusals :
    (refusal_of (record empty_reply { reply = some (codes "pin_required") }) ≡ pin_required)
    × (refusal_of slow_down ≡ rate_limited 60_000)
unfolding refusal_of is_some_text
refusals = (refl, refl)

-- A reader that finds the same reply in every body.
abbrev json : Json
json = record { to_body = λ r. []; from_body = λ body. some slow_down }

clean_name_fits_example :
    (is_empty (clean_name (codes " a\tb ")) ≡ false)
    × (length (utf8 (clean_name (codes " a\tb "))) ≤ max_name)
    × All Printable (clean_name (codes " a\tb "))
clean_name_fits_example = clean_name_fits (codes " a\tb ")

abbrev key_bytes : List ℕ
key_bytes = replicate 32 0xAA

abbrev nonce_bytes : List ℕ
nonce_bytes = replicate 16 0xCC

-- Hex that knows two texts.
abbrev hex : Hex
hex = record {
  encode = λ bytes. [];
  decode = λ t.
      if eq t (replicate 64 b'a')
      then some key_bytes
      else if eq t (replicate 32 b'c')
      then some nonce_bytes
      else none;
}

hex_law : DecodesPairs hex
unfolding utf8 utf8_char
hex_law t bytes h = elim (Bool-cases (eq t (replicate 64 b'a'))) [
  | inl p ↦
      let e : some key_bytes ≡ some bytes = rw p at h in
      let is : bytes ≡ key_bytes = cc in rw (eq_sound t (replicate 64 b'a') p, is) refl
  | inr p ↦ elim (Bool-cases (eq t (replicate 32 b'c'))) [
    | inl q ↦
        let e : some nonce_bytes ≡ some bytes = rw (p, q) at h in
        let is : bytes ≡ nonce_bytes = cc in rw (eq_sound t (replicate 32 b'c') q, is) refl
    | inr q ↦ let e : none ≡ some bytes = rw (p, q) at h in cc
  ]
]

abbrev key_reply : RawReply
key_reply = record empty_reply { b_pub = some (replicate 64 b'a'); n_b = some (replicate 32 b'c') }
