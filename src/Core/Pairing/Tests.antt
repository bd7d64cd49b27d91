-- ===== src/Core/Pairing/Tests.antt =====
-- Runs of the codes and messages, and the theorems with stand-in primitives.
use hid_fi.Common.{ℕ, ◌+◌, ◌≡◌, refl, ap, true, [], ◌∷◌, ◌++◌, arith, length}
use native.Mathlib.Nat.{add_comm}
use hid_fi.Common.Text.{codes, show_nat}
use hid_fi.Core.Crates.{Crypto, ExchangeLaw}
use hid_fi.Core.Pairing.{
  beat_message, format_code, new_initiator, new_responder, initiator_commit, complete, finish,
}
use hid_fi.Core.Pairing.Agreement.{board_side, finish-complete}
use hid_fi.Core.Pairing.Messages.{beat_message-injective}

-- Lists joined stand for the digests, and an exchange that is symmetric for the curve.
abbrev stand_in : Crypto
stand_in = record {
  sha256 = λ bytes. bytes;
  hmac = λ key message. key ++ message;
  hkdf = λ salt secret info. salt ++ (secret ++ info);
  public_key = λ secret. secret;
  diffie_hellman = λ secret other. (length secret + length other) ∷ [];
  was_contributory = λ shared. true;
}

stand_in_law : ExchangeLaw stand_in
stand_in_law = record {
  same_secret = λ a b. ap (λ (n : ℕ). n ∷ []) (add_comm (length a) (length b));
}

beat_ascii :
    beat_message (codes "id") 47800 (codes "fp") (codes "tn") (codes "ch")
    ≡ codes "beat|id|47800|fp|tn|ch"
unfolding beat_message show_nat
beat_ascii = refl

six_digits : (format_code 42 ≡ codes "000042") × (format_code 999999 ≡ codes "999999")
unfolding format_code show_nat
six_digits = (refl, refl)

finish-complete_example :
    let a = new_initiator stand_in (1 ∷ 2 ∷ []) (3 ∷ []) in
    let b = new_responder stand_in (4 ∷ []) (5 ∷ []) in
    finish stand_in b a.a_pub (initiator_commit stand_in a) a.n_a
    ≡ board_side (complete stand_in a b.b_pub b.n_b)
finish-complete_example =
    finish-complete stand_in stand_in_law (1 ∷ 2 ∷ []) (3 ∷ []) (4 ∷ []) (5 ∷ [])

beat_message-injective_example :
    (codes "id" ≡ codes "id")
    × ◌≡◌ {A = ℕ} 1 1
    × (codes "fp" ≡ codes "fp")
    × (codes "tn" ≡ codes "tn")
    × (codes "ch" ≡ codes "ch")
beat_message-injective_example =
    beat_message-injective (codes "id") (codes "id") 1 1 (codes "fp") (codes "fp") (codes "tn")
      (codes "tn") (codes "ch") (codes "ch") (omega arith) (omega arith) (omega arith) (omega arith)
      (omega arith) (omega arith) refl
