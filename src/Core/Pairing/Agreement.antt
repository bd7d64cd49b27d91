-- ===== src/Core/Pairing/Agreement.antt =====
-- The two sides of one pairing attempt.
use hid_fi.Common.{ℕ, ◌≡◌, inl, inr, List, Bool-cases}
use hid_fi.Common.Text.{eq_refl}
use hid_fi.Core.Crates.{Crypto, ExchangeLaw}
use hid_fi.Core.Pairing.{
  Outcome, ok, err, Confirmed, commit, new_initiator, new_responder, initiator_commit, complete,
  finish,
}

-- What the board must end with, given what the app ended with.
abbrev pub board_side : Outcome Confirmed → Outcome (ℕ × List ℕ)
board_side (ok c) = ok (c.code, c.key)
board_side (err e) = err e

module _ (c : Crypto) where
  -- On keys that the two sides made themselves, and with the commitment and nonce of the app, the
  -- board ends exactly as the app does: with the same code and the same key, or with the same
  -- refusal of a weak key.
  pub finish-complete :
      ExchangeLaw c
      → (secret_a n_a secret_b n_b : List ℕ)
      → let a = new_initiator c secret_a n_a in
        let b = new_responder c secret_b n_b in
        finish c b a.a_pub (initiator_commit c a) a.n_a ≡ board_side (complete c a b.b_pub b.n_b)
  unfolding finish complete new_initiator new_responder initiator_commit
  finish-complete law secret_a n_a secret_b n_b =
      let same = law.same_secret secret_a secret_b in
      rw (eq_refl (commit c (c.public_key secret_a) n_a), same)
        (elim (Bool-cases
          (c.was_contributory (c.diffie_hellman secret_b (c.public_key secret_a)))) [
            | inl p ↦ rw p
            | inr p ↦ rw p
          ])
