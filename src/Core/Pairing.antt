-- ===== src/Core/Pairing.antt =====
-- Pairing and the proofs that follow it: companion/crates/hidfi-core/src/pairing.rs. Keys, nonces
-- and digests are byte lists; the primitives are the interface `Crypto`.
pub mod Agreement
pub mod Messages
pub mod Code
mod Tests
use hid_fi.Common.{
  ℕ, ◌+◌, ◌*◌, ◌%◌, Bool, true, false, not, ◌&&◌, List, [], ◌∷◌, ◌++◌, ◌==◌, if◌then◌else◌, take,
  length,
}
use hid_fi.Common.Text.{Text, codes, eq, utf8, show_nat, zero_padded}
use hid_fi.Core.Crates.{Crypto}

abbrev pub nonce_len : ℕ
nonce_len = 16

abbrev pub key_len : ℕ
key_len = 32

abbrev pub hkdf_info : List ℕ
hkdf_info = codes "hidfi-companion-v1"

pub data PairError : Type 0 where
  weak_peer_key commit_mismatch : PairError

pub data Outcome {ℓ} (A : Type ℓ) : Type ℓ where
  ok : A → Outcome A
  err : PairError → Outcome A

-- `u32::from_be_bytes` of the first four bytes.
unfoldable pub be_word : List ℕ → ℕ
be_word (a ∷ b ∷ c ∷ d ∷ rest) = a * 0x100_0000 + b * 0x1_0000 + c * 0x100 + d
be_word _ = 0

abbrev pub bar : ℕ
bar = b'|'

-- Fields joined by bars, as the `format!` strings write them.
unfoldable pub join_bar : Text → List Text → Text
join_bar first [] = first
join_bar first (t ∷ ts) = first ++ bar ∷ join_bar t ts

-- `format!("{:06}", code % 1_000_000)`
unfoldable pub format_code : ℕ → Text
unfolding zero_padded
format_code code = zero_padded 6 (show_nat (code % 1_000_000))

unfoldable pub beat_message : Text → ℕ → Text → Text → Text → Text
unfolding join_bar
beat_message id port fp tn chal = join_bar (codes "beat") (id ∷ show_nat port ∷ fp ∷ tn ∷ chal ∷ [])

unfoldable pub ota_message : Text → Text → Text → Text → Text
unfolding join_bar
ota_message id act url chal = join_bar (codes "ota") (id ∷ act ∷ url ∷ chal ∷ [])

-- What `reset_mac`, `factory_proof` and `ticket` sign.
unfoldable pub reset_message : Text → Text → Text
unfolding join_bar
reset_message id chal = join_bar (codes "reset") (id ∷ chal ∷ [])

unfoldable pub factory_message : Text → Text → Text
unfolding join_bar
factory_message id token = join_bar (codes "factory_reset") (id ∷ token ∷ [])

unfoldable pub ticket_message : Text → Text → Text
unfolding join_bar
ticket_message tn vn = join_bar (codes "tkt") (tn ∷ vn ∷ [])

pub record Initiator : Type 0 where
  pub secret : List ℕ
  pub a_pub : List ℕ
  pub n_a : List ℕ

pub record Confirmed : Type 0 where
  pub code : ℕ
  pub key : List ℕ
  pub n_a : List ℕ

pub record Responder : Type 0 where
  pub secret : List ℕ
  pub b_pub : List ℕ
  pub n_b : List ℕ

module _ (c : Crypto) where
  unfoldable pub commit : List ℕ → List ℕ → List ℕ
  commit a_pub n_a = c.sha256 (codes "hidfi-commit" ++ (a_pub ++ n_a))

  unfoldable pub sas : List ℕ → List ℕ → List ℕ → List ℕ → ℕ
  unfolding be_word
  sas a_pub b_pub n_a n_b =
      be_word (c.sha256 (codes "hidfi-sas" ++ (a_pub ++ (b_pub ++ (n_a ++ n_b))))) % 1_000_000

  unfoldable pub derive_key : List ℕ → List ℕ → List ℕ → List ℕ → List ℕ → List ℕ
  derive_key shared a_pub b_pub n_a n_b =
      c.hkdf (c.sha256 (a_pub ++ (b_pub ++ (n_a ++ n_b)))) shared hkdf_info

  unfoldable pub beat_mac : List ℕ → Text → ℕ → Text → Text → Text → List ℕ
  beat_mac k id port fp tn chal = c.hmac k (utf8 (beat_message id port fp tn chal))

  unfoldable pub ota_mac : List ℕ → Text → Text → Text → Text → List ℕ
  ota_mac k id act url chal = c.hmac k (utf8 (ota_message id act url chal))

  unfoldable pub reset_mac : List ℕ → Text → Text → List ℕ
  reset_mac k id chal = c.hmac k (utf8 (reset_message id chal))

  unfoldable pub factory_proof : List ℕ → Text → Text → List ℕ
  factory_proof k id token = c.hmac k (utf8 (factory_message id token))

  unfoldable pub ticket : List ℕ → Text → Text → List ℕ
  ticket k tn vn = c.hmac k (utf8 (ticket_message tn vn))

  -- `ct_eq` compares every byte; the constant time is not modelled.
  unfoldable pub ticket_ok : List ℕ → Text → Text → List ℕ → Bool
  ticket_ok k tn vn presented =
      let want = ticket k tn vn in length presented == length want && eq want presented

  -- `Initiator::from_parts`, from the 32 and 16 random bytes that `new` draws.
  unfoldable pub new_initiator : List ℕ → List ℕ → Initiator
  new_initiator secret n_a = record { secret = secret; a_pub = c.public_key secret; n_a = n_a }

  unfoldable pub initiator_commit : Initiator → List ℕ
  initiator_commit i = commit i.a_pub i.n_a

  unfoldable pub complete : Initiator → List ℕ → List ℕ → Outcome Confirmed
  complete i b_pub n_b =
      let shared = c.diffie_hellman i.secret b_pub in
      if not (c.was_contributory shared)
      then err weak_peer_key
      else ok (record {
        code = sas i.a_pub b_pub i.n_a n_b;
        key = derive_key shared i.a_pub b_pub i.n_a n_b;
        n_a = i.n_a;
      })

  unfoldable pub new_responder : List ℕ → List ℕ → Responder
  new_responder secret n_b = record { secret = secret; b_pub = c.public_key secret; n_b = n_b }

  unfoldable pub finish : Responder → List ℕ → List ℕ → List ℕ → Outcome (ℕ × List ℕ)
  finish r a_pub commitment n_a =
      let shared = c.diffie_hellman r.secret a_pub in
      if not (eq (commit a_pub n_a) commitment)
      then err commit_mismatch
      else if not (c.was_contributory shared)
      then err weak_peer_key
      else ok (sas a_pub r.b_pub n_a r.n_b, derive_key shared a_pub r.b_pub n_a r.n_b)
