-- ===== src/Core/Crates.antt =====
-- The third-party crates that hidfi-core and hidfi-agent call, as interfaces: functions over byte
-- lists, and the documented facts about them that a proof relies on.
use hid_fi.Common.{ℕ, ◌≡◌, Bool, Option, List}
use hid_fi.Common.Text.{Text}

-- sha2, hmac, hkdf and x25519-dalek.
pub record Crypto : Type 0 where
  pub sha256 : List ℕ → List ℕ
  pub hmac : List ℕ → List ℕ → List ℕ  -- key, message
  pub hkdf : List ℕ → List ℕ → List ℕ → List ℕ  -- salt, secret, info
  pub public_key : List ℕ → List ℕ
  pub diffie_hellman : List ℕ → List ℕ → List ℕ  -- secret, the other side's public key
  pub was_contributory : List ℕ → Bool

-- The two sides of a key exchange compute the same secret.
pub record ExchangeLaw (c : Crypto) : Type 0 where
  pub same_secret :
      (a b : List ℕ) → c.diffie_hellman a (c.public_key b) ≡ c.diffie_hellman b (c.public_key a)

-- hex: `encode` and `decode` (lower case out, either case in).
pub record Hex : Type 0 where
  pub encode : List ℕ → Text
  pub decode : Text → Option (List ℕ)
