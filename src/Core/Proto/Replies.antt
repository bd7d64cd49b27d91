-- ===== src/Core/Proto/Replies.antt =====
-- What a reply can be read as.
use hid_fi.Common.{ℕ, ◌*◌, ◌≤◌, ◌≡◌, false, Option, none, some, List, [], ◌∷◌, arith, length, All}
use hid_fi.Common.Text.{Text, codes, eq, utf8, is_some_text}
use hid_fi.Core.Crates.{Hex}
use hid_fi.Core.Proto.{
  RawReply, Refusal, ReplyError, refused, malformed, rate_limited, other, pin_required, full,
  unknown_pc, bad_proof, stale_challenge, unsupported, Reply, ok, err, Json, hex_n, board_key,
  bind_inv, ◌>>=◌,
}

-- `decode` reads two digits a byte.
abbrev pub DecodesPairs : Hex → Type 0
DecodesPairs hex =
    (t : Text) (bytes : List ℕ) → hex.decode t ≡ some bytes → length (utf8 t) ≡ length bytes * 2

-- A field that is accepted as `n` bytes of hex has exactly `n` bytes.
pub hex_n-length :
    (hex : Hex) (n : ℕ) (s : Option Text) (bytes : List ℕ)
    → DecodesPairs hex
    → hex_n hex n s ≡ ok bytes
    → length bytes ≡ n
unfolding hex_n
hex_n-length hex n none bytes law h = cc
hex_n-length hex n (some t) bytes law h = ground (arith, law t bytes)

-- A board key is accepted only with 32 bytes of public key and 16 bytes of nonce.
pub board_key-lengths :
    (hex : Hex) (r : RawReply) (b_pub n_b : List ℕ)
    → DecodesPairs hex
    → board_key hex r ≡ ok (b_pub, n_b)
    → (length b_pub ≡ 32) × (length n_b ≡ 16)
unfolding board_key
board_key-lengths hex r b_pub n_b law h =
    let (k, found_key, rest) =
      bind_inv (hex_n hex 32 r.b_pub) (λ k. hex_n hex 16 r.n_b >>= λ n. ok (k, n)) h in
    let (n, found_nonce, is) = bind_inv (hex_n hex 16 r.n_b) (λ n. ok (k, n)) rest in
    (
      hex_n-length hex 32 r.b_pub b_pub law (ground arith),
      hex_n-length hex 16 r.n_b n_b law (ground arith),
    )

-- The words by which the board says no.
abbrev pub reasons : List Text
reasons =
    codes "pin_required"
    ∷ codes "full"
    ∷ codes "rate_limited"
    ∷ codes "unknown_pc"
    ∷ codes "bad_mac"
    ∷ codes "stale_chal"
    ∷ []

-- What a reply says where it is refused like this.
abbrev pub Says : RawReply → Refusal → Type 0
Says r pin_required = r.reply ≡ some (codes "pin_required")
Says r full = r.reply ≡ some (codes "full")
Says r (rate_limited ms) = (r.reply ≡ some (codes "rate_limited")) × (ms ≤ 60_000)
Says r unknown_pc = r.reply ≡ some (codes "unknown_pc")
Says r bad_proof = r.reply ≡ some (codes "bad_mac")
Says r stale_challenge = r.reply ≡ some (codes "stale_chal")
Says r unsupported = ⊥
Says r (other t) = All (λ word. is_some_text r.reply word ≡ false) reasons

-- A reply that can be read, is not `ok`, and says this.
pub record Read (json : Json) (body : Text) (x : Refusal) : Type 0 where
  pub raw : RawReply
  pub is_read : json.from_body body ≡ some raw
  pub not_ok : eq raw.status (codes "ok") ≡ false
  pub says : Says raw x

-- How a reply is refused: behind a 404, what cannot be read or has no known word is old firmware.
abbrev pub Acceptable : Json → ℕ → Text → ReplyError → Type 0
Acceptable json code body malformed = (json.from_body body ≡ none) × ¬ (code ≡ 404)
Acceptable json code body (refused unsupported) = code ≡ 404
Acceptable json code body (refused (other t)) = Read json body (other t) × ¬ (code ≡ 404)
Acceptable json code body (refused x) = Read json body x

-- Reason a body is refused, whatever the code is.
abbrev Reason : Json → Text → ReplyError → Type 0
Reason json body malformed = json.from_body body ≡ none
Reason json body (refused x) = Read json body x

abbrev error_of : Reply RawReply → ReplyError
error_of (ok r) = malformed
error_of (err e) = e
