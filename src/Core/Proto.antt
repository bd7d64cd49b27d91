-- ===== src/Core/Proto.antt =====
-- Messages on `POST /api/companion`: companion/crates/hidfi-core/src/proto.rs. serde_json is the
-- interface `Json`; the hex crate is `Hex`.
pub mod Names
pub mod Replies
mod Tests
use hid_fi.Common.{
  ◌≡◌, refl, ℕ, ◌+◌, ◌*◌, min, Bool, true, false, not, Option, none, some, List, [], ◌∷◌, ◌++◌,
  ◌==◌, ltb, if◌then◌else◌, take, length,
}
use hid_fi.Common.Text.{Text, codes, eq, is_empty, is_control, is_some_text, len_utf8, trim, utf8}
use hid_fi.Core.Crates.{Hex}

abbrev pub protocol : ℕ
protocol = 1

abbrev pub max_name : ℕ
max_name = 32

pub data Request : Type 0 where
  hello : ℕ → Text → Text → Text → Text → Request  -- v, id, name, a_pub, commit
  state : Text → Request
  reveal : Text → Text → Request  -- id, n_a
  chal : Text → Request
  beat : Text → ℕ → Text → Text → Text → Text → Request  -- id, port, fp, tn, chal, mac
  ota : Text → Text → Text → Text → Text → Request  -- id, act, url, chal, mac
  reset : Text → Text → Text → Request  -- id, chal, mac
  reset_request : Text → Request
  reset_request_status : Text → Request

-- The loop of `clean_name`, with what was kept so far.
unfoldable pub keep_chars : Text → Text → Text
unfolding is_control
keep_chars out [] = out
keep_chars out (raw ∷ rest) =
    let c = if is_control raw then 0x20 else raw in
    let more = keep_chars (out ++ c ∷ []) rest in
    if ltb max_name (length (utf8 out) + len_utf8 c) then out else more

unfoldable pub clean_name : Text → Text
unfolding keep_chars
clean_name raw = let t = trim (keep_chars [] raw) in if is_empty t then codes "Computer" else t

pub data PairState : Type 0 where
  none_known pending confirm code_shown paired aborted : PairState

pub record RawReply : Type 0 where
  pub status : Text
  pub reply : Option Text
  pub message : Option Text
  pub state : Option PairState
  pub b_pub : Option Text
  pub n_b : Option Text
  pub chal : Option Text
  pub retry_ms : Option ℕ
  pub done : Option Text

pub data Refusal : Type 0 where
  pin_required full unknown_pc bad_proof stale_challenge unsupported : Refusal
  rate_limited : ℕ → Refusal
  other : Text → Refusal

pub data ReplyError : Type 0 where
  refused : Refusal → ReplyError
  malformed : ReplyError

pub data Reply {ℓ} (A : Type ℓ) : Type ℓ where
  ok : A → Reply A
  err : ReplyError → Reply A

-- serde_json: a request's text, and the reply that a body holds, if it is one.
pub record Json : Type 0 where
  pub to_body : Request → Text
  pub from_body : Text → Option RawReply

infixl 5 ◌>>=◌
abbrev pub ◌>>=◌ {ℓ κ} : {A : Type ℓ} {B : Type κ} → Reply A → (A → Reply B) → Reply B
ok a >>= f = f a
err e >>= f = err e

pub bind_inv :
    {A B : Type 0} (m : Reply A) (f : A → Reply B) {b : B}
    → (m >>= f) ≡ ok b
    → (a : A) × (m ≡ ok a) × (f a ≡ ok b)
bind_inv (ok a) f h = (a, refl, h)
bind_inv (err e) f h = cc

-- `ok_or(Malformed)`
abbrev pub or_malformed {ℓ} : {A : Type ℓ} → Option A → Reply A
or_malformed none = err malformed
or_malformed (some a) = ok a

abbrev pub or_else {ℓ} : {A : Type ℓ} → Option A → Option A → Option A
or_else none b = b
or_else (some a) b = some a

abbrev pub unwrap_or {ℓ} : {A : Type ℓ} → Option A → A → A
unwrap_or none d = d
unwrap_or (some a) d = a

unfoldable pub hex_n : Hex → ℕ → Option Text → Reply (List ℕ)
hex_n hex n s = do
  t ← or_malformed s
  if not (length (utf8 t) == n * 2) then err malformed else or_malformed (hex.decode t)

-- The `match` of `parse` on why the board said no.
unfoldable pub refusal_of : RawReply → Refusal
refusal_of r =
    if is_some_text r.reply (codes "pin_required")
    then pin_required
    else if is_some_text r.reply (codes "full")
    then full
    else if is_some_text r.reply (codes "rate_limited")
    then rate_limited (min (unwrap_or r.retry_ms 5000) 60_000)
    else if is_some_text r.reply (codes "unknown_pc")
    then unknown_pc
    else if is_some_text r.reply (codes "bad_mac")
    then bad_proof
    else if is_some_text r.reply (codes "stale_chal")
    then stale_challenge
    else other (take 80 (unwrap_or (or_else r.reply r.message) []))

unfoldable pub parse : Json → Text → Reply RawReply
parse json body = do
  r ← or_malformed (json.from_body body)
  if eq r.status (codes "ok") then ok r else err (refused (refusal_of r))

-- A 404 that does not name its reason is old firmware.
unfoldable pub named_404 : Reply RawReply → Reply RawReply
named_404 (ok r) = ok r
named_404 (err malformed) = err (refused unsupported)
named_404 (err (refused (other t))) = err (refused unsupported)
named_404 (err (refused r)) = err (refused r)

unfoldable pub parse_http : Json → ℕ → Text → Reply RawReply
parse_http json code body = let r = parse json body in if code == 404 then named_404 r else r

unfoldable pub pair_state : RawReply → Reply PairState
pair_state r = or_malformed r.state

unfoldable pub board_key : Hex → RawReply → Reply (List ℕ × List ℕ)
board_key hex r = do b_pub ← hex_n hex 32 r.b_pub; n_b ← hex_n hex 16 r.n_b; ok (b_pub, n_b)

unfoldable pub challenge : Hex → RawReply → Reply (List ℕ)
unfolding hex_n
challenge hex r = hex_n hex 16 r.chal
