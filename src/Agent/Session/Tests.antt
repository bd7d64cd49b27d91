-- ===== src/Agent/Session/Tests.antt =====
-- A conversation from the first request to the key, and the theorems along it.
use hid_fi.Common.{
  ℕ, zero, suc, ◌*◌, ◌^◌, min, ◌≡◌, refl, true, Option, none, some, List, [], ◌∷◌, ◌==◌, arith,
  length, replicate, if◌then◌else◌,
}
use hid_fi.Common.Text.{Text, codes, eq, utf8, utf8_char}
use hid_fi.Core.Crates.{Crypto}
use hid_fi.Core.Pairing.{new_initiator, initiator_commit, complete, commit, derive_key}
use hid_fi.Core.Proto.{RawReply, PairState, parse_http, parse, pair_state, board_key, hex_n}
use hid_fi.Agent.Env.{World, HttpResult, too_large}
use hid_fi.Common.Exec.{pure, raise, gets, lift, modify, ◌>>=◌}
use hid_fi.Agent.Exec.{net}
use hid_fi.Agent.Nonces.{TicketNonces}
use hid_fi.Agent.Session.Defs.{Identity, Phase, backoff_max, new_session, on_error}
use hid_fi.Agent.Session.Steps.{
  Live, step, step_phase, start_pairing, poll_pairing, fresh_initiator, draw, poll_phase, call,
  on_state, pairing_request, on_confirm, on_complete, on_paired,
}
use hid_fi.Agent.Session.Invariants.{Valid, new, next, stepped, Reached-Valid}
use hid_fi.Agent.Session.Key.{KeyFrom, step-KeyFrom}
use hid_fi.Agent.Session.Errors.{after, on_error_doubles}

abbrev ok_reply : RawReply
ok_reply = record {
  status = codes "ok";
  reply = none;
  message = none;
  state = none;
  b_pub = none;
  n_b = none;
  chal = none;
  retry_ms = none;
  done = none;
}

-- The board's replies in the order of the requests.
abbrev replies : List RawReply
replies =
    record ok_reply { state = some PairState.pending }
    ∷ record ok_reply {
      state = some PairState.confirm;
      b_pub = some (replicate 64 7);
      n_b = some (replicate 32 8);
    }
    ∷ ok_reply
    ∷ record ok_reply { state = some PairState.paired }
    ∷ []

abbrev nth : ℕ → List RawReply → Option RawReply
nth n [] = none
nth zero (r ∷ rs) = some r
nth (suc n) (r ∷ rs) = nth n rs

-- A body is the number of its reply.
abbrev scripted : Text → Option RawReply
scripted (n ∷ []) = nth n replies
scripted body = none

abbrev stand_in : Crypto
stand_in = record {
  sha256 = λ bytes. bytes;
  hmac = λ key message. message;
  hkdf = λ salt secret info. secret;
  public_key = λ secret. secret;
  diffie_hellman = λ secret other. other;
  was_contributory = λ shared. true;
}

-- A world that counts the requests, with hex of two texts.
abbrev board : World
board = record {
  W = ℕ;
  post_json = λ url body n. (HttpResult.reply 200 (n ∷ []), suc n);
  get = λ url n. (HttpResult.failed too_large, n);
  now = λ n. 1000 * n;
  fill = λ count n. (some (replicate count 5), n);
  uptime_sec = λ body. none;
  crypto = stand_in;
  hex = record {
    encode = λ bytes. bytes;
    decode = λ text. some (if length text == 64 then replicate 32 7 else replicate 16 8);
  };
  json = record { to_body = λ r. []; from_body = scripted };
}

abbrev identity : Identity
identity = record { id = 1 ∷ []; name = codes "pc"; key = none }

abbrev begin : Live ℕ
begin = record { session = new_session identity (codes "http://b"); world = 0 }

abbrev asked : Live ℕ
asked = (step board begin).1

abbrev shown : Live ℕ
shown = (step board asked).1

abbrev finished : Live ℕ
finished = (step board shown).1

pairs :
    (finished.session.identity.key ≡ some (replicate 32 7))
    × (finished.session.phase ≡ Phase.paired)
unfolding step new_session step_phase start_pairing poll_pairing fresh_initiator draw poll_phase
    call on_state pairing_request on_confirm on_complete on_paired pure raise gets lift modify ◌>>=◌
    new_initiator initiator_commit complete parse_http parse pair_state board_key hex_n commit
    derive_key eq utf8 utf8_char
pairs = (refl, refl)

Reached-Valid_example : Valid finished.session
Reached-Valid_example = Reached-Valid board finished.session (
    next (next (next (new identity (codes "http://b")) (stepped 0)) (stepped asked.world))
      (stepped shown.world))

step-KeyFrom_example : KeyFrom shown.session (step board shown).1.session.identity.key
step-KeyFrom_example = step-KeyFrom board shown

on_error_doubles_example :
    (on_error (net too_large) (after 3 too_large begin.session)).0
    ≡ min (begin.session.backoff * 2 ^ 3) backoff_max
unfolding new_session
on_error_doubles_example = on_error_doubles 3 too_large begin.session (omega arith)

abbrev one_nonce : TicketNonces
one_nonce = (codes "aa", 5) ∷ []
