-- ===== src/Agent/Session/Defs.antt =====
-- The state of a session and the operations that need no conversation: session.rs. Durations are
-- milliseconds.
use hid_fi.Common.{
  ◌++◌, ℕ, ◌*◌, min, max, Bool, true, false, Option, none, some, List, [], if◌then◌else◌,
}
use hid_fi.Common.Text.{Text, codes}
use hid_fi.Core.Pairing.{Initiator, Confirmed}
use hid_fi.Core.Proto.{
  Refusal, refused, malformed, pin_required, full, unknown_pc, bad_proof, stale_challenge,
  unsupported, rate_limited, other,
}
use hid_fi.Agent.Exec.{CallError, net, reply}
use hid_fi.Agent.Nonces.{TicketNonces}

abbrev pub beat_every : ℕ
beat_every = 20_000

abbrev pub pair_poll : ℕ
pair_poll = 1_000

abbrev pub backoff_min : ℕ
backoff_min = 1_000

abbrev pub backoff_max : ℕ
backoff_max = 30_000

abbrev pub idle_wait : ℕ
idle_wait = 60_000

pub data Status : Type 0 where
  connecting needs_pin waiting_for_approval pairing_failed pairing_expired online : Status
  reconnecting : Status
  show_code : Text → Status
  problem : Text → Status

pub record Identity : Type 0 where
  pub id : List ℕ
  pub name : Text
  pub key : Option (List ℕ)

pub record Listener : Type 0 where
  pub port : ℕ
  pub fp : Text

pub data Phase : Type 0 where
  idle unpaired paired : Phase
  pairing : Initiator → Option Confirmed → Bool → Option ℕ → Phase

pub record Session : Type 0 where
  pub identity : Identity
  pub base : Text
  pub phase : Phase
  pub status : Status
  pub backoff : ℕ
  pub listener : Option Listener
  pub nonces : TicketNonces
  pub key_changed : Bool

abbrev pub first_phase : Option (List ℕ) → Phase
first_phase none = unpaired
first_phase (some k) = paired

unfoldable pub new_session : Identity → Text → Session
new_session identity base = record {
  identity = identity;
  base = base;
  phase = first_phase identity.key;
  status = connecting;
  backoff = backoff_min;
  listener = none;
  nonces = [];
  key_changed = false;
}

unfoldable pub set_base : Text → Session → Session
set_base base s = record s { base = base }

abbrev pub is_reconnecting : Status → Bool
is_reconnecting reconnecting = true
is_reconnecting _ = false

unfoldable pub lost : Session → Bool
lost s = is_reconnecting s.status

unfoldable pub found_again : Session → Session
unfolding lost
found_again s = if lost s then record s { status = connecting; backoff = backoff_min } else s

unfoldable pub set_listener : Listener → Session → Session
set_listener l s = record s { listener = some l }

unfoldable pub reset_pairing : Session → Session
reset_pairing s = record s {
  identity = record s.identity { key = none };
  key_changed = true;
  phase = unpaired;
}

abbrev pub is_idle : Phase → Bool
is_idle idle = true
is_idle _ = false

unfoldable pub request_pairing : Session → Session
request_pairing s =
    if is_idle s.phase then record s { phase = unpaired; status = connecting } else s

abbrev pub is_paired_phase : Phase → Bool
is_paired_phase paired = true
is_paired_phase _ = false

unfoldable pub is_paired : Session → Bool
is_paired s = is_paired_phase s.phase

-- The words of `Refusal` that a problem shows.
unfoldable pub refusal_words : Refusal → Text
refusal_words pin_required = codes "set an access PIN on the board first (dashboard, Settings)"
refusal_words full =
    codes "the board already has the most computers it can pair; remove one in the dashboard"
refusal_words unknown_pc = codes "the board no longer knows this computer; pair again"
refusal_words bad_proof = codes "the board rejected our proof"
refusal_words stale_challenge = codes "the challenge expired"
refusal_words unsupported =
    codes "this board's firmware does not support the companion app; update it"
refusal_words (rate_limited ms) = codes "the board asked us to slow down"
refusal_words (other t) = codes "the board refused: " ++ t

-- The board is unreachable, or what it said cannot be read.
unfoldable pub on_lost : Session → ℕ × Session
on_lost s = (
  s.backoff,
  record s {
    status = if is_paired_phase s.phase then reconnecting else connecting;
    backoff = min (s.backoff * 2) backoff_max;
  },
)

-- The board threw our pairing away.
unfoldable pub on_unpaired : Session → ℕ × Session
unfolding reset_pairing
on_unpaired s = (backoff_min, record (reset_pairing s) { status = connecting })

unfoldable pub on_problem : Text → Session → ℕ × Session
on_problem why s = (backoff_max, record s { status = problem why })

unfoldable pub on_refusal : Refusal → Session → ℕ × Session
unfolding on_unpaired on_problem
on_refusal pin_required s = (10_000, record s { status = needs_pin })
on_refusal (rate_limited ms) s = (max ms 1000, s)
on_refusal unknown_pc s =
    if is_paired_phase s.phase then on_unpaired s else on_problem (refusal_words unknown_pc) s
on_refusal bad_proof s =
    if is_paired_phase s.phase
    then on_unpaired s
    else (idle_wait, record s { phase = idle; status = pairing_failed })
on_refusal stale_challenge s = (backoff_min, s)
on_refusal full s = on_problem (codes "The board is busy with other pairing requests") s
on_refusal unsupported s = on_problem (codes "Update the board's firmware to use screen sharing") s
on_refusal (other t) s = on_problem (refusal_words (other t)) s

unfoldable pub on_error : CallError → Session → ℕ × Session
unfolding on_lost on_refusal
on_error (net e) s = on_lost s
on_error (reply malformed) s = on_lost s
on_error (reply (refused r)) s = on_refusal r s
