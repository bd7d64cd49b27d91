-- ===== src/Agent/Session/Steps.antt =====
-- One step of the conversation: session.rs, over the state of the session and of the world.
use hid_fi.Common.{
  ℕ, ◌+◌, ◌-◌, ◌*◌, Bool, true, false, not, Option, none, some, List, ◌++◌, ◌==◌, ltb,
  if◌then◌else◌,
}
use hid_fi.Common.Text.{codes}
use hid_fi.Core.Pairing.{
  Initiator, Confirmed, Outcome, new_initiator, initiator_commit, complete, format_code, beat_mac,
}
use hid_fi.Core.Proto.{
  Request, RawReply, PairState, protocol, parse_http, pair_state, board_key, challenge,
}
use hid_fi.Agent.Env.{World, HttpResult, unreachable}
use hid_fi.Common.Exec.{M, Res, pure, raise, panic, gets, modify, lift, ◌>>=◌, ◌>>◌}
use hid_fi.Agent.Exec.{CallError, net, of_reply}
use hid_fi.Agent.Nonces.{announce}
use hid_fi.Agent.Session.Defs.{
  Session, Phase, idle, unpaired, paired, pairing, Status, connecting, waiting_for_approval,
  show_code, pairing_failed, pairing_expired, online, Listener, beat_every, pair_poll, backoff_min,
  idle_wait, is_idle, on_error,
}

-- The session beside the state of the world.
pub record Live (W : Type 0) : Type 0 where
  pub session : Session
  pub world : W

abbrev pub Action : Type 0 → Type 0 → Type 0
Action W A = M CallError (Live W) A

abbrev pub with_session : {W : Type 0} → (Session → Session) → Live W → Live W
with_session f l = record l { session = f l.session }

-- `self.phase = next`, `self.status = status`.
abbrev pub set_phase : {W : Type 0} → Phase → Action W (Unit {0})
set_phase next = modify (with_session (λ s. record s { phase = next }))

abbrev pub set_status : {W : Type 0} → Status → Action W (Unit {0})
set_status status = modify (with_session (λ s. record s { status = status }))

-- What the paired board leaves: the key is kept, and the store must be updated.
abbrev pub keep_key : List ℕ → Session → Session
keep_key k s = record s {
  identity = record s.identity { key = some k };
  key_changed = true;
  status = connecting;
  phase = paired;
}

module _ (w : World) where
  open w use {W, post_json, get, now, fill, uptime_sec, crypto, hex, json}

  abbrev pub received : HttpResult × W → Live W → Res CallError RawReply × Live W
  received (HttpResult.failed e, w') l = raise (net e) (record l { world = w' })
  received (HttpResult.reply code body, w') l =
      lift (of_reply (parse_http json code body)) (record l { world = w' })

  -- `call`, and the closure `post` of `poll_pairing`.
  unfoldable pub call : Request → Action W RawReply
  unfolding raise lift
  call req l =
      received (post_json (l.session.base ++ codes "/api/companion") (json.to_body req) l.world) l

  abbrev pub drawn : Option (List ℕ) × W → Live W → Res CallError (Option (List ℕ)) × Live W
  drawn (bytes, w') l = pure bytes (record l { world = w' })

  unfoldable pub draw : ℕ → Action W (Option (List ℕ))
  unfolding pure
  draw n l = drawn (fill n l.world) l

  abbrev pub or_raise : {A : Type 0} → CallError → Option A → Action W A
  or_raise e none = raise e
  or_raise e (some a) = pure a

  abbrev pub or_panic : {A : Type 0} → Option A → Action W A
  or_panic none = panic
  or_panic (some a) = pure a

  abbrev no_randomness : CallError
  no_randomness = net (unreachable (codes "no randomness"))

  abbrev uptime_of : HttpResult → Option ℕ
  uptime_of (HttpResult.failed e) = none
  uptime_of (HttpResult.reply code body) = if not (code == 200) then none else uptime_sec body

  abbrev pub fetched : HttpResult × W → Live W → Res CallError (Option ℕ) × Live W
  fetched (r, w') l = pure (uptime_of r) (record l { world = w' })

  -- In seconds.
  unfoldable pub board_uptime : Action W (Option ℕ)
  unfolding pure
  board_uptime l = fetched (get (l.session.base ++ codes "/api/status") l.world) l

  -- `Initiator::new`.
  unfoldable pub fresh_initiator : Action W Initiator
  unfolding draw
  fresh_initiator = do
    drawn_seed ← draw 32
    seed ← or_raise no_randomness drawn_seed
    drawn_nonce ← draw 16
    n_a ← or_raise no_randomness drawn_nonce
    pure (new_initiator crypto seed n_a)

  -- The end of `poll_pairing`.
  unfoldable pub leave_pairing : Phase → Action W ℕ
  leave_pairing next = do set_phase next; pure (if is_idle next then idle_wait else pair_poll)

  unfoldable pub on_complete : Initiator → Option ℕ → Outcome Confirmed → Action W ℕ
  on_complete init asked_at (Outcome.err e) = do
    modify (with_session (λ s. record s { phase = idle; status = pairing_failed }))
    pure idle_wait
  on_complete init asked_at (Outcome.ok c) = do
    set_phase (pairing init (some c) true asked_at)
    id ← gets (λ l. l.session.identity.id)
    call (Request.reveal (hex.encode id) (hex.encode c.n_a))
    set_status (show_code (format_code c.code))
    pure pair_poll

  unfoldable pub on_confirm : RawReply → Initiator → Option ℕ → Action W ℕ
  unfolding on_complete
  on_confirm r init asked_at = do
    keys ← lift (of_reply (board_key hex r))
    on_complete init asked_at (complete crypto init keys.0 keys.1)

  unfoldable pub on_code_shown : Option Confirmed → Action W ℕ
  unfolding leave_pairing
  on_code_shown (some c) = do set_status (show_code (format_code c.code)); pure pair_poll
  on_code_shown none = leave_pairing unpaired

  unfoldable pub on_paired : Option Confirmed → Action W ℕ
  unfolding leave_pairing
  on_paired (some c) = do modify (with_session (keep_key c.key)); pure 0
  on_paired none = leave_pairing unpaired

  -- The board has been up for less time, a second of slack included, than since it was asked.
  abbrev pub restarted_since : ℕ → Option ℕ → Bool
  restarted_since asked none = false
  restarted_since asked (some up) = ltb (up * 1000 + 1000) asked

  unfoldable pub ask_again : Initiator → Option Confirmed → Action W ℕ
  ask_again init confirmed = do set_phase (pairing init confirmed false none); pure 0

  unfoldable pub expire : Action W ℕ
  unfolding leave_pairing
  expire = do set_status pairing_expired; leave_pairing idle

  unfoldable pub on_gone : Initiator → Option Confirmed → Option ℕ → Action W ℕ
  unfolding ask_again expire board_uptime
  on_gone init confirmed none = expire
  on_gone init confirmed (some asked_at) = do
    time ← gets (λ l. now l.world)
    up ← board_uptime
    if restarted_since (time - asked_at) up then ask_again init confirmed else expire

  -- The `match r.pair_state()` of `poll_pairing`.
  unfoldable pub on_state :
      PairState → RawReply → Initiator → Option Confirmed → Option ℕ → Action W ℕ
  unfolding on_confirm on_code_shown on_paired on_gone leave_pairing
  on_state PairState.pending r init confirmed asked_at = do
    set_status waiting_for_approval
    pure pair_poll
  on_state PairState.confirm r init confirmed asked_at = on_confirm r init asked_at
  on_state PairState.code_shown r init confirmed asked_at = on_code_shown confirmed
  on_state PairState.paired r init confirmed asked_at = on_paired confirmed
  on_state PairState.none_known r init confirmed asked_at = on_gone init confirmed asked_at
  on_state PairState.aborted r init confirmed asked_at = do
    set_status pairing_failed
    leave_pairing idle

  unfoldable pub pairing_request : Initiator → Bool → Session → Request
  pairing_request init announced s =
      if announced
      then Request.state (hex.encode s.identity.id)
      else Request.hello protocol (hex.encode s.identity.id) s.identity.name (hex.encode init.a_pub)
          (hex.encode (initiator_commit crypto init))

  unfoldable pub poll_phase : Phase → Action W ℕ
  unfolding call on_state
  poll_phase (pairing init confirmed announced asked_at) = do
    s ← gets (λ l. l.session)
    r ← call (pairing_request init announced s)
    time ← gets (λ l. now l.world)
    let asked = if announced then asked_at else some time
    set_phase (pairing init confirmed true asked)
    st ← lift (of_reply (pair_state r))
    on_state st r init confirmed asked
  poll_phase _ = pure 0

  unfoldable pub poll_pairing : Action W ℕ
  unfolding poll_phase
  poll_pairing = do phase ← gets (λ l. l.session.phase); poll_phase phase

  unfoldable pub start_pairing : Action W ℕ
  unfolding fresh_initiator poll_pairing
  start_pairing = do init ← fresh_initiator; set_phase (pairing init none false none); poll_pairing

  unfoldable pub beat_with : Option (List ℕ) → Option Listener → Action W ℕ
  unfolding call draw
  beat_with none listener = do set_phase unpaired; pure 0
  beat_with (some key) none = do set_status connecting; pure pair_poll
  beat_with (some key) (some listener) = do
    id ← gets (λ l. hex.encode l.session.identity.id)
    r ← call (Request.chal id)
    chal_bytes ← lift (of_reply (challenge hex r))
    drawn_tn ← draw 16
    tn_bytes ← or_panic drawn_tn
    let chal = hex.encode chal_bytes
    let tn = hex.encode tn_bytes
    let mac = hex.encode (beat_mac crypto key id listener.port listener.fp tn chal)
    time ← gets (λ l. now l.world)
    modify (with_session (λ s. record s { nonces = announce tn time s.nonces }))
    call (Request.beat id listener.port listener.fp tn chal mac)
    set_status online
    pure beat_every

  unfoldable pub beat : Action W ℕ
  unfolding beat_with
  beat = do s ← gets (λ l. l.session); beat_with s.identity.key s.listener

  -- `Some` of the wait; none is a panic.
  abbrev pub settled : Res CallError ℕ × Live W → Option ℕ × Live W
  settled (Res.ok wait, l) = (some wait, with_session (λ s. record s { backoff = backoff_min }) l)
  settled (Res.err e, l) =
      let (wait, s') = on_error e l.session in (some wait, record l { session = s' })
  settled (Res.panicked, l) = (none, l)

  unfoldable pub step_phase : Phase → Live W → Option ℕ × Live W
  unfolding start_pairing poll_pairing beat on_error
  step_phase idle l = (some idle_wait, l)
  step_phase unpaired l = settled (start_pairing l)
  step_phase (pairing init confirmed announced asked_at) l = settled (poll_pairing l)
  step_phase paired l = settled (beat l)

  unfoldable pub step : Live W → Option ℕ × Live W
  unfolding step_phase
  step l = step_phase l.session.phase l
