-- ===== src/Agent/Session/Frame.antt =====
-- What a step of the conversation leaves alone: a property of the session that no change of the
-- status, the nonces or the phase can break is kept until a key arrives.
use hid_fi.Common.{◌≡◌, refl, ℕ, Bool, false, Option, none, some, List}
use hid_fi.Common.Text.{Text}
use hid_fi.Core.Pairing.{Initiator, Confirmed, Outcome}
use hid_fi.Core.Proto.{Request, RawReply, PairState}
use hid_fi.Agent.Env.{World, HttpResult}
use hid_fi.Common.Exec.{Res, ok, modify, gets, pure, raise, lift, ◌>>=◌}
use hid_fi.Agent.Exec.{CallError}
use hid_fi.Common.Exec.Keeps.{
  Keeps, Leads, Keeps-Leads, bind-Leads, bind-Keeps, modify-Keeps, if-Keeps, pure-Keeps,
  raise-Keeps, panic-Keeps, gets-Keeps, lift-Keeps, keeps_rules,
}
use hid_fi.Agent.Nonces.{TicketNonces, announce}
use hid_fi.Agent.Session.Defs.{
  Session, Phase, idle, unpaired, pairing, Status, pairing_failed, Listener, is_paired_phase,
}
use hid_fi.Agent.Session.Steps.{
  Live, with_session, set_phase, set_status, keep_key, call, draw, or_raise, or_panic, board_uptime,
  fresh_initiator, leave_pairing, on_complete, on_confirm, on_code_shown, on_paired, ask_again,
  expire, on_gone, on_state, poll_phase, poll_pairing, start_pairing, beat_with, received,
}

pub record Quiet (P : Session → Type 0) : Type 0 where
  pub status : (x : Status) (s : Session) → P s → P (record s { status = x })
  pub nonces : (x : TicketNonces) (s : Session) → P s → P (record s { nonces = x })

pub record Stable (P : Session → Type 0) : Type 0 where
  pub quiet : Quiet P
  pub phase :
      (x : Phase) (s : Session) → is_paired_phase x ≡ false → P s → P (record s { phase = x })

abbrev pub Held : {W : Type 0} → (Session → Type 0) → Live W → Type 0
Held P l = P l.session

abbrev pub Ends :
    {W : Type 0} → (Res CallError ℕ → Session → Type 0) → Res CallError ℕ → Live W → Type 0
Ends Q r l = Q r l.session

module _ (w : World) where
  received-keeps :
      (P : Session → Type 0) (r : HttpResult × w.W) (l : Live w.W)
      → Held P l
      → Held P (received w r l).1
  unfolding raise lift
  received-keeps P (HttpResult.failed e, w') l h = h
  received-keeps P (HttpResult.reply code body, w') l h = h

  call-Keeps : (P : Session → Type 0) (req : Request) → Keeps (Held P) (call w req)
  unfolding call
  call-Keeps P req = record { at = λ l h. received-keeps P _ l h }

  draw-Keeps : (P : Session → Type 0) (n : ℕ) → Keeps (Held P) (draw w n)
  unfolding draw pure
  draw-Keeps P n = record { at = λ l h. h }

  or_raise-Keeps :
      {A : Type 0} (P : Session → Type 0) (e : CallError) (o : Option A)
      → Keeps (Held P) (or_raise w e o)
  or_raise-Keeps P e none = raise-Keeps e
  or_raise-Keeps P e (some a) = pure-Keeps a

  or_panic-Keeps :
      {A : Type 0} (P : Session → Type 0) (o : Option A) → Keeps (Held P) (or_panic w o)
  or_panic-Keeps P none = panic-Keeps
  or_panic-Keeps P (some a) = pure-Keeps a

  board_uptime-Keeps : (P : Session → Type 0) → Keeps (Held P) (board_uptime w)
  unfolding board_uptime pure
  board_uptime-Keeps P = record { at = λ l h. h }

  fresh_initiator-Keeps : (P : Session → Type 0) → Keeps (Held P) (fresh_initiator w)
  unfolding fresh_initiator
  fresh_initiator-Keeps P = search (draw-Keeps, or_raise-Keeps, keeps_rules)

  set_status-Keeps :
      {P : Session → Type 0} → Quiet P → (x : Status) → Keeps (Held {W = w.W} P) (set_status x)
  set_status-Keeps q x = modify-Keeps _ (λ l h. q.status x l.session h)

  set_phase-Keeps :
      {P : Session → Type 0}
      → Stable P
      → (x : Phase) → is_paired_phase x ≡ false
      → Keeps (Held {W = w.W} P) (set_phase x)
  set_phase-Keeps st x n = modify-Keeps _ (λ l h. st.phase x l.session n h)

  announce-Keeps :
      {P : Session → Type 0}
      → Quiet P
      → (tn : Text) (now : ℕ)
      → Keeps {E = CallError}
          (Held {W = w.W} P)
          (modify (with_session (λ s. record s { nonces = announce tn now s.nonces })))
  announce-Keeps q tn now = modify-Keeps _ (λ l h. q.nonces _ l.session h)

  -- A heartbeat with a key.
  pub beat_with-Keeps :
      {P : Session → Type 0}
      → Quiet P
      → (key : List ℕ) (listener : Option Listener)
      → Keeps (Held P) (beat_with w (some key) listener)
  unfolding beat_with
  beat_with-Keeps q key none = search (set_status-Keeps q, keeps_rules)
  beat_with-Keeps q key (some x) =
      search
        (set_status-Keeps q, call-Keeps, draw-Keeps, or_panic-Keeps, announce-Keeps q, keeps_rules)
        depth 40 fits 3000

-- A poll of the board, from `P` to `Q`: only a confirmed attempt brings a key.
module _ (w : World) {P : Session → Type 0} {Q : Res CallError ℕ → Session → Type 0} (st : Stable P)
    (weaken : (r : Res CallError ℕ) (s : Session) → P s → Q r s) where
  leave_pairing-Keeps : (x : Phase) → is_paired_phase x ≡ false → Keeps (Held P) (leave_pairing w x)
  unfolding leave_pairing
  leave_pairing-Keeps x n = bind-Keeps _ _ (set_phase-Keeps w st x n) (λ a. pure-Keeps _)

  on_complete-Keeps :
      (init : Initiator) (asked : Option ℕ) (o : Outcome Confirmed)
      → Keeps (Held P) (on_complete w init asked o)
  unfolding on_complete
  on_complete-Keeps init asked (Outcome.err e) =
      bind-Keeps _ _
        (modify-Keeps _ (λ l h. st.quiet.status pairing_failed _ (st.phase idle l.session refl h)))
        (λ a. pure-Keeps _)
  on_complete-Keeps init asked (Outcome.ok c) =
      bind-Keeps _ _ (set_phase-Keeps w st _ refl)
        (λ a. search (set_status-Keeps w st.quiet, call-Keeps, keeps_rules) depth 40 fits 3000)

  on_confirm-Keeps :
      (r : RawReply) (init : Initiator) (asked : Option ℕ)
      → Keeps (Held P) (on_confirm w r init asked)
  unfolding on_confirm
  on_confirm-Keeps r init asked =
      bind-Keeps _ _ (lift-Keeps _) (λ keys. on_complete-Keeps init asked _)

  on_code_shown-Keeps : (confirmed : Option Confirmed) → Keeps (Held P) (on_code_shown w confirmed)
  unfolding on_code_shown
  on_code_shown-Keeps none = leave_pairing-Keeps unpaired refl
  on_code_shown-Keeps (some c) = search (set_status-Keeps w st.quiet, keeps_rules)

  ask_again-Keeps :
      (init : Initiator) (confirmed : Option Confirmed)
      → Keeps (Held P) (ask_again w init confirmed)
  unfolding ask_again
  ask_again-Keeps init confirmed = bind-Keeps _ _ (set_phase-Keeps w st _ refl) (λ a. pure-Keeps _)

  expire-Keeps : Keeps (Held P) (expire w)
  unfolding expire
  expire-Keeps = bind-Keeps _ _ (set_status-Keeps w st.quiet _) (λ a. leave_pairing-Keeps idle refl)

  on_gone-Keeps :
      (init : Initiator) (confirmed : Option Confirmed) (asked : Option ℕ)
      → Keeps (Held P) (on_gone w init confirmed asked)
  unfolding on_gone
  on_gone-Keeps init confirmed none = expire-Keeps
  on_gone-Keeps init confirmed (some asked) =
      search (if-Keeps, ask_again-Keeps, expire-Keeps, board_uptime-Keeps, keeps_rules) depth 40

  on_paired-Leads :
      (confirmed : Option Confirmed)
      → ((c : Confirmed) (s : Session) → confirmed ≡ some c → P s → Q (ok 0) (keep_key c.key s))
      → Leads (Held P) (Ends Q) (on_paired w confirmed)
  unfolding on_paired modify ◌>>=◌ pure
  on_paired-Leads none k =
      Keeps-Leads (λ r l. weaken r l.session) _ (leave_pairing-Keeps unpaired refl)
  on_paired-Leads (some c) k = record { at = λ l h. k c l.session refl h }

  on_state-Leads :
      (state : PairState) (r : RawReply) (init : Initiator) (confirmed : Option Confirmed)
      (asked : Option ℕ)
      → ((c : Confirmed) (s : Session) → confirmed ≡ some c → P s → Q (ok 0) (keep_key c.key s))
      → Leads (Held P) (Ends Q) (on_state w state r init confirmed asked)
  unfolding on_state
  on_state-Leads PairState.paired r init confirmed asked k = on_paired-Leads confirmed k
  on_state-Leads PairState.pending r init confirmed asked k =
      Keeps-Leads (λ r l. weaken r l.session) _ (search (set_status-Keeps w st.quiet, keeps_rules))
  on_state-Leads PairState.confirm r init confirmed asked k =
      Keeps-Leads (λ r l. weaken r l.session) _ (on_confirm-Keeps r init asked)
  on_state-Leads PairState.code_shown r init confirmed asked k =
      Keeps-Leads (λ r l. weaken r l.session) _ (on_code_shown-Keeps confirmed)
  on_state-Leads PairState.none_known r init confirmed asked k =
      Keeps-Leads (λ r l. weaken r l.session) _ (on_gone-Keeps init confirmed asked)
  on_state-Leads PairState.aborted r init confirmed asked k =
      Keeps-Leads (λ r l. weaken r l.session) _
        (bind-Keeps _ _ (set_status-Keeps w st.quiet _) (λ a. leave_pairing-Keeps idle refl))

  pub poll_phase-Leads :
      (init : Initiator) (confirmed : Option Confirmed) (announced : Bool) (asked : Option ℕ)
      → ((c : Confirmed) (s : Session) → confirmed ≡ some c → P s → Q (ok 0) (keep_key c.key s))
      → Leads (Held P) (Ends Q) (poll_phase w (pairing init confirmed announced asked))
  unfolding poll_phase
  poll_phase-Leads init confirmed announced asked k =
      let weaken' = λ (r : Res CallError ℕ) (l : Live w.W). weaken r l.session in
      bind-Leads weaken' _ _ (gets-Keeps _) (λ s. bind-Leads weaken' _ _ (call-Keeps w P _) (λ r.
        bind-Leads weaken' _ _ (gets-Keeps _) (λ time.
          bind-Leads weaken' _ _ (set_phase-Keeps w st _ refl) (λ a.
            bind-Leads weaken' _ _ (lift-Keeps _)
              (λ state. on_state-Leads state r init confirmed _ k)))))

  -- A fresh attempt holds no key to accept.
  pub start_pairing-Leads : Leads (Held P) (Ends Q) (start_pairing w)
  unfolding start_pairing poll_pairing modify gets ◌>>=◌
  start_pairing-Leads =
      bind-Leads (λ r l. weaken r l.session) _ _ (fresh_initiator-Keeps w P)
        (λ init. record {
          at = λ l h.
              (poll_phase-Leads init none false none (λ c s e p. cc)).at _
                (st.phase (pairing init none false none) l.session refl h);
        })

  pub poll_pairing-Leads :
      (init : Initiator) (confirmed : Option Confirmed) (announced : Bool) (asked : Option ℕ)
      (l : Live w.W)
      → l.session.phase ≡ pairing init confirmed announced asked
      → ((c : Confirmed) (s : Session) → confirmed ≡ some c → P s → Q (ok 0) (keep_key c.key s))
      → P l.session
      → Q (poll_pairing w l).0 (poll_pairing w l).1.session
  unfolding poll_pairing gets ◌>>=◌
  poll_pairing-Leads init confirmed announced asked l e k h =
      simp e ((poll_phase-Leads init confirmed announced asked k).at l h)
