-- ===== src/App/Updates/Offered.antt =====
-- What is offered for a board: `offer` of updates.rs.
use hid_fi.Common.{
  ◌≡◌, refl, inl, inr, arith, Bool, true, false, not, ◌&&◌, Option, none, some, List, any,
  Bool-cases, [], ◌∷◌, All,
}
use hid_fi.Common.Text.{Text, codes, is_some_text, is_some_text_sound}
use hid_fi.Core.Ota.{BoardStatus, Latest, Verdict, Release, reachable_from, verdicts}
use hid_fi.Core.Ota.Warranted.{
  Warranted, unreadable, proving, board_behind, companion_behind, board_older, companion_older,
  nothing_newer, verdicts-Warranted,
}
use hid_fi.App.Updates.{
  Seen, Offer, has_engine, cable_once_in, board_offer, with_release, offer_for, offer, core,
  latest_in, is_verifying, is_companion_first, is_unknown,
}

-- Whether an offer is of an update over the air.
unfoldable pub over_air : Offer → Bool
over_air (Offer.board to size changes security air once) = air
over_air _ = false

-- What an update over the air takes: a board that answers, is paired, has two slots and the update
-- engine and runs a firmware that the release updates from, and a known release.
pub record ByAir (seen : Option Seen) (rel : Option Release) (reachable : Bool) : Type 0 where
  pub status : Seen
  pub release : Release
  pub running : Text
  pub answered : seen ≡ some status
  pub known : rel ≡ some release
  pub runs : status.firmware ≡ some running
  pub paired : reachable ≡ true
  pub slots : status.layout ≡ some (codes "two_slot")
  pub engine : has_engine status ≡ true
  pub from : reachable_from release running ≡ true

all_four :
    (a b c d : Bool)
    → (not a && b && c && d) ≡ true
    → (a ≡ false) × (b ≡ true) × (c ≡ true) × (d ≡ true)
all_four a b c d h = (ground arith, ground arith, ground arith, ground arith)

-- A verdict names the cable only where the board does not have two slots.
abbrev ByLayout : Option Text → Verdict → Type 0
ByLayout layout (Verdict.board_update to once) = once ≡ not (is_some_text layout (codes "two_slot"))
ByLayout layout _ = Unit

Warranted-ByLayout :
    (b : BoardStatus) (me : Text) (latest : Option Latest) (v : Verdict)
    → Warranted b me latest v
    → ByLayout b.ota_layout v
Warranted-ByLayout b me latest v (board_older l fw to e f t k) = refl
Warranted-ByLayout b me latest v (companion_older l c mine to e f t k m) = tt
Warranted-ByLayout b me latest v (unreadable h) = tt
Warranted-ByLayout b me latest v (proving h) = tt
Warranted-ByLayout b me latest v (board_behind h) = tt
Warranted-ByLayout b me latest v (companion_behind h) = tt
Warranted-ByLayout b me latest v (nothing_newer fw e p low high q r) = tt

cable_once_in-ByLayout :
    (b : BoardStatus) (me : Text) (latest : Option Latest) (vs : List Verdict) (once : Bool)
    → All (Warranted b me latest) vs
    → cable_once_in vs ≡ some once
    → once ≡ not (is_some_text b.ota_layout (codes "two_slot"))
unfolding cable_once_in
cable_once_in-ByLayout b me latest [] once hs h = cc
cable_once_in-ByLayout b me latest (Verdict.board_update to c ∷ vs) once (w, hs) h =
    let is : c ≡ not (is_some_text b.ota_layout (codes "two_slot")) =
      Warranted-ByLayout b me latest (Verdict.board_update to c) w in
    cc
cable_once_in-ByLayout b me latest (Verdict.companion_update to ∷ vs) once (w, hs) h =
    cable_once_in-ByLayout b me latest vs once hs h
cable_once_in-ByLayout b me latest (Verdict.up_to_date ∷ vs) once (w, hs) h =
    cable_once_in-ByLayout b me latest vs once hs h
cable_once_in-ByLayout b me latest (Verdict.verifying ∷ vs) once (w, hs) h =
    cable_once_in-ByLayout b me latest vs once hs h
cable_once_in-ByLayout b me latest (Verdict.update_board_first ∷ vs) once (w, hs) h =
    cable_once_in-ByLayout b me latest vs once hs h
cable_once_in-ByLayout b me latest (Verdict.update_companion_first ∷ vs) once (w, hs) h =
    cable_once_in-ByLayout b me latest vs once hs h
cable_once_in-ByLayout b me latest (Verdict.unknown ∷ vs) once (w, hs) h =
    cable_once_in-ByLayout b me latest vs once hs h

-- What the cable's part of a verdict says of the board.
abbrev Told : Seen → Option Bool → Type 0
Told s none = Unit
Told s (some once) = once ≡ not (is_some_text s.layout (codes "two_slot"))

verdicts-Told :
    (s : Seen) (me : Text) (latest : Option Latest) (o : Option Bool)
    → cable_once_in (verdicts (core s) me latest) ≡ o
    → Told s o
unfolding core
verdicts-Told s me latest none h = tt
verdicts-Told s me latest (some once) h =
    cable_once_in-ByLayout (core s) me latest (verdicts (core s) me latest) once
      (verdicts-Warranted (core s) me latest).0 h

two_slots :
    (s : Seen) (once : Bool)
    → once ≡ false
    → once ≡ not (is_some_text s.layout (codes "two_slot"))
    → s.layout ≡ some (codes "two_slot")
two_slots s once e t = is_some_text_sound s.layout (codes "two_slot") (ground arith)

board_offer-ByAir :
    (s : Seen) (r : Release) (fw : Text) (reachable : Bool) (once : Option Bool)
    → s.firmware ≡ some fw
    → Told s once
    → over_air (board_offer s r fw reachable once) ≡ true
    → ByAir (some s) (some r) reachable
unfolding board_offer over_air
board_offer-ByAir s r fw reachable none e t h = cc
board_offer-ByAir s r fw reachable (some once) e t h =
    let (o, p, g, f) = all_four once reachable (has_engine s) (reachable_from r fw) h in
    record {
      status = s;
      release = r;
      running = fw;
      answered = refl;
      known = refl;
      runs = e;
      paired = p;
      slots = two_slots s once o t;
      engine = g;
      from = f;
    }

with_release-ByAir :
    (s : Seen) (reachable : Bool) (vs : List Verdict) (rel : Option Release) (fw : Option Text)
    → s.firmware ≡ fw
    → Told s (cable_once_in vs)
    → over_air (with_release s reachable vs rel fw) ≡ true
    → ByAir (some s) rel reachable
unfolding over_air
with_release-ByAir s reachable vs none fw e t h = cc
with_release-ByAir s reachable vs (some r) none e t h = cc
with_release-ByAir s reachable vs (some r) (some fw) e t h =
    board_offer-ByAir s r fw reachable (cable_once_in vs) e t h

offer_for-ByAir :
    (s : Seen) (rel : Option Release) (reachable : Bool) (vs : List Verdict)
    → Told s (cable_once_in vs)
    → over_air (offer_for s rel reachable vs) ≡ true
    → ByAir (some s) rel reachable
unfolding offer_for over_air
offer_for-ByAir s rel reachable vs t h = elim (Bool-cases (any is_verifying vs)) [
  | inl a ↦ cc (rw a at h)
  | inr a ↦ elim (Bool-cases (any is_companion_first vs)) [
    | inl b ↦ cc (rw (a, b) at h)
    | inr b ↦ elim (Bool-cases (any is_unknown vs)) [
      | inl c ↦ cc (rw (a, b, c) at h)
      | inr c ↦ with_release-ByAir s reachable vs rel s.firmware refl t (rw (a, b, c) at h)
    ]
  ]
]

-- An update over the air is offered only for a board that answers, is paired, has the two-slot layout
-- and the update engine and runs a firmware that a known release updates from.
pub offer-ByAir :
    (seen : Option Seen) (rel : Option Release) (this_companion : Text) (reachable : Bool)
    → over_air (offer seen rel this_companion reachable) ≡ true
    → ByAir seen rel reachable
unfolding offer over_air
offer-ByAir none rel this_companion reachable h = cc
offer-ByAir (some s) rel this_companion reachable h =
    offer_for-ByAir s rel reachable (verdicts (core s) this_companion (latest_in rel))
      (verdicts-Told s this_companion (latest_in rel) _ refl) h
