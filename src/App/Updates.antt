-- ===== src/App/Updates.antt =====
-- What a board is offered, what its update is doing and how a cable reaches it:
-- companion/crates/hidfi-companion/src/updates.rs and updates/center.rs. Durations are seconds. What
-- a status holds is serde_json's, so `Seen` is where the model begins.
pub mod Offered
pub mod Cable
mod Tests
use hid_fi.Common.{
  ℕ, zero, suc, ◌+◌, ◌-◌, ◌*◌, ◌^◌, min, Bool, true, false, not, ◌&&◌, ◌||◌, Option, none, some,
  ◌>>=◌, List, [], ◌∷◌, ◌++◌, ◌==◌, leb, ltb, if◌then◌else◌, any,
}
use hid_fi.Common.Text.{Text, codes, eq, is_empty, is_some_text, trim}
use hid_fi.Core.Ota.Versions.{Version, parse_version, later}
use hid_fi.Core.Ota.{
  BoardStatus, Verdict, verdicts, Asset, ChangelogSection, Release, Latest, reachable_from,
}
use hid_fi.Core.Ota.Offer.{latest_of, changes_since, companion_asset}

abbrev pub check_every : ℕ
check_every = 24 * 3600

pub data Offer : Type 0 where
  unknown up_to_date verifying update_companion_first : Offer
  board : Text → ℕ → List (Text × Text) → Bool → Bool → Bool → Offer  -- to, size, changes, security, over_air, cable_once

pub record Seen : Type 0 where
  pub firmware : Option Text
  pub layout : Option Text
  pub state : Option Text
  pub result : Option Text
  pub step : Text
  pub bytes : ℕ
  pub total : ℕ
  pub paused : Bool
  pub available : Text
  pub error : Text
  pub comp_api : Option ℕ
  pub uptime : ℕ

abbrev pub is_some : {A : Type 0} → Option A → Bool
is_some none = false
is_some (some a) = true

unfoldable pub has_engine : Seen → Bool
has_engine s = is_some s.layout

unfoldable pub core : Seen → BoardStatus
core s = record {
  firmware = s.firmware;
  comp_api = s.comp_api;
  ota_layout = s.layout;
  ota_state = s.state;
  ota_result = s.result;
}

abbrev pub is_verifying : Verdict → Bool
is_verifying Verdict.verifying = true
is_verifying _ = false

abbrev pub is_companion_first : Verdict → Bool
is_companion_first Verdict.update_companion_first = true
is_companion_first _ = false

abbrev pub is_unknown : Verdict → Bool
is_unknown Verdict.unknown = true
is_unknown _ = false

-- `find_map`, the board's update.
unfoldable pub cable_once_in : List Verdict → Option Bool
cable_once_in [] = none
cable_once_in (Verdict.board_update to once ∷ vs) = some once
cable_once_in (_ ∷ vs) = cable_once_in vs

unfoldable pub sections_of : List ChangelogSection → List (Text × Text)
sections_of [] = []
sections_of (s ∷ ss) = (s.version, trim s.text) ∷ sections_of ss

-- A release for the board, or none.
unfoldable pub board_offer : Seen → Release → Text → Bool → Option Bool → Offer
unfolding sections_of changes_since reachable_from has_engine
board_offer seen rel fw paired_and_reachable none = Offer.up_to_date
board_offer seen rel fw paired_and_reachable (some once) =
    Offer.board rel.version rel.image.size (sections_of (changes_since rel fw)) rel.security
      (not once && paired_and_reachable && has_engine seen && reachable_from rel fw) once

abbrev pub with_release : Seen → Bool → List Verdict → Option Release → Option Text → Offer
with_release seen reachable vs (some rel) (some fw) =
    board_offer seen rel fw reachable (cable_once_in vs)
with_release seen reachable vs _ _ = Offer.unknown

unfoldable pub offer_for : Seen → Option Release → Bool → List Verdict → Offer
unfolding board_offer cable_once_in
offer_for seen rel reachable vs =
    if any is_verifying vs
    then Offer.verifying
    else if any is_companion_first vs
    then Offer.update_companion_first
    else if any is_unknown vs
    then Offer.unknown
    else with_release seen reachable vs rel seen.firmware

abbrev pub latest_in : Option Release → Option Latest
latest_in none = none
latest_in (some r) = some (latest_of r)

unfoldable pub offer : Option Seen → Option Release → Text → Bool → Offer
unfolding core verdicts offer_for
offer none rel this_companion reachable = Offer.unknown
offer (some seen) rel this_companion reachable =
    offer_for seen rel reachable (verdicts (core seen) this_companion (latest_in rel))

pub data Job : Type 0 where
  idle checking ready restarting verifying rolled_back stopped : Job
  downloading : ℕ → ℕ → Bool → Job
  cable : Text → ℕ → ℕ → Job
  done : Text → Job
  failed : Text → Job

-- `==` of versions, where there are any.
unfoldable pub same_version : Option Version → Option Version → Bool
same_version none none = true
same_version (some a) (some b) = a.major == b.major && a.minor == b.minor && a.patch == b.patch
same_version _ _ = false

unfoldable pub board_error : Text → Text
board_error code =
    if eq code (codes "no_connection")
    then codes "the board could not reach the release"
    else if eq code (codes "bad_signature")
    then codes "the release is not signed by HID-Fi - nothing was installed"
    else if eq code (codes "bad_manifest")
    then codes "the release description could not be read"
    else if eq code (codes "hash") || eq code (codes "flash_verify")
    then codes "the downloaded firmware did not match - nothing was installed"
    else if eq code (codes "flash_write") || eq code (codes "flash_read")
    then codes "the board could not write its flash - nothing was switched"
    else if eq code (codes "too_big")
    then codes "the release does not fit this board"
    else if eq code (codes "memory")
    then codes "the board ran short of memory - try again"
    else if eq code (codes "single_slot")
    then codes "the board needs the cable once"
    else if eq code (codes "nothing_to_install")
    then codes "there is nothing to install"
    else if eq code (codes "cancelled")
    then codes "stopped"
    else codes "the board stopped the update"

-- The board has restarted, or is proving the new firmware.
unfoldable pub restarted_phase : Seen → Text → Job
unfolding same_version
restarted_phase seen to =
    if is_some_text seen.state (codes "pending_verify")
    then Job.verifying
    else if is_some_text seen.result (codes "rolled_back")
    then Job.rolled_back
    else if is_some_text seen.state (codes "valid")
    then (if same_version (seen.firmware >>= parse_version) (parse_version to)
        then Job.done to
        else Job.rolled_back)
    else Job.restarting

unfoldable pub engine_phase : Seen → Job
unfolding board_error
engine_phase seen =
    if eq seen.step (codes "checking")
    then Job.checking
    else if eq seen.step (codes "downloading")
        || eq seen.step (codes "verifying")
        || eq seen.step (codes "switching")
    then Job.downloading seen.bytes seen.total seen.paused
    else if eq seen.step (codes "ready")
    then Job.ready
    else if eq seen.error (codes "cancelled")
    then Job.stopped
    else if not (is_empty seen.error)
    then Job.failed (board_error seen.error)
    else Job.idle

unfoldable pub air_phase : Seen → ℕ → Text → Job
unfolding restarted_phase engine_phase
air_phase seen started_uptime to =
    if ltb seen.uptime started_uptime || is_some_text seen.state (codes "pending_verify")
    then restarted_phase seen to
    else engine_phase seen

unfoldable pub needs_relay : Seen → Bool
needs_relay seen = eq seen.step (codes "idle") && eq seen.error (codes "no_connection")

pub data CablePlan : Type 0 where
  native : Option Text → CablePlan
  com_port : Text → CablePlan

pub data Planning : Type 0 where
  plan : CablePlan → Planning
  refuse : Text → Planning

pub record ComPort : Type 0 where
  pub path : Text
  pub serial : Option Text

unfoldable pub find_serial : Text → List ComPort → Option Text
find_serial k [] = none
find_serial k (c ∷ cs) =
    let rest = find_serial k cs in if is_some_text c.serial k then some c.path else rest

abbrev pub only_one : List ComPort → Option Text
only_one (c ∷ []) = some c.path
only_one _ = none

abbrev pub or_this : Option Text → Option Text → Option Text
or_this none o = o
or_this (some p) o = some p

abbrev pub by_com : Option Text → List ComPort → Planning
by_com (some p) ports = plan (com_port p)
by_com none [] = refuse (codes "connect the board's COM port (the second USB-C) to this computer")
by_com none (c ∷ cs) =
    refuse (codes "several boards' COM ports are connected - leave only this board's COM cable in")

abbrev pub choose_path : Option Text → Option Text → Bool → Bool → List ComPort → Planning
choose_path (some p) only native_ok false ports = plan (com_port p)
choose_path mine only native_ok prefer_native ports =
    if native_ok then plan (native (or_this mine only)) else by_com (or_this mine only) ports

abbrev pub native_works : Option Seen → Bool → Bool
native_works none paired = false
native_works (some s) paired = paired && has_engine s

unfoldable pub path_for : Option Seen → Bool → List ComPort → Option Text → Bool → Planning
unfolding find_serial has_engine
path_for seen paired ports known prefer_native =
    choose_path (known >>= λ k. find_serial k ports) (only_one ports) (native_works seen paired)
      prefer_native ports

abbrev busy : Seen → Bool
busy s = not (eq s.step (codes "idle")) && not (eq s.step (codes "ready"))

unfoldable pub cable_plan : Option Seen → Bool → List ComPort → Option Text → Bool → Planning
unfolding path_for
cable_plan none paired ports known prefer_native = path_for none paired ports known prefer_native
cable_plan (some s) paired ports known prefer_native =
    if is_some_text s.state (codes "pending_verify")
    then refuse (codes "the board is proving a new firmware - wait a minute")
    else if busy s
    then refuse (codes "an update over the air is running - let it finish or cancel it")
    else path_for (some s) paired ports known prefer_native

-- `1u64 << n.saturating_sub(1).min(16)` minutes, at most a day.
unfoldable pub retry_delay : ℕ → ℕ
retry_delay n = min (2 ^ min (n - 1) 16 * 60) check_every

-- `next.duration_since(now)` fails where `next` is before `now`.
unfoldable pub release_due : ℕ → ℕ → Bool
release_due now next = ltb next now || (next - now == 0 || ltb check_every (next - now))

unfoldable pub board_ahead : Text → Option Release → Bool
board_ahead firmware none = false
board_ahead firmware (some known) = elim (parse_version firmware) [
  | none ↦ false
  | some b ↦ elim (parse_version known.version) [ none ↦ false | some k ↦ later b k ]
]
