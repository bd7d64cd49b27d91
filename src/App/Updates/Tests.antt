-- ===== src/App/Updates/Tests.antt =====
-- Boards that are offered an update, and the theorems there.
use hid_fi.Common.{◌≡◌, refl, ◌*◌, true, false, none, some, List, [], ◌∷◌}
use hid_fi.Common.Text.{codes, eq, is_some_text, utf8, utf8_char, is_ascii_digit}
use hid_fi.Core.Ota.Versions.{
  parse_version, after_last, strip_v, core_of, split_dots, version_of, number, later,
}
use hid_fi.Core.Ota.{
  Release, Asset, verdicts, verdicts_of, protocol_verdicts, board_verdicts, companion_verdicts,
  reachable_from,
}
use hid_fi.Core.Ota.Offer.{latest_of}
use hid_fi.App.Updates.{
  Seen, Job, com_port, ComPort, plan, check_every, offer, core, offer_for, board_offer,
  cable_once_in, has_engine, air_phase, restarted_phase, same_version, cable_plan, path_for,
  find_serial, retry_delay, release_due,
}
use hid_fi.App.Updates.Cable.{Sound, Still, cable_plan-Sound}
use hid_fi.App.Updates.Offered.{over_air, ByAir, offer-ByAir}

abbrev image : Asset
image = record { name = codes "hid_fi.bin"; size = 1000; sha256 = [] }

abbrev next_release : Release
next_release = record {
  format = 1;
  product = codes "hid-fi";
  chip = codes "esp32s3";
  version = codes "4.2.0";
  firmware = codes "hid_fi_v4.2.0";
  released = [];
  support_until = [];
  image = image;
  min_from = codes "4.1.0";
  security = false;
  risk = [];
  comp_api = (1, 1);
  changelog = [];
  companion = none;
  table = none;
}

abbrev seen_board : Seen
seen_board = record {
  firmware = some (codes "hid_fi_v4.1.0");
  layout = some (codes "two_slot");
  state = some (codes "valid");
  result = none;
  step = codes "idle";
  bytes = 0;
  total = 0;
  paused = false;
  available = [];
  error = [];
  comp_api = some 1;
  uptime = 40;
}

offered : over_air (offer (some seen_board) (some next_release) (codes "4.1.0") true) ≡ true
unfolding over_air offer core verdicts verdicts_of protocol_verdicts board_verdicts
    companion_verdicts offer_for board_offer cable_once_in has_engine reachable_from parse_version
    after_last strip_v core_of split_dots version_of number later is_ascii_digit utf8 utf8_char eq
    is_some_text latest_of
offered = refl

offer-ByAir_example : ByAir (some seen_board) (some next_release) true
offer-ByAir_example = offer-ByAir (some seen_board) (some next_release) (codes "4.1.0") true offered

installed : air_phase seen_board 100 (codes "4.1.0") ≡ Job.done (codes "4.1.0")
unfolding air_phase restarted_phase same_version parse_version after_last strip_v core_of split_dots
    version_of number is_ascii_digit utf8 utf8_char eq is_some_text
installed = refl

abbrev two_ports : List ComPort
two_ports =
    record { path = codes "COM3"; serial = some (codes "A1") }
    ∷ record { path = codes "COM4"; serial = some (codes "B2") }
    ∷ []

planned :
    cable_plan (some seen_board) true two_ports (some (codes "B2")) false
    ≡ plan (com_port (codes "COM4"))
unfolding cable_plan path_for find_serial has_engine eq is_some_text
planned = refl

cable_plan-Sound_example :
    Sound (some seen_board) true two_ports (some (codes "B2")) (com_port (codes "COM4"))
    × Still (some seen_board)
cable_plan-Sound_example =
    cable_plan-Sound (some seen_board) true two_ports (some (codes "B2")) false
      (com_port (codes "COM4")) planned

delays : (retry_delay 1 ≡ 60) × (retry_delay 4 ≡ 480) × (retry_delay 30 ≡ check_every)
unfolding retry_delay
delays = (refl, refl, refl)

looks_again :
    (release_due 10 20 ≡ false) × (release_due 20 10 ≡ true) × (release_due 0 (2 * 86400) ≡ true)
unfolding release_due
looks_again = (refl, refl, refl)
