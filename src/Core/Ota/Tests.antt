-- ===== src/Core/Ota/Tests.antt =====
-- Runs of the versions, and the theorems at an accepted release and a board behind it.
use hid_fi.Common.{
  ◌≡◌, ◌≢◌, refl, ℕ, true, false, Option, none, some, List, [], ◌∷◌, All, replicate,
}
use hid_fi.Common.Text.{codes, eq, utf8, utf8_char, is_ascii_digit}
use hid_fi.Core.Crates.{Hex}
use hid_fi.Core.Ota.Versions.{
  Version, later, parse_version, plain_version, after_last, strip_v, core_of, split_dots,
  version_of, number,
}
use hid_fi.Core.Ota.{
  Signing, ManifestSig, BoardStatus, Latest, Asset, Release, ok, verdicts, read_release, key_id,
  verify_by, verify_manifest, above_min_from, check_release, check_versions, check_entries,
  usable_asset, usable_table, usable_companion, is_sha256_hex, safe_name, is_name_byte,
  reachable_from,
}
use hid_fi.Core.Ota.Accepted.{Accepted, read_release-Accepted}
use hid_fi.Core.Ota.Warranted.{Warranted, verdicts-Warranted}

abbrev version : ℕ → ℕ → ℕ → Version
version a b c = record { major = a; minor = b; patch = c }

versions :
    (parse_version (codes "hid_fi_v4.0.4") ≡ some (version 4 0 4))
    × (parse_version (codes "V4.1") ≡ some (version 4 1 0))
    × (parse_version (codes "4.1.0-rc1") ≡ some (version 4 1 0))
    × (parse_version (codes "4.1.") ≡ none)
    × (parse_version (codes "4") ≡ none)
    × (plain_version (codes "v4.1") ≡ none)
unfolding plain_version parse_version after_last strip_v core_of split_dots version_of number
    is_ascii_digit utf8 utf8_char
versions = (refl, refl, refl, refl, refl, refl)

-- A scheme that accepts every signature, with bytes for their own digest and hex.
abbrev signing : Signing
signing = record {
  Signature = List ℕ;
  Key = List ℕ;
  sha256 = λ bytes. bytes;
  from_slice = λ raw. some raw;
  from_sec1_bytes = λ k. some k;
  verify = λ k message s. true;
}

abbrev hex : Hex
hex = record { encode = λ bytes. bytes; decode = λ t. some (replicate 64 1) }

abbrev sig : ManifestSig
sig = record { key_id = 2 ∷ []; sig = [] }

abbrev image : Asset
image = record { name = codes "hid_fi.bin"; size = 5; sha256 = replicate 64 b'a' }

abbrev release : Release
release = record {
  format = 1;
  product = codes "hid-fi";
  chip = codes "esp32s3";
  version = codes "4.1.0";
  firmware = codes "hid_fi_v4.1.0";
  released = [];
  support_until = [];
  image = image;
  min_from = codes "4.0";
  security = false;
  risk = [];
  comp_api = (1, 1);
  changelog = [];
  companion = none;
  table = none;
}

read :
    read_release signing hex
      (λ f. some sig)
      (λ m. some release)
      (7 ∷ [])
      []
      ((3 ∷ []) ∷ (2 ∷ []) ∷ [])
    ≡ ok release
unfolding read_release verify_manifest verify_by key_id check_release check_versions check_entries
    above_min_from usable_asset usable_table usable_companion is_sha256_hex safe_name is_name_byte
    plain_version parse_version after_last strip_v core_of split_dots version_of number later eq
    is_ascii_digit utf8 utf8_char
read = refl

read_release-Accepted_example :
    Accepted signing hex
      (λ f. some sig)
      (λ m. some release)
      (7 ∷ [])
      []
      ((3 ∷ []) ∷ (2 ∷ []) ∷ [])
      release
read_release-Accepted_example =
    read_release-Accepted signing hex (λ f. some sig) (λ m. some release) (7 ∷ []) []
      ((3 ∷ []) ∷ (2 ∷ []) ∷ []) release read

reaches :
    (reachable_from release (codes "hid_fi_v4.0.4") ≡ true)
    × (reachable_from release (codes "3.9") ≡ false)
unfolding reachable_from parse_version after_last strip_v core_of split_dots version_of number later
    is_ascii_digit utf8 utf8_char
reaches = (refl, refl)

abbrev behind : BoardStatus
behind = record {
  firmware = some (codes "hid_fi_v4.0.4");
  comp_api = none;
  ota_layout = none;
  ota_state = none;
  ota_result = none;
}

abbrev latest : Option Latest
latest = some (record { firmware = codes "4.1.0"; board_comp_api = (1, 1); companion = none })

verdicts-Warranted_example :
    All (Warranted behind (codes "4.0") latest) (verdicts behind (codes "4.0") latest)
    × (verdicts behind (codes "4.0") latest ≢ [])
verdicts-Warranted_example = verdicts-Warranted behind (codes "4.0") latest

abbrev told : Release
told = record release {
  changelog =
      record { version = codes "4.1"; text = [] }
      ∷ record { version = codes "4.0"; text = [] }
      ∷ [];
}

reads : parse_version (codes "4.0") ≡ some (version 4 0 0)
unfolding parse_version after_last strip_v core_of split_dots version_of number is_ascii_digit utf8
    utf8_char
reads = refl
