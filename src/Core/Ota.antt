-- ===== src/Core/Ota.antt =====
-- Updates, the Companion's side of the decisions: companion/crates/hidfi-core/src/ota.rs. The
-- signature scheme and serde_json are parameters.
pub mod Versions
pub mod Accepted
pub mod Warranted
pub mod Offer
mod Tests
use Prim.Native.String.{String}
use hid_fi.Common.{
  ℕ, ◌*◌, Bool, true, false, not, ◌&&◌, ◌||◌, Option, none, some, ◌>>=◌, List, [], ◌∷◌, ◌++◌, ◌==◌,
  ltb, leb, if◌then◌else◌, length, take, all,
}
use hid_fi.Common.Text.{Text, codes, eq, is_empty, is_ascii_digit, is_some_text, utf8}
use hid_fi.Core.Crates.{Hex}
use hid_fi.Core.Ota.Versions.{Version, later, parse_version, plain_version}

abbrev pub comp_api_min : ℕ
comp_api_min = 1

abbrev pub comp_api_max : ℕ
comp_api_max = 1

pub record ManifestSig : Type 0 where
  pub key_id : Text
  pub sig : Text

-- p256 and sha2.
pub record Signing : Type 1 where
  pub Signature : Type 0
  pub Key : Type 0
  pub sha256 : List ℕ → List ℕ
  pub from_slice : List ℕ → Option Signature
  pub from_sec1_bytes : List ℕ → Option Key
  pub verify : Key → List ℕ → Signature → Bool

pub record BoardStatus : Type 0 where
  pub firmware : Option Text
  pub comp_api : Option ℕ
  pub ota_layout : Option Text
  pub ota_state : Option Text
  pub ota_result : Option Text

pub record Latest : Type 0 where
  pub firmware : Text
  pub board_comp_api : ℕ × ℕ
  pub companion : Option Text

pub data Verdict : Type 0 where
  up_to_date verifying update_board_first update_companion_first unknown : Verdict
  board_update : Text → Bool → Verdict
  companion_update : Text → Verdict

abbrev pub or_one : Option ℕ → ℕ
or_one none = 1
or_one (some n) = n

unfoldable pub protocol_verdicts : ℕ → List Verdict
protocol_verdicts api =
    if ltb api comp_api_min
    then update_board_first ∷ []
    else if ltb comp_api_max api
    then update_companion_first ∷ []
    else []

abbrev pub newer : Option Version → Version → Bool
newer none v = false
newer (some to) v = later to v

unfoldable pub board_verdicts : BoardStatus → Version → Option Latest → List Verdict
board_verdicts b fw none = []
board_verdicts b fw (some l) =
    if newer (parse_version l.firmware) fw
    then board_update l.firmware (not (is_some_text b.ota_layout (codes "two_slot"))) ∷ []
    else []

abbrev pub companion_newer : Text → Option Version → List Verdict
companion_newer c none = []
companion_newer c (some me) = if newer (parse_version c) me then companion_update c ∷ [] else []

unfoldable pub companion_verdicts : Text → Option Latest → List Verdict
companion_verdicts this_companion none = []
companion_verdicts this_companion (some l) = elim l.companion [
  | none ↦ []
  | some c ↦ companion_newer c (parse_version this_companion)
]

abbrev pub or_up_to_date : List Verdict → List Verdict
or_up_to_date [] = up_to_date ∷ []
or_up_to_date (v ∷ vs) = v ∷ vs

unfoldable pub verdicts_of : BoardStatus → Text → Option Latest → Version → List Verdict
unfolding protocol_verdicts board_verdicts companion_verdicts
verdicts_of b this_companion latest fw =
    if is_some_text b.ota_state (codes "pending_verify")
    then verifying ∷ []
    else or_up_to_date (
        protocol_verdicts (or_one b.comp_api)
        ++ (board_verdicts b fw latest ++ companion_verdicts this_companion latest))

abbrev pub of_firmware : Option Version → (Version → List Verdict) → List Verdict
of_firmware none f = unknown ∷ []
of_firmware (some fw) f = f fw

unfoldable pub verdicts : BoardStatus → Text → Option Latest → List Verdict
unfolding verdicts_of
verdicts b this_companion latest =
    of_firmware (b.firmware >>= parse_version) (verdicts_of b this_companion latest)

pub record Asset : Type 0 where
  pub name : Text
  pub size : ℕ
  pub sha256 : Text

pub record ChangelogSection : Type 0 where
  pub version : Text
  pub text : Text

-- The assets by the name of their system.
pub record CompanionRelease : Type 0 where
  pub version : Text
  pub assets : List (Text × Asset)

pub record Release : Type 0 where
  pub format : ℕ
  pub product : Text
  pub chip : Text
  pub version : Text
  pub firmware : Text
  pub released : Text
  pub support_until : Text
  pub image : Asset
  pub min_from : Text
  pub security : Bool
  pub risk : Text
  pub comp_api : ℕ × ℕ
  pub changelog : List ChangelogSection
  pub companion : Option CompanionRelease
  pub table : Option Asset

pub data ReleaseError : Type 0 where
  bad_signature image_mismatch : ReleaseError
  not_for_us : Text → ReleaseError

pub data Reading : Type 0 where
  ok : Release → Reading
  err : ReleaseError → Reading

abbrev pub manifest_format : ℕ
manifest_format = 1

abbrev pub manifest_cap : ℕ
manifest_cap = 24 * 1024

unfoldable pub is_sha256_hex : Text → Bool
is_sha256_hex s =
    length (utf8 s) == 64 && all (λ b. is_ascii_digit b || (leb b'a' b && leb b b'f')) (utf8 s)

unfoldable pub is_name_byte : ℕ → Bool
is_name_byte b =
    is_ascii_digit b
    || leb b'a' b && leb b b'z'
    || leb b'A' b && leb b b'Z'
    || b == b'.'
    || b == b'-'
    || b == b'_'

unfoldable pub safe_name : Text → Bool
unfolding is_name_byte
safe_name s =
    not (is_empty s)
    && leb (length (utf8 s)) 96
    && not (eq s (codes "."))
    && not (eq s (codes ".."))
    && all is_name_byte (utf8 s)

unfoldable pub usable_asset : Asset → Bool
unfolding is_sha256_hex safe_name
usable_asset a = is_sha256_hex a.sha256 && not (a.size == 0) && safe_name a.name

unfoldable pub usable_table : Option Asset → Bool
unfolding is_sha256_hex safe_name
usable_table none = true
usable_table (some t) = is_sha256_hex t.sha256 && t.size == 0xC00 && safe_name t.name

abbrev pub is_version : Option Version → Bool
is_version none = false
is_version (some v) = true

unfoldable pub usable_companion : Option CompanionRelease → Bool
unfolding usable_asset
usable_companion none = true
usable_companion (some c) =
    is_version (plain_version c.version) && all (λ e. usable_asset e.1) c.assets

abbrev pub bad : String → Reading
bad why = err (not_for_us (codes why))

-- `from < v`, where both can be read.
unfoldable pub above_min_from : Release → Option Bool
above_min_from r = do
  v ← plain_version r.version
  from ← plain_version r.min_from
  some (later v from)

unfoldable pub check_entries : Release → Reading
unfolding usable_asset usable_table usable_companion
check_entries r =
    if not (usable_asset r.image)
    then bad "unusable image entry"
    else if not (usable_table r.table)
    then bad "unusable table entry"
    else if not (usable_companion r.companion)
    then bad "unusable companion entry"
    else ok r

unfoldable pub check_versions : Release → Option Bool → Reading
unfolding check_entries
check_versions r none = bad "unreadable version"
check_versions r (some above) =
    if not (eq r.firmware (codes "hid_fi_v" ++ r.version)) || not above
    then bad "inconsistent versions"
    else check_entries r

unfoldable pub check_release : Release → Reading
unfolding check_versions above_min_from
check_release r =
    if not (r.format == manifest_format)
    then bad "unknown manifest format"
    else if not (eq r.product (codes "hid-fi")) || not (eq r.chip (codes "esp32s3"))
    then bad "not a HID-Fi ESP32-S3 release"
    else check_versions r (above_min_from r)

module _ (c : Signing) (hex : Hex) where
  unfoldable pub key_id : List ℕ → Text
  key_id public_key = hex.encode (take 8 (c.sha256 public_key))

  abbrev pub verified : List ℕ → c.Signature → Option c.Key → Bool
  verified manifest signature none = false
  verified manifest signature (some vk) = c.verify vk manifest signature

  -- The loop over the trusted keys.
  unfoldable pub verify_by : List ℕ → Text → c.Signature → List (List ℕ) → Bool
  unfolding key_id
  verify_by manifest id signature [] = false
  verify_by manifest id signature (k ∷ ks) =
      let rest = verify_by manifest id signature ks in
      if not (eq (key_id k) id) then rest else verified manifest signature (c.from_sec1_bytes k)

  abbrev pub verify_signature : List ℕ → Text → List (List ℕ) → Option c.Signature → Bool
  verify_signature manifest id trusted none = false
  verify_signature manifest id trusted (some signature) = verify_by manifest id signature trusted

  abbrev pub verify_raw : List ℕ → Text → List (List ℕ) → Option (List ℕ) → Bool
  verify_raw manifest id trusted none = false
  verify_raw manifest id trusted (some raw) =
      if not (length raw == 64) || is_empty manifest
      then false
      else verify_signature manifest id trusted (c.from_slice raw)

  unfoldable pub verify_manifest : List ℕ → ManifestSig → List (List ℕ) → Bool
  unfolding verify_by
  verify_manifest manifest sig trusted = verify_raw manifest sig.key_id trusted (hex.decode sig.sig)

  -- serde_json, for the two files.
  module _ (read_sig : List ℕ → Option ManifestSig) (read_fields : List ℕ → Option Release) where
    abbrev pub check_fields : Option Release → Reading
    check_fields none = bad "missing field"
    check_fields (some r) = check_release r

    abbrev pub check_signature : List ℕ → List (List ℕ) → Option ManifestSig → Reading
    check_signature manifest trusted none = err bad_signature
    check_signature manifest trusted (some sig) =
        if not (verify_manifest manifest sig trusted)
        then err bad_signature
        else check_fields (read_fields manifest)

    unfoldable pub read_release : List ℕ → List ℕ → List (List ℕ) → Reading
    unfolding verify_manifest check_release
    read_release manifest sig_file trusted =
        if ltb manifest_cap (length manifest)
        then bad "manifest too large"
        else check_signature manifest trusted (read_sig sig_file)

  unfoldable pub asset_matches : Asset → List ℕ → Bool
  asset_matches a bytes = length bytes == a.size && eq (hex.encode (c.sha256 bytes)) a.sha256

unfoldable pub reachable_from : Release → Text → Bool
reachable_from r running = elim (parse_version running) [
  | none ↦ false
  | some v ↦ elim (parse_version r.min_from) [ none ↦ false | some m ↦ not (later m v) ]
]
