-- ===== src/Core/Ota/Offer.antt =====
-- What a release tells the Companion: the methods of `Release` in ota.rs.
use hid_fi.Common.{
  ◌≡◌, refl, sym, ◌⊎◌, inl, inr, ◌↔◌, Bool-cases, true, Option, none, some, ◌>>=◌, List, [], ◌∷◌,
  if◌then◌else◌,
}
use hid_fi.Common.Text.{Text, eq}
use hid_fi.Core.Ota.Versions.{Version, parse_version}
use hid_fi.Core.Ota.{Latest, Asset, ChangelogSection, CompanionRelease, Release, newer}

abbrev pub companion_version : Option CompanionRelease → Option Text
companion_version none = none
companion_version (some c) = some c.version

unfoldable pub latest_of : Release → Latest
latest_of r = record {
  firmware = r.version;
  board_comp_api = r.comp_api;
  companion = companion_version r.companion;
}

unfoldable pub newer_sections : Version → List ChangelogSection → List ChangelogSection
newer_sections v [] = []
newer_sections v (s ∷ ss) =
    let rest = newer_sections v ss in if newer (parse_version s.version) v then s ∷ rest else rest

abbrev pub since : Option Version → List ChangelogSection → List ChangelogSection
since none ss = []
since (some v) ss = newer_sections v ss

unfoldable pub changes_since : Release → Text → List ChangelogSection
unfolding newer_sections
changes_since r running = since (parse_version running) r.changelog

unfoldable pub asset_for : Text → List (Text × Asset) → Option Asset
asset_for os [] = none
asset_for os ((name, a) ∷ es) = let rest = asset_for os es in if eq name os then some a else rest

unfoldable pub companion_asset : Release → Text → Option Asset
unfolding asset_for
companion_asset r os = do c ← r.companion; asset_for os c.assets

-- A section of the list.
pub Contains : ChangelogSection → List ChangelogSection → Type 0
Contains s [] = ⊥
Contains s (t ∷ ts) = (s ≡ t) ⊎ Contains s ts

Shown : ChangelogSection → Version → List ChangelogSection → Type 0
Shown s v ss = Contains s ss × (newer (parse_version s.version) v ≡ true)

newer_sections_sound :
    (s : ChangelogSection) (v : Version) (ss : List ChangelogSection)
    → Contains s (newer_sections v ss)
    → Shown s v ss
unfolding newer_sections Contains Shown
newer_sections_sound s v [] h = elim h [ ]
newer_sections_sound s v (t ∷ ts) h = elim (Bool-cases (newer (parse_version t.version) v)) [
  | inl p ↦ elim (rw p at h) as (λ x. Shown s v (t ∷ ts)) [
    | inl e ↦ (inl e, rw e p)
    | inr c ↦ let (c', k) = newer_sections_sound s v ts c in (inr c', k)
  ]
  | inr p ↦ let (c, k) = newer_sections_sound s v ts (rw p at h) in (inr c, k)
]

newer_sections_complete :
    (s : ChangelogSection) (v : Version) (ss : List ChangelogSection)
    → Shown s v ss
    → Contains s (newer_sections v ss)
unfolding newer_sections Contains Shown
newer_sections_complete s v [] (h, k) = elim h [ ]
newer_sections_complete s v (t ∷ ts) (inl e, k) = rw (sym e, k) (inl refl)
newer_sections_complete s v (t ∷ ts) (inr h, k) =
    elim (Bool-cases (newer (parse_version t.version) v)) [
      | inl p ↦ rw p (inr (newer_sections_complete s v ts (h, k)))
      | inr p ↦ rw p (newer_sections_complete s v ts (h, k))
    ]

-- From a version that can be read, the sections shown are exactly those of the changelog whose
-- version can be read and is later.
pub changes_since_iff :
    (r : Release) (running : Text) (v : Version) (s : ChangelogSection)
    → parse_version running ≡ some v
    → Contains s (changes_since r running)
      ↔ (Contains s r.changelog × (newer (parse_version s.version) v ≡ true))
unfolding changes_since Shown
changes_since_iff r running v s e =
    rw e (newer_sections_sound s v r.changelog, newer_sections_complete s v r.changelog)
