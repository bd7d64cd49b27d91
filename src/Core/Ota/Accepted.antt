-- ===== src/Core/Ota/Accepted.antt =====
-- What an accepted release is: `read_release` and `verify_manifest` of ota.rs.
use hid_fi.Common.{
  ◌≡◌, refl, ◌⊎◌, inl, inr, ℕ, ◌≤◌, arith, Bool, true, not, ◌||◌, Option, none, some, List, [], ◌∷◌,
  ◌++◌, ◌==◌, ltb, length, Bool-cases,
}
use hid_fi.Common.Text.{Text, codes, eq, eq_sound, is_empty}
use hid_fi.Core.Crates.{Hex}
use hid_fi.Core.Ota.{
  Signing, ManifestSig, Release, ok, manifest_cap, manifest_format, usable_asset, usable_table,
  usable_companion, above_min_from, check_entries, check_versions, check_release, key_id, verified,
  verify_by, verify_signature, verify_raw, verify_manifest, check_fields, check_signature,
  read_release,
}

module _ (c : Signing) (hex : Hex) where
  -- The key is one, and the signature over the manifest is right under it.
  pub Verified : List ℕ → List ℕ → c.Signature → Type 0
  Verified manifest k signature =
      (vk : c.Key) × (c.from_sec1_bytes k ≡ some vk) × (c.verify vk manifest signature ≡ true)

  -- The trusted key that a signature was checked with.
  pub SignedBy : List ℕ → Text → c.Signature → List (List ℕ) → Type 0
  SignedBy manifest id signature [] = ⊥
  SignedBy manifest id signature (k ∷ ks) =
      ((key_id c hex k ≡ id) × Verified manifest k signature) ⊎ SignedBy manifest id signature ks

  -- Some 64 bytes are a signature over the manifest by a trusted key with the id that is named.
  pub record Signed (manifest : List ℕ) (sig : ManifestSig) (trusted : List (List ℕ)) : Type 0 where
    pub raw : List ℕ
    pub signature : c.Signature
    pub decoded : hex.decode sig.sig ≡ some raw
    pub raw_len : length raw ≡ 64
    pub parsed : c.from_slice raw ≡ some signature
    pub signed_by : SignedBy manifest sig.key_id signature trusted

  verified_sound :
      (manifest k : List ℕ) (signature : c.Signature) (o : Option c.Key)
      → c.from_sec1_bytes k ≡ o
      → verified c hex manifest signature o ≡ true
      → Verified manifest k signature
  unfolding Verified
  verified_sound manifest k signature none e h = cc
  verified_sound manifest k signature (some vk) e h = (vk, e, h)

  verify_by_sound :
      (manifest : List ℕ) (id : Text) (signature : c.Signature) (ks : List (List ℕ))
      → verify_by c hex manifest id signature ks ≡ true
      → SignedBy manifest id signature ks
  unfolding verify_by SignedBy
  verify_by_sound manifest id signature [] h = cc
  verify_by_sound manifest id signature (k ∷ ks) h = elim (Bool-cases (eq (key_id c hex k) id)) [
    | inl p ↦ inl (eq_sound _ _ p, verified_sound manifest k signature _ refl (rw p at h))
    | inr p ↦ inr (verify_by_sound manifest id signature ks (rw p at h))
  ]

  signature_sound :
      (manifest raw : List ℕ) (sig : ManifestSig) (trusted : List (List ℕ)) (o : Option c.Signature)
      → hex.decode sig.sig ≡ some raw
      → length raw ≡ 64
      → c.from_slice raw ≡ o
      → verify_signature c hex manifest sig.key_id trusted o ≡ true
      → Signed manifest sig trusted
  signature_sound manifest raw sig trusted none d l e h = cc
  signature_sound manifest raw sig trusted (some s) d l e h = record {
    raw = raw;
    signature = s;
    decoded = d;
    raw_len = l;
    parsed = e;
    signed_by = verify_by_sound manifest sig.key_id s trusted h;
  }

  raw_sound :
      (manifest : List ℕ) (sig : ManifestSig) (trusted : List (List ℕ)) (o : Option (List ℕ))
      → hex.decode sig.sig ≡ o
      → verify_raw c hex manifest sig.key_id trusted o ≡ true
      → Signed manifest sig trusted
  raw_sound manifest sig trusted none d h = cc
  raw_sound manifest sig trusted (some raw) d h =
      elim (Bool-cases (not (length raw == 64) || is_empty manifest)) [
        | inl p ↦ cc (rw p at h)
        | inr p ↦ signature_sound manifest raw sig trusted _ d (ground arith) refl (rw p at h)
      ]

  pub verify_manifest_sound :
      (manifest : List ℕ) (sig : ManifestSig) (trusted : List (List ℕ))
      → verify_manifest c hex manifest sig trusted ≡ true
      → Signed manifest sig trusted
  unfolding verify_manifest
  verify_manifest_sound manifest sig trusted h = raw_sound manifest sig trusted _ refl h

pub record Usable (r : Release) : Type 0 where
  pub format : r.format ≡ manifest_format
  pub product : r.product ≡ codes "hid-fi"
  pub chip : r.chip ≡ codes "esp32s3"
  pub firmware : r.firmware ≡ codes "hid_fi_v" ++ r.version
  pub above : above_min_from r ≡ some true
  pub image : usable_asset r.image ≡ true
  pub table : usable_table r.table ≡ true
  pub companion : usable_companion r.companion ≡ true

check_entries_sound :
    (r r' : Release)
    → check_entries r ≡ ok r'
    → (r ≡ r')
      × (usable_asset r.image ≡ true)
      × (usable_table r.table ≡ true)
      × (usable_companion r.companion ≡ true)
unfolding check_entries
check_entries_sound r r' h = ground arith

check_versions_sound :
    (r r' : Release) (o : Option Bool)
    → check_versions r o ≡ ok r'
    → (o ≡ some true)
      × (eq r.firmware (codes "hid_fi_v" ++ r.version) ≡ true)
      × (check_entries r ≡ ok r')
unfolding check_versions
check_versions_sound r r' none h = cc
check_versions_sound r r' (some above) h = ground arith

check_release_sound :
    (r r' : Release)
    → check_release r ≡ ok r'
    → (r.format ≡ manifest_format)
      × (eq r.product (codes "hid-fi") ≡ true)
      × (eq r.chip (codes "esp32s3") ≡ true)
      × (check_versions r (above_min_from r) ≡ ok r')
unfolding check_release
check_release_sound r r' h = ground arith

Usable-check_release : (r r' : Release) → check_release r ≡ ok r' → (r ≡ r') × Usable r
Usable-check_release r r' h =
    let (f, p, c, hv) = check_release_sound r r' h in
    let (a, w, he) = check_versions_sound r r' (above_min_from r) hv in
    let (e, i, t, k) = check_entries_sound r r' he in
    (
      e,
      record {
        format = f;
        product = eq_sound _ _ p;
        chip = eq_sound _ _ c;
        firmware = eq_sound _ _ w;
        above = a;
        image = i;
        table = t;
        companion = k;
      },
    )

-- What stands behind a release that was read.
pub record Accepted (c : Signing) (hex : Hex) (read_sig : List ℕ → Option ManifestSig)
    (read_fields : List ℕ → Option Release) (manifest sig_file : List ℕ) (trusted : List (List ℕ))
    (r : Release) : Type 0 where
  pub sig : ManifestSig
  pub short : length manifest ≤ manifest_cap
  pub sig_read : read_sig sig_file ≡ some sig
  pub signed : Signed c hex manifest sig trusted
  pub fields : read_fields manifest ≡ some r
  pub usable : Usable r

module _ (c : Signing) (hex : Hex) (read_sig : List ℕ → Option ManifestSig)
    (read_fields : List ℕ → Option Release) where
  fields_sound :
      (r : Release) (o : Option Release)
      → check_fields c hex read_sig read_fields o ≡ ok r
      → (o ≡ some r) × Usable r
  fields_sound r none h = cc
  fields_sound r (some r') h = let (e, u) = Usable-check_release r' r h in (rw e refl, rw e at u)

  signed_fields :
      (manifest sig_file : List ℕ) (trusted : List (List ℕ)) (r : Release) (o : Option ManifestSig)
      → read_sig sig_file ≡ o
      → length manifest ≤ manifest_cap
      → check_signature c hex read_sig read_fields manifest trusted o ≡ ok r
      → Accepted c hex read_sig read_fields manifest sig_file trusted r
  signed_fields manifest sig_file trusted r none e l h = cc
  signed_fields manifest sig_file trusted r (some sig) e l h =
      elim (Bool-cases (verify_manifest c hex manifest sig trusted)) [
        | inl p ↦
            let (f, u) = fields_sound r (read_fields manifest) (rw p at h) in
            record {
              sig = sig;
              short = l;
              sig_read = e;
              signed = verify_manifest_sound c hex manifest sig trusted p;
              fields = f;
              usable = u;
            }
        | inr p ↦ cc (rw p at h)
      ]

-- A release that is read has a manifest of at most 24 KiB, over which the signature file holds a
-- signature that a trusted key of the id named there verifies; its fields are those of the manifest,
-- with the known format, product and chip, the firmware named for the version, the version above the
-- lowest to update from, and usable entries.
pub read_release-Accepted :
    (c : Signing) (hex : Hex) (read_sig : List ℕ → Option ManifestSig)
    (read_fields : List ℕ → Option Release) (manifest sig_file : List ℕ) (trusted : List (List ℕ))
    (r : Release)
    → read_release c hex read_sig read_fields manifest sig_file trusted ≡ ok r
    → Accepted c hex read_sig read_fields manifest sig_file trusted r
unfolding read_release
read_release-Accepted c hex read_sig read_fields manifest sig_file trusted r h =
    elim (Bool-cases (ltb manifest_cap (length manifest))) [
      | inl p ↦ cc (rw p at h)
      | inr p ↦
          signed_fields c hex read_sig read_fields manifest sig_file trusted r _ refl (ground arith)
            (rw p at h)
    ]
