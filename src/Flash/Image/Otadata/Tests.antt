-- ===== src/Flash/Image/Otadata/Tests.antt =====
-- The crate's vectors for the checksum, and the theorems at the otadata of a cable flash.
use hid_fi.Common.{
  ℕ, ◌*◌, ◌-◌, ◌∷◌, ◌≡◌, refl, ap, ◌∙◌, some, List, ◌++◌, arith, replicate, length, length-append,
  length-replicate,
}
use hid_fi.Flash.Image.Otadata.{
  otadata_sector, otadata_crc, otadata_entry, otadata_choice, sector_choice, sector_with, word_at,
  slot_of, Choice, new, undefined, seq_or_zero,
}
use hid_fi.Flash.Image.Otadata.Entry.{length-sector_with}
use hid_fi.Flash.Image.Otadata.Switch.{Switched, otadata_switch-Switched, otadata_choice-torn}

crc_vectors :
    (otadata_crc 1 ≡ 0x4743_989A) × (otadata_crc 0 ≡ 0xFFFF_FFFF) × (otadata_crc 28 ≡ 0xE530_17D8)
unfolding otadata_crc
crc_vectors = (refl, refl, refl)

-- Sequence 1, state undefined, in sector 0.
abbrev boot_app0 : List ℕ
boot_app0 = sector_with (otadata_entry 1 undefined) ++ replicate otadata_sector 0xFF

length-boot_app0 : length boot_app0 ≡ 2 * otadata_sector
length-boot_app0 =
    length-append (sector_with (otadata_entry 1 undefined)) (replicate otadata_sector 0xFF)
    ∙ omega (arith, length-sector_with 1 undefined, length-replicate {A = ℕ} otadata_sector 0xFF)

abbrev boot_choice : Choice
boot_choice = record { sector = 0; seq = 1; slot = 0; state = undefined }

boot_chooses_first : otadata_choice boot_app0 2 ≡ some boot_choice
unfolding otadata_choice sector_choice word_at slot_of otadata_crc otadata_entry sector_with
    otadata_sector
boot_chooses_first = refl

otadata_switch-Switched_example : (out : List ℕ) × (seq : ℕ) × Switched boot_app0 1 new 2 out seq
otadata_switch-Switched_example =
    otadata_switch-Switched boot_app0 1 new 2 (omega (arith, length-boot_app0)) (omega arith)
      (omega (arith, ap seq_or_zero boot_chooses_first)) (omega arith) (omega arith) (omega arith)

-- The second sector after a write of sequence 2 that ended behind its first four bytes.
abbrev cut_short : List ℕ
cut_short =
    sector_with (otadata_entry 1 undefined) ++ (2 ∷ 0 ∷ 0 ∷ 0 ∷ replicate (otadata_sector - 4) 0xFF)

otadata_choice-torn_example : otadata_choice cut_short 2 ≡ some boot_choice
unfolding otadata_choice sector_choice word_at slot_of otadata_crc otadata_entry sector_with
    otadata_sector
otadata_choice-torn_example =
    otadata_choice-torn boot_app0 cut_short 2 boot_choice boot_chooses_first refl refl
      (λ e. omega arith)
