-- ===== src/Flash/Image/Table/Tests.antt =====
-- The crate's test table, with a stand-in digest, and the theorem at it.
use hid_fi.Common.{
  ℕ, ◌+◌, ◌*◌, ◌≤◌, ◌<◌, ◌≡◌, refl, none, some, List, [], ◌∷◌, ◌++◌, replicate, length,
}
use hid_fi.Common.Bytes.{to_le_bytes}
use hid_fi.Common.Text.{codes}
use hid_fi.Flash.Image.Table.{Partition, partition_of, entry, field, parse_table}
use hid_fi.Flash.Image.Table.Sound.{partitions, ArePartitions, Closes, parse_table_sound}

-- A digest that is told by the number of bytes alone.
abbrev md5_of : List ℕ → List ℕ
md5_of bytes = replicate 16 (length bytes)

abbrev nvs_entry : List ℕ
nvs_entry =
    0xAA
    ∷ 0x50
    ∷ 1
    ∷ 2
    ∷ (to_le_bytes 4 0x9000 ++ (to_le_bytes 4 0x5000 ++ (codes "nvs" ++ replicate 17 0)))

abbrev md5_entry : List ℕ
md5_entry = 0xEB ∷ 0xEB ∷ (replicate 14 0xFF ++ md5_of (replicate 32 0))

abbrev nvs_partition : Partition
nvs_partition = record {
  name = codes "nvs";
  ptype = 1;
  subtype = 2;
  offset = 0x9000;
  size = 0x5000;
}

nvs_table : parse_table md5_of (nvs_entry ++ md5_entry) ≡ some (nvs_partition ∷ [])
unfolding parse_table entry field partition_of to_le_bytes
nvs_table = refl

nvs_table_wrong_digest : parse_table md5_of (nvs_entry ++ 0xEB ∷ 0xEB ∷ replicate 30 0xFF) ≡ none
unfolding parse_table entry field partition_of to_le_bytes
nvs_table_wrong_digest = refl

erased_table : parse_table md5_of (replicate 64 0xFF) ≡ none
unfolding parse_table entry field partition_of
erased_table = refl

parse_table_sound_example :
    (k : ℕ) × (0 < k)
    × (32 * (k + 1) ≤ length (nvs_entry ++ md5_entry))
    × ArePartitions (nvs_entry ++ md5_entry) 0 k
    × Closes md5_of (nvs_entry ++ md5_entry) k
    × (nvs_partition ∷ [] ≡ partitions (nvs_entry ++ md5_entry) 0 k)
parse_table_sound_example =
    parse_table_sound md5_of (nvs_entry ++ md5_entry) (nvs_partition ∷ []) nvs_table
