-- ===== src/Flash/Image/Table.antt =====
-- The partition table of image.rs. The digest of the md5 crate is a parameter.
pub mod Sound
mod Tests
use hid_fi.Common.{
  ℕ, zero, suc, ◌+◌, ◌*◌, ◌/◌, Bool, true, false, not, ◌&&◌, Option, none, some, List, [], ◌∷◌,
  ◌++◌, ◌==◌, ltb, leb, if◌then◌else◌, length, take, drop, get_or,
}
use hid_fi.Common.Bytes.{from_le_bytes}
use hid_fi.Common.Text.{Text, eq, is_empty, from_utf8_lossy, trim_end_matches}

abbrev pub table_len : ℕ
table_len = 0xC00

pub record Partition : Type 0 where
  pub name : Text
  pub ptype : ℕ
  pub subtype : ℕ
  pub offset : ℕ
  pub size : ℕ

-- `&data[i * 32..i * 32 + 32]`
unfoldable pub entry : List ℕ → ℕ → List ℕ
entry bytes i = take 32 (drop (i * 32) bytes)

-- `&e[a..b]`, `width` bytes of an entry.
unfoldable pub field : List ℕ → ℕ → ℕ → List ℕ
field e pos width = take width (drop pos e)

unfoldable pub partition_of : List ℕ → Partition
unfolding field from_le_bytes from_utf8_lossy trim_end_matches
partition_of e = record {
  name = trim_end_matches 0 (from_utf8_lossy (field e 12 16));
  ptype = get_or e 2 0;
  subtype = get_or e 3 0;
  offset = from_le_bytes (field e 4 4);
  size = from_le_bytes (field e 8 4);
}

pub data Kind : Type 0 where
  partition md5_sum end_mark unknown : Kind

abbrev marks : List ℕ → ℕ → ℕ → Bool
marks e a b = get_or e 0 0 == a && get_or e 1 0 == b

-- The `match (e[0], e[1])`.
unfoldable pub kind : List ℕ → Kind
kind e =
    if marks e 0xAA 0x50
    then Kind.partition
    else if marks e 0xEB 0xEB
    then Kind.md5_sum
    else if marks e 0xFF 0xFF
    then Kind.end_mark
    else Kind.unknown

-- `cond.then_some(out)`
abbrev then_some : Bool → List Partition → Option (List Partition)
then_some b out = if b then some out else none

module _ (md5 : List ℕ → List ℕ) where
  -- The body of the loop, the rest of the loop given.
  unfoldable pub on_entry :
      Kind → List ℕ → ℕ → List Partition → Option (List Partition) → Option (List Partition)
  unfolding eq
  on_entry Kind.partition bytes i out rest = rest
  on_entry Kind.md5_sum bytes i out rest =
      then_some (eq (md5 (take (i * 32) bytes)) (field (entry bytes i) 16 16) && not (is_empty out))
        out
  on_entry Kind.end_mark bytes i out rest = then_some (not (is_empty out)) out
  on_entry Kind.unknown bytes i out rest = none

  -- `n` rounds of the loop from the entry `i`.
  unfoldable pub entries_from : List ℕ → ℕ → ℕ → List Partition → Option (List Partition)
  unfolding on_entry kind
  entries_from bytes zero i out = none
  entries_from bytes (suc n) i out =
      let rest = entries_from bytes n (i + 1) (out ++ partition_of (entry bytes i) ∷ []) in
      on_entry (kind (entry bytes i)) bytes i out rest

  unfoldable pub parse_table : List ℕ → Option (List Partition)
  unfolding entries_from
  parse_table bytes = entries_from bytes (length bytes / 32) 0 []

-- The partitions that hold an app which can be started.
unfoldable pub app_slots : List Partition → List Partition
app_slots [] = []
app_slots (p ∷ ps) =
    let rest = app_slots ps in
    if p.ptype == 0 && (leb 0x10 p.subtype && ltb p.subtype 0x20) then p ∷ rest else rest
