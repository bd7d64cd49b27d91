-- ===== src/Flash/Update.antt =====
-- The cable update: companion/crates/hidfi-flash/src/update.rs. This file is `layout_of`.
pub mod Journal
pub mod Board
pub mod Preflight
pub mod Run
pub mod Cells
pub mod Same
pub mod Untouched
pub mod Performed
pub mod Chosen
pub mod Loader
pub mod Planned
pub mod Late
pub mod Refused
pub mod Identified
pub mod Restarted
mod Tests
use hid_fi.Common.{
  ℕ, Bool, true, false, not, ◌&&◌, ◌||◌, Option, none, some, ◌>>=◌, List, [], ◌∷◌, ◌==◌,
  if◌then◌else◌,
}
use hid_fi.Common.Text.{Text, codes, eq}
use hid_fi.Flash.Image.Table.{Partition, app_slots}

abbrev pub nvs_offset : ℕ
nvs_offset = 0x9000

abbrev pub nvs_size : ℕ
nvs_size = 0x5000

pub data Path2 : Type 0 where
  two_slot switch_layout : Path2

-- `table.iter().find(|p| p.name == name)`.
unfoldable pub find_named : Text → List Partition → Option Partition
find_named name [] = none
find_named name (p ∷ ps) = let rest = find_named name ps in if eq p.name name then some p else rest

unfoldable pub path_of : List Partition → Option Path2
path_of (a ∷ []) = if a.offset == 0x10000 then some switch_layout else none
path_of (a ∷ b ∷ []) = if a.offset == 0x10000 && b.size == a.size then some two_slot else none
path_of _ = none

unfoldable pub layout_of : List Partition → Option Path2
unfolding find_named app_slots path_of
layout_of table = do
  nvs ← find_named (codes "nvs") table
  if not (nvs.offset == nvs_offset) || not (nvs.size == nvs_size)
      then none
      else path_of (app_slots table)
