-- ===== src/Flash/Update/Preflight.antt =====
-- The first step, `preflight`: update.rs.
use hid_fi.Common.{ℕ, ◌+◌, not, Option, none, some, List, ◌==◌, if◌then◌else◌, length, get_elem?}
use hid_fi.Common.Bytes.{slice?}
use hid_fi.Common.Text.{Text, eq}
use hid_fi.Common.Exec.{M, pure, raise, ◌>>=◌, ◌>>◌}
use hid_fi.Flash.Flasher.{Fault}
use hid_fi.Flash.Image.Otadata.{Choice, otadata_choice}
use hid_fi.Flash.Image.Table.{Partition, table_len, parse_table, app_slots}
use hid_fi.Flash.Image.App.{ImageId, identify, id_window, esp32s3_chip_id}
use hid_fi.Flash.Update.{Path2, layout_of}
use hid_fi.Flash.Update.Journal.{mac_str}
use hid_fi.Flash.Update.Board.{
  Board, UpdateError, Connect, reset, in_loader, via, or_panic, flash_size, otadata_at,
}

pub record Found : Type 0 where
  pub backup : List ℕ
  pub table : Option (List Partition)
  pub running_slot : ℕ
  pub running_version : Option Text
  pub layout : Option Path2

-- `map_or(0, |c| c.slot)`
abbrev chosen_slot : Option Choice → ℕ
chosen_slot none = 0
chosen_slot (some c) = c.slot

abbrev version_in : Option ImageId → Option Text
version_in none = none
version_in (some i) = i.hidfi_version

module _ (board : Board) where
  open board use {W}

  unfoldable pub connected : Connect → M Fault W (Unit {0})
  connected reset = board.enter_bootloader
  connected in_loader = board.attach_to_loader

  unfoldable pub running_version_of : Option Partition → M UpdateError W (Option Text)
  running_version_of none = pure none
  running_version_of (some s) =
      via (board.read_flash s.offset id_window) >>= λ head. pure (version_in (identify head))

  unfoldable pub found_on : List ℕ → Option (List Partition) → M UpdateError W Found
  found_on backup none = pure (record {
    backup = backup;
    table = none;
    running_slot = 0;
    running_version = none;
    layout = none;
  })
  found_on backup (some t) = do
    od ← or_panic (slice? backup otadata_at (length backup))
    let slot = chosen_slot (otadata_choice od (length (app_slots t)))
    version ← running_version_of (get_elem? (app_slots t) slot)
    pure (record {
      backup = backup;
      table = some t;
      running_slot = slot;
      running_version = version;
      layout = layout_of t;
    })

  unfoldable pub read_backup : M UpdateError W Found
  read_backup = do
    via board.load_stub
    via (board.attach_flash flash_size)
    backup ← via (board.read_flash 0 0x10000)
    bytes ← or_panic (slice? backup 0x8000 (0x8000 + table_len))
    found_on backup (parse_table board.md5 bytes)

  unfoldable pub mac_checked : List ℕ → List ℕ → M UpdateError W Found
  mac_checked mac got =
      if not (eq got mac) then raise (UpdateError.wrong_board (mac_str got)) else read_backup

  unfoldable pub chip_checked : List ℕ → ℕ → M UpdateError W Found
  chip_checked mac chip =
      if not (chip == esp32s3_chip_id)
      then raise (UpdateError.wrong_chip chip)
      else via board.mac >>= mac_checked mac

  -- Is this the chosen board, an ESP32-S3, and what is on it.
  unfoldable pub preflight : List ℕ → Connect → M UpdateError W Found
  preflight mac connect = do
    via (connected connect)
    via board.sync
    chip ← via board.chip_id
    chip_checked mac chip
