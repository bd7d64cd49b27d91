-- ===== src/Flash/Update/Run.antt =====
-- A cable update from its preflight to the restart: update.rs.
pub mod Steps
use hid_fi.Common.{
  ℕ, ◌+◌, ◌-◌, ◌*◌, ◌/◌, ◌%◌, ◌^◌, min, Bool, true, false, not, ◌&&◌, ◌||◌, Option, none, some,
  List, [], ◌∷◌, ◌++◌, ◌==◌, leb, ltb, if◌then◌else◌, length, take, get_elem?,
}
use hid_fi.Common.Bytes.{slice?}
use hid_fi.Common.Text.{Text, codes, eq}
use hid_fi.Common.Exec.{M, pure, raise, ◌>>=◌, ◌>>◌}
use hid_fi.Flash.Flasher.{sector, Fault}
use hid_fi.Flash.Flasher.Chip.{div_ceil}
use hid_fi.Flash.Image.Otadata.{Choice, new, otadata_sector, otadata_choice, otadata_switch}
use hid_fi.Flash.Image.Table.{Partition, table_len, parse_table, app_slots}
use hid_fi.Flash.Image.App.{ImageId, identify, image_is_valid, esp32s3_chip_id}
use hid_fi.Flash.Update.{Path2, two_slot, switch_layout, layout_of, nvs_offset, nvs_size}
use hid_fi.Flash.Update.Journal.{
  Step, planned, preflighted, image_written, switched, table_written, restarted, rank, step_name,
  Journal, hex, unhex, mac_str,
}
use hid_fi.Flash.Update.Board.{
  Board, UpdateError, Connect, reset, in_loader, via, or_panic, ignore, or_cancelled, otadata_at,
}
use hid_fi.Flash.Update.Preflight.{Found, preflight}

pub record Release : Type 0 where
  pub image : List ℕ
  pub table : List ℕ

abbrev pub is_two_slot : Option Path2 → Bool
is_two_slot (some two_slot) = true
is_two_slot _ = false

abbrev pub below : Step → Step → Bool
below a b = ltb (rank a) (rank b)

-- `p.then(..)` on a test: what to do where it holds, and nothing where it does not.
abbrev pub when : {W : Type 0} → Bool → M UpdateError W (Unit {0}) → M UpdateError W (Unit {0})
when b m = if b then m else pure tt

-- The unfinished journal of this board and version.
unfoldable pub resumable : List ℕ → Text → Option Journal → Option Journal
resumable mac to none = none
resumable mac to (some j) =
    if eq j.mac (mac_str mac) && eq j.to to && below j.step restarted then some j else none

unfoldable pub fits : List ℕ → Partition → Bool
fits image p = not (ltb p.size (div_ceil (length image) 0x4000 * 0x4000))

-- The journal with a step and a note more, as it is saved.
unfoldable pub noted : Journal → Step → Text → Journal
noted j step note = record j {
  step = step;
  history = j.history ++ ((step_name step ++ (codes ": " ++ note)) ∷ []);
}

-- `&mut |_| true`
abbrev pub always : {W : Type 0} → ℕ → M Fault W Bool
always n = pure true

module _ (board : Board) where
  open board use {W}

  abbrev Call : Type 0 → Type 0
  Call A = M UpdateError W A

  abbrev pub table_checked : Text → Option (List Partition) → Call (Text × List Partition)
  table_checked to none = raise UpdateError.bad_release
  table_checked to (some t) =
      if is_two_slot (layout_of t) then pure (to, t) else raise UpdateError.bad_release

  abbrev pub version_checked : Release → ImageId → Option Text → Call (Text × List Partition)
  version_checked rel id none = raise UpdateError.bad_release
  version_checked rel id (some to) =
      if not (id.chip_id == esp32s3_chip_id) || not (image_is_valid board.sha256 rel.image)
      then raise UpdateError.bad_release
      else table_checked to (parse_table board.md5 rel.table)

  abbrev pub id_checked : Release → Option ImageId → Call (Text × List Partition)
  id_checked rel none = raise UpdateError.bad_release
  id_checked rel (some id) = version_checked rel id id.hidfi_version

  -- The version that the release brings and its table.
  unfoldable pub release_checked : Release → Call (Text × List Partition)
  release_checked rel = id_checked rel (identify rel.image)

  unfoldable pub leave : Connect → M Fault W (Unit {0})
  leave reset = board.hard_reset
  leave in_loader = board.leave_forced_download

  -- The slot that is to be written, and its partition.
  unfoldable pub goal : Found → List Partition → Path2 → Call (ℕ × Partition)
  goal found new_table switch_layout = do
    p ← or_panic (get_elem? (app_slots new_table) 1)
    pure (1, p)
  goal found new_table two_slot = do
    t ← or_panic found.table
    p ← or_panic (get_elem? (app_slots t) (1 - min found.running_slot 1))
    pure (1 - min found.running_slot 1, p)

  unfoldable pub plan_for : List ℕ → Text → Release → Found → Path2 → ℕ × Partition → Call Journal
  plan_for mac to rel found path (slot, p) =
      if not (fits rel.image p) then raise UpdateError.too_big else do
        od ← or_panic (slice? found.backup otadata_at (length found.backup))
        table ← or_panic (slice? found.backup 0x8000 0x9000)
        pure (record {
          mac = mac_str mac;
          to = to;
          path = path;
          step = planned;
          target_slot = slot;
          target_offset = p.offset;
          image_md5 = hex (board.md5 rel.image);
          image_len = length rel.image % 2 ^ 32;
          original_otadata = hex od;
          original_table = hex table;
          history = [];
        })

  abbrev pub known :
      List ℕ → Text → Release → Found → List Partition → Path2 → Option Text → Call Journal
  known mac to rel found new_table path none = raise UpdateError.foreign_firmware
  known mac to rel found new_table path (some v) =
      goal found new_table path >>= plan_for mac to rel found path

  unfoldable pub fresh_journal :
      List ℕ → Text → Release → Found → List Partition → Option Path2 → Call Journal
  fresh_journal mac to rel found new_table none = raise UpdateError.unknown_layout
  fresh_journal mac to rel found new_table (some path) =
      known mac to rel found new_table path found.running_version

  unfoldable pub journal_for :
      List ℕ → Text → Release → Found → List Partition → Option Journal → Call Journal
  journal_for mac to rel found new_table none =
      fresh_journal mac to rel found new_table found.layout
  journal_for mac to rel found new_table (some j) = pure j

  unfoldable pub save : Journal → Step → Text → M Fault W Journal
  save j step note = board.save_journal (noted j step note) >>= λ _. pure (noted j step note)

  -- `write` of what the journal keeps as text.
  unfoldable pub write_back : ℕ → Text → Call (Unit {0})
  write_back offset text =
      or_panic (unhex text) >>= λ bytes. ignore (board.write offset bytes always)

  unfoldable pub cancel : {A : Type 0} → Connect → Journal → Call A
  cancel connect j = do
    when (not (below j.step table_written)) (write_back 0x8000 j.original_table)
    when (not (below j.step switched)) (write_back otadata_at j.original_otadata)
    ignore (leave connect)
    ignore (save j Step.cancelled (codes "everything put back as found"))
    raise UpdateError.cancelled

  -- `if (p.cancel)() { return Err(cancel(..)) }`
  unfoldable pub check_cancel : Connect → Journal → Call (Unit {0})
  check_cancel connect j = do asked ← via board.cancel_asked; when asked (cancel connect j)
