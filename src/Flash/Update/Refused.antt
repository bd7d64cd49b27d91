-- ===== src/Flash/Update/Refused.antt =====
-- A refusal writes nothing: `preflight` and `run` of update.rs.
use hid_fi.Common.{◌≡◌, ℕ, true, Option, none, some, List}
use hid_fi.Common.Text.{Text}
use hid_fi.Common.Exec.{M, Res, err}
use hid_fi.Common.Exec.Keeps.{
  Keeps, Leads, bind-Leads, pure-Keeps, raise-Keeps, if-Keeps, bind-Keeps, keeps_rules,
}
use hid_fi.Flash.Image.Table.{Partition}
use hid_fi.Flash.Update.{Path2, two_slot, switch_layout}
use hid_fi.Flash.Update.Journal.{Journal}
use hid_fi.Flash.Update.Board.{Board, UpdateError, Connect, reset, in_loader}
use hid_fi.Flash.Update.Preflight.{
  Found, connected, running_version_of, found_on, read_backup, mac_checked, chip_checked, preflight,
}
use hid_fi.Flash.Update.Run.{
  Release, release_checked, table_checked, version_checked, id_checked, goal, plan_for,
  fresh_journal, known, journal_for,
}
use hid_fi.Flash.Update.Run.Steps.{planned_journal, begun, perform, run}
use hid_fi.Flash.Update.Untouched.{save-Kept}
use hid_fi.Flash.Update.Late.{is_refusal, perform-Raises}
use hid_fi.Flash.Image.App.{ImageId, identify}
use hid_fi.Flash.Update.Cells.{Laws, via-Keeps, or_panic-Keeps}

-- The release is checked without a call.
module _ (board : Board) {P : board.W → Type 0} where
  table_checked-Keeps :
      (to : Text) (o : Option (List Partition)) → Keeps P (table_checked board to o)
  table_checked-Keeps to none = raise-Keeps _
  table_checked-Keeps to (some t) = if-Keeps _ _ _ (pure-Keeps _) (raise-Keeps _)

  version_checked-Keeps :
      (rel : Release) (id : ImageId) (o : Option Text) → Keeps P (version_checked board rel id o)
  version_checked-Keeps rel id none = raise-Keeps _
  version_checked-Keeps rel id (some to) = if-Keeps _ _ _ (raise-Keeps _) (table_checked-Keeps to _)

  pub id_checked-Keeps : (rel : Release) (o : Option ImageId) → Keeps P (id_checked board rel o)
  id_checked-Keeps rel none = raise-Keeps _
  id_checked-Keeps rel (some id) = version_checked-Keeps rel id id.hidfi_version

module _ (board : Board) (cell : ℕ → ℕ → board.W → Type 0) (laws : Laws board cell) (a v : ℕ) where
  abbrev Kept : {E A : Type 0} → M E board.W A → Type 0
  Kept m = Keeps (cell a v) m

  connected-Kept : (connect : Connect) → Kept (connected board connect)
  unfolding connected
  connected-Kept reset = laws.enter_bootloader a v
  connected-Kept in_loader = laws.attach_to_loader a v

  running_version_of-Kept : (o : Option Partition) → Kept (running_version_of board o)
  unfolding running_version_of
  running_version_of-Kept none = pure-Keeps _
  running_version_of-Kept (some p) =
      bind-Keeps _ _ (via-Keeps _ (laws.read_flash a v _ _)) (λ head. pure-Keeps _)

  found_on-Kept : (backup : List ℕ) (o : Option (List Partition)) → Kept (found_on board backup o)
  unfolding found_on
  found_on-Kept backup none = pure-Keeps _
  found_on-Kept backup (some t) =
      bind-Keeps _ _ (or_panic-Keeps _)
        (λ od. bind-Keeps _ _ (running_version_of-Kept _) (λ version. pure-Keeps _))

  read_backup-Kept : Kept (read_backup board)
  unfolding read_backup
  read_backup-Kept = bind-Keeps _ _ (via-Keeps _ (laws.load_stub a v)) (λ u.
      bind-Keeps _ _ (via-Keeps _ (laws.attach_flash a v _)) (λ u2.
        bind-Keeps _ _ (via-Keeps _ (laws.read_flash a v _ _))
          (λ backup. bind-Keeps _ _ (or_panic-Keeps _) (λ bytes. found_on-Kept backup _))))

  -- The preflight writes nothing.
  pub preflight-Kept :
      (mac : List ℕ) (connect : Connect) → Keeps (cell a v) (preflight board mac connect)
  unfolding preflight chip_checked mac_checked
  preflight-Kept mac connect = bind-Keeps _ _ (via-Keeps _ (connected-Kept connect)) (λ u.
      bind-Keeps _ _ (via-Keeps _ (laws.sync a v)) (λ u2.
        bind-Keeps _ _ (via-Keeps _ (laws.chip_id a v)) (λ chip. if-Keeps _ _ _ (raise-Keeps _) (
          bind-Keeps _ _ (via-Keeps _ (laws.mac a v))
            (λ got. if-Keeps _ _ _ (raise-Keeps _) read_backup-Kept)))))

  goal-Kept :
      (found : Found) (new_table : List Partition) (path : Path2)
      → Kept (goal board found new_table path)
  unfolding goal
  goal-Kept found new_table switch_layout = search (or_panic-Keeps, keeps_rules)
  goal-Kept found new_table two_slot = search (or_panic-Keeps, keeps_rules)

  known-Kept :
      (mac : List ℕ) (to : Text) (rel : Release) (found : Found) (new_table : List Partition)
      (path : Path2) (o : Option Text)
      → Kept (known board mac to rel found new_table path o)
  unfolding plan_for
  known-Kept mac to rel found new_table path none = raise-Keeps _
  known-Kept mac to rel found new_table path (some x) =
      search (goal-Kept, or_panic-Keeps, if-Keeps, keeps_rules)

  fresh_journal-Kept :
      (mac : List ℕ) (to : Text) (rel : Release) (found : Found) (new_table : List Partition)
      (o : Option Path2)
      → Kept (fresh_journal board mac to rel found new_table o)
  unfolding fresh_journal
  fresh_journal-Kept mac to rel found new_table none = raise-Keeps _
  fresh_journal-Kept mac to rel found new_table (some path) =
      known-Kept mac to rel found new_table path _

  journal_for-Kept :
      (mac : List ℕ) (to : Text) (rel : Release) (found : Found) (new_table : List Partition)
      (o : Option Journal)
      → Kept (journal_for board mac to rel found new_table o)
  unfolding journal_for
  journal_for-Kept mac to rel found new_table none = fresh_journal-Kept mac to rel found new_table _
  journal_for-Kept mac to rel found new_table (some j) = pure-Keeps j

  begun-Kept : (j : Journal) → Kept (begun board j)
  unfolding begun
  begun-Kept j = if-Keeps _ _ _ (via-Keeps _ (save-Kept board cell laws a v j _ _)) (pure-Keeps j)

  planned_journal-Kept :
      (mac : List ℕ) (rel : Release) (checked : Text × List Partition) (found : Found)
      → Kept (planned_journal board mac rel checked found)
  unfolding planned_journal
  planned_journal-Kept mac rel (to, new_table) found =
      bind-Keeps _ _ (via-Keeps _ (laws.load_journal a v))
        (λ loaded. journal_for-Kept mac to rel found new_table _)

  -- After a refusal the cell is as it was.
  abbrev pub Unless : Res UpdateError Journal → board.W → Type 0
  Unless r w = (e : UpdateError) → r ≡ err e → is_refusal e ≡ true → cell a v w

  unless : (r : Res UpdateError Journal) (w : board.W) → cell a v w → Unless r w
  unless r w p e h l = p

  perform-Leads :
      (connect : Connect) (rel : Release) (found : Found) (j : Journal)
      → Leads (cell a v) Unless (perform board connect rel found j)
  perform-Leads connect rel found j = record {
    at = λ s p e h l. let k = (perform-Raises board connect rel found j).at s e h in cc;
  }

  pub run-Leads :
      (mac : List ℕ) (connect : Connect) (rel : Release)
      → Leads (cell a v) Unless (run board mac connect rel)
  unfolding run release_checked
  run-Leads mac connect rel =
      bind-Leads unless _ _ (id_checked-Keeps board rel (identify rel.image)) (λ checked.
        bind-Leads unless _ _ (preflight-Kept mac connect) (λ found.
          bind-Leads unless _ _ (planned_journal-Kept mac rel checked found)
            (λ j. bind-Leads unless _ _ (begun-Kept j) (λ j1. perform-Leads connect rel found j1))))
