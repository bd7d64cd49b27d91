-- ===== src/Flash/Update/Run/Steps.antt =====
-- The steps of a cable update, each skipped where the journal has it, and `run`: update.rs.
use hid_fi.Common.{
  ℕ, ◌+◌, ◌*◌, min, Bool, true, false, not, ◌&&◌, ◌||◌, Option, none, some, List, ◌==◌,
  if◌then◌else◌, length, take,
}
use hid_fi.Common.Bytes.{slice?}
use hid_fi.Common.Text.{Text, codes, eq}
use hid_fi.Common.Exec.{M, pure, raise, ◌>>=◌, ◌>>◌}
use hid_fi.Flash.Flasher.{sector}
use hid_fi.Flash.Image.Otadata.{Choice, new, otadata_choice, otadata_switch}
use hid_fi.Flash.Image.Table.{Partition, table_len}
use hid_fi.Flash.Update.{Path2, two_slot, switch_layout, nvs_offset, nvs_size}
use hid_fi.Flash.Update.Journal.{
  preflighted, image_written, switched, table_written, restarted, Journal, hex, unhex,
}
use hid_fi.Flash.Update.Board.{
  Board, UpdateError, Connect, via, or_panic, ignore, or_cancelled, otadata_at,
}
use hid_fi.Flash.Update.Preflight.{Found, preflight}
use hid_fi.Flash.Update.Run.{
  Release, below, when, release_checked, leave, resumable, journal_for, save, always, cancel,
  check_cancel,
}

abbrev chooses : Option Choice → ℕ → Bool
chooses none slot = false
chooses (some c) slot = c.slot == slot

abbrev is_new : Option Choice → Bool
is_new none = false
is_new (some c) = c.state == new

abbrev is_switch : Path2 → Bool
is_switch switch_layout = true
is_switch two_slot = false

-- `&bytes[s * 0x1000..(s + 1) * 0x1000]`
unfoldable pub sector_of : List ℕ → ℕ → Option (List ℕ)
sector_of bytes s = slice? bytes (s * 0x1000) ((s + 1) * 0x1000)

module _ (board : Board) where
  open board use {W}

  abbrev Call : Type 0 → Type 0
  Call A = M UpdateError W A

  unfoldable pub write_sector : List ℕ → ℕ → Call (Unit {0})
  unfolding sector_of
  write_sector want s = do
    bytes ← or_panic (sector_of want s)
    via (board.write (otadata_at + s * sector) bytes always)

  unfoldable pub differs : List ℕ → List ℕ → ℕ → Call Bool
  unfolding sector_of
  differs now want s = do
    a ← or_panic (sector_of now s)
    b ← or_panic (sector_of want s)
    pure (not (eq a b))

  -- Writes the first of the two sectors that differs.
  unfoldable pub put_choice : List ℕ → List ℕ → Call (Unit {0})
  unfolding differs write_sector
  put_choice now want = do
    first ← differs now want 0
    if first
        then write_sector want 0
        else (differs now want 1 >>= λ second. when second (write_sector want 1))

  -- A loop of `otadata_switch` that finds no sequence number, which does not end, counts as a panic.
  unfoldable pub switch_of : List ℕ → ℕ → Call (List ℕ)
  switch_of od slot = or_panic (otadata_switch od slot new 2)

  -- `otadata_choice` is not right: choose the slot again.
  unfoldable pub choose_again : List ℕ → ℕ → Call (Unit {0})
  unfolding switch_of put_choice
  choose_again od slot = switch_of od slot >>= put_choice od

  unfoldable pub write_image : Connect → Release → Journal → Call (Unit {0})
  write_image connect rel j = do
    check_cancel board connect j
    or_cancelled (cancel board connect j) (
        board.write j.target_offset rel.image (λ n.
          board.report image_written n (length rel.image) >>= λ _.
          board.cancel_asked >>= λ asked. pure (not asked)))

  -- The image, into a slot that is not running.
  unfoldable pub image_step : Connect → Release → Journal → Call Journal
  unfolding write_image
  image_step connect rel j = if not (below j.step image_written) then pure j else do
    already ← via (board.flash_md5 j.target_offset j.image_len)
    when (not (eq (hex already) j.image_md5)) (write_image connect rel j)
    via (save board j image_written (codes "image written and read back"))

  unfoldable pub put_first_choice : Journal → List ℕ → List ℕ → Call (Unit {0})
  unfolding put_choice
  put_first_choice j now want =
      when (not (chooses (otadata_choice now 2) j.target_slot) || not (eq now want))
        (put_choice now want)

  -- Choose it.
  unfoldable pub switch_step : Journal → Call Journal
  unfolding switch_of put_first_choice
  switch_step j = if not (below j.step switched) then pure j else do
    now ← via (board.read_flash otadata_at 0x2000)
    original ← or_panic (unhex j.original_otadata)
    want ← switch_of original j.target_slot
    put_first_choice j now want
    via (save board j switched (codes "otadata chooses the new slot"))

  unfoldable pub write_table : Release → Call (Unit {0})
  write_table rel = do
    now ← via (board.read_flash 0x8000 table_len)
    when (not (eq now (take (min table_len (length rel.table)) rel.table)))
        (via (board.write 0x8000 rel.table always))

  -- Of the one-time switch only: the table.
  unfoldable pub table_step : Release → Journal → Call Journal
  unfolding choose_again write_table
  table_step rel j = if not (is_switch j.path && below j.step table_written) then pure j else do
    od ← via (board.read_flash otadata_at 0x2000)
    when (not (is_new (otadata_choice od 2))) (choose_again od j.target_slot)
    write_table rel
    via (save board j table_written (codes "the two-slot table is in"))

  -- The new slot must still be chosen, untried.
  unfoldable pub still_chosen : Journal → Call (Unit {0})
  unfolding choose_again
  still_chosen j = do
    od ← via (board.read_flash otadata_at 0x2000)
    when (not (chooses (otadata_choice od 2) j.target_slot && is_new (otadata_choice od 2)))
        (choose_again od j.target_slot)

  unfoldable pub restore_settings : Connect → List ℕ → Call (Unit {0})
  restore_settings connect nvs_was = do
    via (board.write nvs_offset nvs_was always)
    ignore (leave board connect)
    raise UpdateError.settings_restored

  -- The settings must be as read in preflight.
  unfoldable pub settings_kept : Connect → Found → Call (Unit {0})
  unfolding restore_settings
  settings_kept connect found = do
    nvs_now ← via (board.read_flash nvs_offset nvs_size)
    nvs_was ← or_panic (slice? found.backup nvs_offset (nvs_offset + nvs_size))
    when (not (eq nvs_now nvs_was)) (restore_settings connect nvs_was)

  -- From the settings to the restart.
  unfoldable pub finish : Connect → Found → Journal → Call Journal
  unfolding settings_kept
  finish connect found j = do
    settings_kept connect found
    via (leave board connect)
    via (save board j restarted (codes "restarted into the new firmware"))

  -- Everything after the image is in its slot.
  unfoldable pub after_image : Connect → Release → Found → Journal → Call Journal
  unfolding switch_step table_step still_chosen finish
  after_image connect rel found j = do
    check_cancel board connect j
    j2 ← switch_step j
    check_cancel board connect j2
    j3 ← table_step rel j2
    check_cancel board connect j3
    still_chosen j3
    finish connect found j3

  -- Everything after the journal is there.
  unfoldable pub perform : Connect → Release → Found → Journal → Call Journal
  unfolding image_step after_image
  perform connect rel found j = image_step connect rel j >>= after_image connect rel found

  unfoldable pub begun : Journal → Call Journal
  begun j =
      if below j.step preflighted
      then via (
          save board j preflighted
            (codes "the chosen board, an ESP32-S3 running HID-Fi; backup read"))
      else pure j

  -- The journal that is followed: the one found, or a new one.
  unfoldable pub planned_journal : List ℕ → Release → Text × List Partition → Found → Call Journal
  planned_journal mac rel (to, new_table) found = do
    loaded ← via board.load_journal
    journal_for board mac to rel found new_table (resumable mac to loaded)

  unfoldable pub run : List ℕ → Connect → Release → Call Journal
  unfolding planned_journal begun perform
  run mac connect rel = do
    checked ← release_checked board rel
    found ← preflight board mac connect
    j ← planned_journal mac rel checked found
    j1 ← begun j
    perform connect rel found j1
