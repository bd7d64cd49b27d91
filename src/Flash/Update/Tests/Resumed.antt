-- ===== src/Flash/Update/Tests/Resumed.antt =====
-- An update at a board that answers from a list of readings.
use hid_fi.Common.{
  ◌≡◌, refl, ℕ, zero, suc, arith, ◌==◌, some, List, [], ◌∷◌, ◌++◌, length, length-replicate,
  replicate, All, if◌then◌else◌,
}
use hid_fi.Common.Bytes.{IsByte, slice?, to_le_bytes, from_le_bytes}
use hid_fi.Common.Text.{codes, eq, from_utf8_lossy, trim_end_matches}
use hid_fi.Common.Exec.{ok, pure, ◌>>=◌}
use hid_fi.Flash.Image.Table.{Partition, app_slots, parse_table, entry, field, partition_of, kind}
use hid_fi.Flash.Flasher.Chip.{div_ceil}
use hid_fi.Flash.Image.App.{
  identify, image_is_valid, hash_ok, segments_end, pad_to_16, from_tag, graphic_prefix, id_window,
}
use hid_fi.Flash.Image.Otadata.{
  new, otadata_choice, sector_choice, word_at, slot_of, otadata_crc, otadata_entry, sector_with,
  otadata_sector, better,
}
use hid_fi.Flash.Update.{two_slot, layout_of, find_named, path_of}
use hid_fi.Flash.Update.Journal.{planned, switched, restarted, rank, Journal, hex, mac_str}
use hid_fi.Flash.Update.Board.{Board, in_loader, via, or_panic, otadata_at}
use hid_fi.Flash.Update.Preflight.{
  Found, preflight, chip_checked, mac_checked, connected, read_backup, found_on, running_version_of,
}
use hid_fi.Flash.Update.Run.{
  fresh_journal, goal, plan_for, fits, release_checked, journal_for, resumable, noted, leave, save,
  check_cancel,
}
use hid_fi.Flash.Update.Run.Steps.{
  run, planned_journal, begun, perform, image_step, after_image, switch_step, table_step,
  still_chosen, finish, settings_kept,
}
use hid_fi.Flash.Update.Planned.{Plan, fresh_journal-Plan}
use hid_fi.Flash.Update.Identified.{Identified}
use hid_fi.Flash.Update.Restarted.{Good, run-Good}
use hid_fi.Flash.Update.Tests.{two_slots, memory_board, good_release, erased}

abbrev app0 : Partition
app0 = record { name = codes "app0"; ptype = 0; subtype = 0x10; offset = 0x10000; size = 0x640000 }

abbrev app1 : Partition
app1 = record { name = codes "app1"; ptype = 0; subtype = 0x11; offset = 0x650000; size = 0x640000 }

abbrev running_first : Found
running_first = record {
  backup = replicate 0x10000 0xFF;
  table = some (app0 ∷ app1 ∷ []);
  running_slot = 0;
  running_version = some (codes "hid_fi_v4.0.0");
  layout = some two_slot;
}

abbrev second_slot : Journal
second_slot = record {
  mac = mac_str (replicate 6 0);
  to = codes "hid_fi_v4.1.0";
  path = two_slot;
  step = planned;
  target_slot = 1;
  target_offset = 0x650000;
  image_md5 = hex (memory_board.md5 good_release.image);
  image_len = length good_release.image;
  original_otadata = hex (replicate 0x2000 0xFF);
  original_table = hex (replicate 0x1000 0xFF);
  history = [];
}

All-IsByte : (n : ℕ) → All IsByte (replicate n 0xFF)
All-IsByte zero = tt
All-IsByte (suc n) = (omega arith, All-IsByte n)

goes_to_second :
    fresh_journal memory_board
      (replicate 6 0)
      (codes "hid_fi_v4.1.0")
      good_release
      running_first
      []
      running_first.layout
      erased
    ≡ (ok second_slot, erased)
unfolding fresh_journal goal plan_for fits or_panic slice? ◌>>=◌ pure to_le_bytes app_slots div_ceil
goes_to_second = refl

fresh_journal-Plan_example :
    Plan memory_board
      (replicate 6 0)
      (codes "hid_fi_v4.1.0")
      good_release
      running_first
      []
      second_slot
fresh_journal-Plan_example =
    fresh_journal-Plan memory_board (replicate 6 0) (codes "hid_fi_v4.1.0") good_release
      running_first [] erased erased second_slot (All-IsByte 0x10000)
      (length-replicate {A = ℕ} 0x10000 0xFF) goes_to_second

-- What is read from each place: the first slot runs, the second is chosen and not yet tried.
abbrev reading : ℕ → List ℕ
reading offset =
    if offset == 0
    then replicate 0x8000 0xFF ++ (two_slots ++ replicate 0x7F80 0xFF)
    else if offset == 0x10000
    then good_release.image
    else if offset == otadata_at
    then sector_with (otadata_entry 2 new) ++ replicate 0x1000 0xFF
    else replicate 0x5000 0xFF

abbrev switched_journal : Journal
switched_journal = record second_slot { step = switched }

abbrev reading_board : Board
reading_board = record memory_board {
  chip_id = pure 9;
  read_flash = λ offset len w. (ok (reading offset), w);
  load_journal = pure (some switched_journal);
}

abbrev restarted_journal : Journal
restarted_journal = noted switched_journal restarted (codes "restarted into the new firmware")

resumes :
    run reading_board (replicate 6 0) in_loader good_release erased ≡ (ok restarted_journal, erased)
unfolding run release_checked preflight chip_checked mac_checked connected read_backup found_on
    running_version_of identify from_tag graphic_prefix id_window from_utf8_lossy image_is_valid
    hash_ok segments_end pad_to_16 parse_table entry field partition_of kind app_slots layout_of
    find_named path_of trim_end_matches ◌>>=◌ via pure or_panic eq from_le_bytes to_le_bytes slice?
    planned_journal journal_for resumable rank begun perform image_step after_image check_cancel
    switch_step table_step still_chosen finish settings_kept leave save otadata_choice sector_choice
    word_at slot_of otadata_crc otadata_entry sector_with otadata_sector better mac_str
resumes = refl

run-Good_example :
    Identified reading_board (replicate 6 0) in_loader erased
    × Good reading_board good_release (codes "hid_fi_v4.1.0")
    × (restarted_journal.mac ≡ mac_str (replicate 6 0))
    × (restarted_journal.step ≡ restarted)
unfolding noted
run-Good_example =
    run-Good reading_board (replicate 6 0) in_loader good_release erased erased restarted_journal
      resumes
