-- ===== src/Flash/Update/Performed.antt =====
-- What the steps after the image leave as it is, and a whole update: update.rs.
use hid_fi.Common.{◌≡◌, ap, ◌∙◌, ℕ, ◌+◌, ◌*◌, ◌^◌, ◌≤◌, ◌<◌, arith, true, List, length}
use hid_fi.Common.Bytes.{slice?}
use hid_fi.Common.Exec.{M}
use hid_fi.Common.Exec.Keeps.{Keeps, pure-Keeps, raise-Keeps, if-Keeps, bind-Keeps}
use hid_fi.Common.Exec.Returns.{then-Keeps}
use hid_fi.Flash.Flasher.{sector}
use hid_fi.Flash.Flasher.Transfer.{region_of, block_of, sectors_of}
use hid_fi.Flash.Flasher.Chip.{div_ceil}
use hid_fi.Flash.Update.{nvs_offset, nvs_size}
use hid_fi.Flash.Update.Journal.{Journal}
use hid_fi.Flash.Update.Board.{Board, Connect, otadata_at}
use hid_fi.Flash.Update.Preflight.{Found}
use hid_fi.Flash.Update.Run.{Release, check_cancel}
use hid_fi.Flash.Update.Run.Steps.{
  sector_of, write_sector, differs, put_choice, switch_of, choose_again, put_first_choice,
  switch_step, write_table, table_step, still_chosen, restore_settings, settings_kept, finish,
  after_image, perform,
}
use hid_fi.Flash.Update.Cells.{Apart, Laws, via-Keeps, ignore-Keeps, when-Keeps}
use hid_fi.Flash.Update.Untouched.{
  settings_region, Apart-within, or_panic_then-Keeps, slice?-length, Originals, Same-Originals,
  write-Kept, leave-Kept, save-Kept, cancel-Kept, image_step-Untouched,
}
use hid_fi.Flash.Update.Same.{image_step-Same, switch_step-Same, table_step-Same}

settings_fit : region_of true nvs_size < 2 ^ 32
unfolding region_of block_of sectors_of div_ceil
settings_fit = omega arith

module _ (board : Board) (cell : ℕ → ℕ → board.W → Type 0) (laws : Laws board cell) (a v : ℕ) where
  abbrev Kept : {E A : Type 0} → M E board.W A → Type 0
  Kept m = Keeps (cell a v) m

  -- A part of an update that writes none of the cells of the choice.
  module _ (choice : Apart a otadata_at 0x2000) where
    write_sector-Kept : (want : List ℕ) (k : ℕ) → k ≤ 1 → Kept (write_sector board want k)
    unfolding write_sector sector_of
    write_sector-Kept want k h = or_panic_then-Keeps (sector_of want k) _ (λ bytes e. via-Keeps _ (
        write-Kept board cell laws a v (otadata_at + k * sector) 1 bytes (omega arith)
          (let l =
              slice?-length want bytes (k * 0x1000) 0x1000
                (ap (λ (n : ℕ). slice? want (k * 0x1000) n) (omega arith) ∙ e) in
            omega arith)
          (omega arith) (Apart-within a otadata_at 0x2000 _ _ (omega arith) (omega arith) choice)))

    differs-Kept : (now want : List ℕ) (k : ℕ) → Kept (differs board now want k)
    unfolding differs
    differs-Kept now want k =
        or_panic_then-Keeps _ _ (λ x e. or_panic_then-Keeps _ _ (λ y f. pure-Keeps _))

    put_choice-Kept : (now want : List ℕ) → Kept (put_choice board now want)
    unfolding put_choice
    put_choice-Kept now want = bind-Keeps _ _ (differs-Kept now want 0) (λ first.
        if-Keeps first _ _ (write_sector-Kept want 0 (omega arith)) (
          bind-Keeps _ _ (differs-Kept now want 1)
            (λ second. when-Keeps second _ (λ e. write_sector-Kept want 1 (omega arith)))))

    choose_again-Kept : (od : List ℕ) (slot : ℕ) → Kept (choose_again board od slot)
    unfolding choose_again switch_of
    choose_again-Kept od slot = or_panic_then-Keeps _ _ (λ want e. put_choice-Kept od want)

    still_chosen-Kept : (j : Journal) → Kept (still_chosen board j)
    unfolding still_chosen
    still_chosen-Kept j =
        bind-Keeps _ _ (via-Keeps _ (laws.read_flash a v _ _))
          (λ od. when-Keeps _ _ (λ e. choose_again-Kept od j.target_slot))

    switch_step-Kept : (j : Journal) → Kept (switch_step board j)
    unfolding switch_step switch_of put_first_choice
    switch_step-Kept j = if-Keeps _ _ _ (pure-Keeps j) (
        bind-Keeps _ _ (via-Keeps _ (laws.read_flash a v _ _)) (λ now.
          or_panic_then-Keeps _ _ (λ original e. or_panic_then-Keeps _ _ (λ want e2.
            bind-Keeps _ _ (when-Keeps _ _ (λ e3. put_choice-Kept now want))
              (λ u. via-Keeps _ (save-Kept board cell laws a v j _ _))))))

    module _ (rel : Release) (fits : length rel.table ≤ 0x1000)
        (table : Apart a 0x8000 0x1000) where
      write_table-Kept : Kept (write_table board rel)
      unfolding write_table
      write_table-Kept = bind-Keeps _ _ (via-Keeps _ (laws.read_flash a v _ _)) (λ now.
          when-Keeps _ _ (λ e. via-Keeps _ (
            write-Kept board cell laws a v 0x8000 1 rel.table (omega arith) fits (omega arith)
              table)))

      table_step-Kept : (j : Journal) → Kept (table_step board rel j)
      unfolding table_step
      table_step-Kept j = if-Keeps _ _ _ (pure-Keeps j) (
          bind-Keeps _ _ (via-Keeps _ (laws.read_flash a v _ _)) (λ od.
            bind-Keeps _ _ (when-Keeps _ _ (λ e. choose_again-Kept od j.target_slot)) (λ u.
              bind-Keeps _ _ write_table-Kept
                (λ u2. via-Keeps _ (save-Kept board cell laws a v j _ _)))))

      check_cancel-Kept :
          (connect : Connect) (j : Journal) → Originals j → Kept (check_cancel board connect j)
      unfolding check_cancel
      check_cancel-Kept connect j o = bind-Keeps _ _ (via-Keeps _ (laws.cancel_asked a v)) (λ asked.
          when-Keeps asked _
            (λ e. cancel-Kept board cell laws a v connect j o (λ e2. table) (λ e2. choice)))

      module _ (found : Found) (settings : Apart a nvs_offset 0x8000) where
        restore_settings-Kept :
            (connect : Connect) (was : List ℕ)
            → length was ≡ nvs_size
            → Kept (restore_settings board connect was)
        unfolding restore_settings
        restore_settings-Kept connect was h =
            bind-Keeps _ _
              (via-Keeps _ (
                laws.write a v nvs_offset was (omega arith) (rw h settings_fit)
                  (rw h (settings_region a settings))))
              (λ u.
                bind-Keeps _ _ (ignore-Keeps _ (leave-Kept board cell laws a v connect))
                  (λ u2. raise-Keeps _))

        finish-Kept : (connect : Connect) (j : Journal) → Kept (finish board connect found j)
        unfolding finish settings_kept
        finish-Kept connect j =
            bind-Keeps _ _
              (bind-Keeps _ _ (via-Keeps _ (laws.read_flash a v _ _)) (λ now.
                or_panic_then-Keeps _ _ (λ was e. when-Keeps _ _ (λ e2.
                  restore_settings-Kept connect was
                    (slice?-length found.backup was nvs_offset nvs_size e)))))
              (λ u.
                bind-Keeps _ _ (via-Keeps _ (leave-Kept board cell laws a v connect))
                  (λ u2. via-Keeps _ (save-Kept board cell laws a v j _ _)))

        pub after_image-Kept :
            (connect : Connect) (j : Journal)
            → Originals j
            → Kept (after_image board connect rel found j)
        unfolding after_image
        after_image-Kept connect j o = bind-Keeps _ _ (check_cancel-Kept connect j o) (λ u.
            then-Keeps _ _ (switch_step-Same board j) (switch_step-Kept j) (λ j2 e.
              let o2 = Same-Originals j j2 e o in
              bind-Keeps _ _ (check_cancel-Kept connect j2 o2) (λ u2.
                then-Keeps _ _ (table_step-Same board rel j2) (table_step-Kept j2) (λ j3 e3.
                  bind-Keeps _ _ (check_cancel-Kept connect j3 (Same-Originals j2 j3 e3 o2))
                    (λ u3. bind-Keeps _ _ (still_chosen-Kept j3) (λ u4. finish-Kept connect j3))))))

pub perform-Kept :
    (board : Board) (cell : ℕ → ℕ → board.W → Type 0) (a v : ℕ) (connect : Connect) (rel : Release)
    (found : Found) (j : Journal)
    → Laws board cell
    → Originals j
    → length rel.table ≤ 0x1000
    → j.target_offset < 2 ^ 32
    → region_of true (length rel.image) < 2 ^ 32
    → Apart a j.target_offset (region_of true (length rel.image))
    → Apart a 0x8000 0x9000
    → Keeps (cell a v) (perform board connect rel found j)
unfolding perform
perform-Kept board cell a v connect rel found j laws o fits low short out area =
    then-Keeps _ _ (image_step-Same board connect rel j)
      (image_step-Untouched board cell laws a v connect rel j o low short out)
      (λ j2 e.
        after_image-Kept board cell laws a v
          (Apart-within a 0x8000 0x9000 otadata_at 0x2000 (omega arith) (omega arith) area) rel fits
          (Apart-within a 0x8000 0x9000 0x8000 0x1000 (omega arith) (omega arith) area) found
          (Apart-within a 0x8000 0x9000 nvs_offset 0x8000 (omega arith) (omega arith) area) connect
          j2 (Same-Originals j j2 e o))
