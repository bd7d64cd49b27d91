-- ===== src/Flash/Update/Restarted.antt =====
-- What an update that succeeds has brought: `run` of update.rs.
use hid_fi.Common.{
  ◌≡◌, refl, ◌∙◌, ℕ, true, not, ◌&&◌, ◌||◌, Option, none, some, List, ◌==◌, inl, inr, Bool-cases,
  arith,
}
use hid_fi.Common.Text.{Text, eq, eq_sound}
use hid_fi.Common.Exec.{ok, ◌>>=◌}
use hid_fi.Common.Exec.Returns.{
  Returns, pure-Returns, raise-Returns, if-Returns, bind-Returns, then-Returns,
}
use hid_fi.Flash.Image.App.{ImageId, identify, image_is_valid, esp32s3_chip_id}
use hid_fi.Flash.Image.Table.{Partition, parse_table}
use hid_fi.Flash.Update.{Path2, two_slot, switch_layout, layout_of}
use hid_fi.Flash.Update.Journal.{restarted, Journal, mac_str}
use hid_fi.Flash.Update.Board.{Board, Connect}
use hid_fi.Flash.Update.Preflight.{Found}
use hid_fi.Flash.Update.Run.{
  Release, below, release_checked, table_checked, version_checked, id_checked, resumable, plan_for,
  known, fresh_journal, journal_for, noted, save, is_two_slot,
}
use hid_fi.Flash.Update.Run.Steps.{finish, after_image, perform, planned_journal, begun, run}
use hid_fi.Flash.Update.Same.{
  Same, Same-trans, via-Returns, image_step-Same, switch_step-Same, table_step-Same,
}
use hid_fi.Flash.Update.Identified.{Identified, run-Identified}

-- A release whose image is HID-Fi's, of this version and for the chip, and in order, with a table of
-- two slots.
pub record Good (board : Board) (rel : Release) (to : Text) : Type 0 where
  pub id : ImageId
  pub identified : identify rel.image ≡ some id
  pub version : id.hidfi_version ≡ some to
  pub chip : id.chip_id ≡ esp32s3_chip_id
  pub intact : image_is_valid board.sha256 rel.image ≡ true
  pub table : List Partition
  pub parsed : parse_table board.md5 rel.table ≡ some table
  pub layout : layout_of table ≡ some two_slot

module _ (board : Board) (rel : Release) where
  abbrev Checked : Text × List Partition → Type 0
  Checked c = Good board rel c.0

  two_slot_only : (o : Option Path2) → is_two_slot o ≡ true → o ≡ some two_slot
  two_slot_only none h = cc
  two_slot_only (some two_slot) h = refl
  two_slot_only (some switch_layout) h = cc

  table_checked-Good :
      (id : ImageId) (to : Text) (o : Option (List Partition))
      → identify rel.image ≡ some id
      → id.hidfi_version ≡ some to
      → id.chip_id ≡ esp32s3_chip_id
      → image_is_valid board.sha256 rel.image ≡ true
      → parse_table board.md5 rel.table ≡ o
      → Returns Checked (table_checked board to o)
  table_checked-Good id to none i v c t p = raise-Returns _
  table_checked-Good id to (some table) i v c t p =
      elim (Bool-cases (is_two_slot (layout_of table))) [
        | inl l ↦ rw l (
            pure-Returns _ (record {
              id = id;
              identified = i;
              version = v;
              chip = c;
              intact = t;
              table = table;
              parsed = p;
              layout = two_slot_only _ l;
            }))
        | inr l ↦ rw l (raise-Returns _)
      ]

  version_checked-Good :
      (id : ImageId) (o : Option Text)
      → identify rel.image ≡ some id
      → id.hidfi_version ≡ o
      → Returns Checked (version_checked board rel id o)
  version_checked-Good id none i v = raise-Returns _
  version_checked-Good id (some to) i v =
      elim (Bool-cases
        (not (id.chip_id == esp32s3_chip_id) || not (image_is_valid board.sha256 rel.image))) [
          | inl b ↦ rw b (raise-Returns _)
          | inr b ↦ rw b (table_checked-Good id to _ i v (ground arith) (ground arith) refl)
        ]

  id_checked-Good :
      (o : Option ImageId) → identify rel.image ≡ o → Returns Checked (id_checked board rel o)
  id_checked-Good none i = raise-Returns _
  id_checked-Good (some id) i = version_checked-Good id id.hidfi_version i refl

  -- The journal is this board's, for this version.
  Own : List ℕ → Text → Journal → Type 0
  Own mac to j = (j.mac ≡ mac_str mac) × (j.to ≡ to)

  resumable-Own :
      (mac : List ℕ) (to : Text) (o : Option Journal) (j : Journal)
      → resumable mac to o ≡ some j
      → Own mac to j
  unfolding resumable Own
  resumable-Own mac to none j h = cc
  resumable-Own mac to (some k) j h =
      elim (Bool-cases (eq k.mac (mac_str mac) && eq k.to to && below k.step restarted)) [
        | inl b ↦
            let e : k ≡ j = cc (rw b at h) in
            let own : (k.mac ≡ mac_str mac) × (k.to ≡ to) =
              (eq_sound k.mac (mac_str mac) (ground arith), eq_sound k.to to (ground arith)) in
            rw e at own
        | inr b ↦ cc (rw b at h)
      ]

  known-Own :
      (mac : List ℕ) (to : Text) (found : Found) (new_table : List Partition) (path : Path2)
      (o : Option Text)
      → Returns (Own mac to) (known board mac to rel found new_table path o)
  unfolding plan_for Own
  known-Own mac to found new_table path none = raise-Returns _
  known-Own mac to found new_table path (some x) = bind-Returns _ _ (λ g.
      if-Returns _ _ _ (raise-Returns _)
        (bind-Returns _ _ (λ od. bind-Returns _ _ (λ table. pure-Returns _ (refl, refl)))))

  fresh_journal-Own :
      (mac : List ℕ) (to : Text) (found : Found) (new_table : List Partition) (o : Option Path2)
      → Returns (Own mac to) (fresh_journal board mac to rel found new_table o)
  unfolding fresh_journal
  fresh_journal-Own mac to found new_table none = raise-Returns _
  fresh_journal-Own mac to found new_table (some path) = known-Own mac to found new_table path _

  journal_for-Own :
      (mac : List ℕ) (to : Text) (found : Found) (new_table : List Partition) (o : Option Journal)
      → ((j : Journal) → o ≡ some j → Own mac to j)
      → Returns (Own mac to) (journal_for board mac to rel found new_table o)
  unfolding journal_for
  journal_for-Own mac to found new_table none h = fresh_journal-Own mac to found new_table _
  journal_for-Own mac to found new_table (some j) h = pure-Returns j (h j refl)

  Same-Own : (mac : List ℕ) (to : Text) (j k : Journal) → Same j k → Own mac to j → Own mac to k
  unfolding Own
  Same-Own mac to j k e (h, t) = (e.mac ∙ h, e.to ∙ t)

  Done : List ℕ → Text → Journal → Type 0
  Done mac to j = Own mac to j × (j.step ≡ restarted)

  noted-Done :
      (mac : List ℕ) (to : Text) (j : Journal) (note : Text)
      → Own mac to j
      → Done mac to (noted j restarted note)
  unfolding Done Own noted
  noted-Done mac to j note h = (h, refl)

  finish-Done :
      (mac : List ℕ) (to : Text) (connect : Connect) (found : Found) (j : Journal)
      → Own mac to j
      → Returns (Done mac to) (finish board connect found j)
  unfolding finish save
  finish-Done mac to connect found j h = bind-Returns _ _ (λ u.
      bind-Returns _ _
        (λ u2. via-Returns _ (bind-Returns _ _ (λ u3. pure-Returns _ (noted-Done mac to j _ h)))))

  perform-Done :
      (mac : List ℕ) (to : Text) (connect : Connect) (found : Found) (j : Journal)
      → Own mac to j
      → Returns (Done mac to) (perform board connect rel found j)
  unfolding perform after_image
  perform-Done mac to connect found j h =
      then-Returns _ _ (image_step-Same board connect rel j) (λ j2 e. bind-Returns _ _ (λ u.
        then-Returns _ _ (switch_step-Same board j2) (λ j3 e3. bind-Returns _ _ (λ u2.
          then-Returns _ _ (table_step-Same board rel j3) (λ j4 e4. bind-Returns _ _ (λ u3.
            bind-Returns _ _ (λ u4.
              finish-Done mac to connect found j4
                (Same-Own mac to j j4 (Same-trans j j2 j4 e (Same-trans j2 j3 j4 e3 e4)) h))))))))

  begun-Own :
      (mac : List ℕ) (to : Text) (j : Journal) → Own mac to j → Returns (Own mac to) (begun board j)
  unfolding begun save Own noted
  begun-Own mac to j h =
      if-Returns _ _ _ (via-Returns _ (bind-Returns _ _ (λ u. pure-Returns _ h))) (pure-Returns j h)

  abbrev Brought : List ℕ → Journal → Type 0
  Brought mac j = Good board rel j.to × (j.mac ≡ mac_str mac) × (j.step ≡ restarted)

  after_check :
      (mac : List ℕ) (connect : Connect) (to : Text) (new_table : List Partition) (found : Found)
      → Good board rel to
      → Returns (Brought mac) (
          planned_journal board mac rel (to, new_table) found >>= λ j.
          begun board j >>= perform board connect rel found)
  unfolding planned_journal Done Own
  after_check mac connect to new_table found good =
      then-Returns _ _
        (bind-Returns _ _
          (λ loaded. journal_for-Own mac to found new_table _ (resumable-Own mac to loaded)))
        (λ j own. then-Returns _ _ (begun-Own mac to j own) (λ j1 own1. record {
          at = λ s s' k h.
              let ((m, t), r) = (perform-Done mac to connect found j1 own1).at s s' k h in
              (rw t good, m, r);
        }))

-- An update that succeeds began with a board that answered as an ESP32-S3 with the chosen MAC; it has
-- followed a journal of that MAC, at its last step, for the version of a release whose image is
-- HID-Fi's, for the chip and in order, and whose table has two slots.
pub run-Good :
    (board : Board) (mac : List ℕ) (connect : Connect) (rel : Release) (s s' : board.W)
    (j : Journal)
    → run board mac connect rel s ≡ (ok j, s')
    → Identified board mac connect s
      × Good board rel j.to
      × (j.mac ≡ mac_str mac)
      × (j.step ≡ restarted)
unfolding run release_checked
run-Good board mac connect rel s s' j h =
    let (good, own, last) =
      (then-Returns _ _ (id_checked-Good board rel (identify rel.image) refl) (λ checked good.
          bind-Returns _ _
            (λ found. after_check board rel mac connect checked.0 checked.1 found good))).at
        s s' j h in
    (run-Identified board mac connect rel s s' j h, good, own, last)
