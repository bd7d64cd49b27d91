-- ===== src/Flash/Update/Planned.antt =====
-- What a new journal plans: `run` of update.rs.
use hid_fi.Common.{
  ◌≡◌, refl, ℕ, zero, suc, ◌+◌, ◌-◌, ◌*◌, ◌%◌, ◌^◌, ◌≤◌, ◌<◌, min, arith, true, Option, none, some,
  List, length, get_elem?, Bool-cases, inl, inr, leb, All, All-take, All-drop,
}
use hid_fi.Common.Bytes.{IsByte, slice?, slice?_eq_some}
use hid_fi.Common.Text.{Text}
use hid_fi.Common.Exec.{ok}
use hid_fi.Common.Exec.Returns.{Returns, pure-Returns, raise-Returns, then-Returns}
use hid_fi.Flash.Flasher.{stub_block}
use hid_fi.Flash.Flasher.Chip.{div_ceil}
use hid_fi.Flash.Flasher.Transfer.{region_of, sectors_of, block_of}
use hid_fi.Flash.Flasher.Region.{small, sectors_of-pos}
use hid_fi.Flash.Image.Table.{Partition, app_slots}
use hid_fi.Flash.Update.{Path2, two_slot, switch_layout}
use hid_fi.Flash.Update.Journal.{planned, Journal, hex, unhex, unhex-hex, mac_str}
use hid_fi.Flash.Update.Board.{Board, otadata_at}
use hid_fi.Flash.Update.Preflight.{Found}
use hid_fi.Flash.Update.Untouched.{Originals, or_panic-Returns}
use hid_fi.Flash.Update.Run.{Release, fits, goal, plan_for, fresh_journal, known}

-- With the stub a write of an image covers no more than its whole blocks of 16 KiB.
pub region_of-le : (n : ℕ) → region_of true n ≤ div_ceil n 0x4000 * 0x4000
unfolding region_of block_of sectors_of div_ceil
region_of-le zero = omega arith
region_of-le (suc n) = elim (Bool-cases (leb (sectors_of (suc n)) stub_block)) [
  | inl p ↦
      let le : sectors_of (suc n) ≤ stub_block = ground arith in
      rw (small (sectors_of (suc n)) (sectors_of-pos (suc n) (omega arith)) le) (omega arith)
  | inr p ↦
      let lt : stub_block < sectors_of (suc n) = ground arith in
      let e : min stub_block (sectors_of (suc n)) ≡ stub_block = grind arith in rw e (omega arith)
]

-- The partition that a plan is for: of the new table where the layout is switched, and else the slot
-- of the board's table that does not run.
unfoldable pub Target : Found → List Partition → Path2 → ℕ → Partition → Type 0
Target found new_table switch_layout slot p =
    (slot ≡ 1) × (get_elem? (app_slots new_table) 1 ≡ some p)
Target found new_table two_slot slot p =
    (t : List Partition) × (found.table ≡ some t)
    × (get_elem? (app_slots t) slot ≡ some p)
    × (slot + min found.running_slot 1 ≡ 1)

pub record Plan (board : Board) (mac : List ℕ) (to : Text) (rel : Release) (found : Found)
    (new_table : List Partition) (j : Journal) : Type 0 where
  pub partition : Partition
  pub target : Target found new_table j.path j.target_slot partition
  pub layout : found.layout ≡ some j.path
  pub offset : j.target_offset ≡ partition.offset
  pub inside : region_of true (length rel.image) ≤ partition.size
  pub md5 : j.image_md5 ≡ hex (board.md5 rel.image)
  pub len : j.image_len ≡ length rel.image % 2 ^ 32
  pub step : j.step ≡ planned
  pub board_mac : j.mac ≡ mac_str mac
  pub version : j.to ≡ to
  pub originals : Originals j

module _ (backup : List ℕ) (bytes : All IsByte backup) where
  read_back_length :
      (a b : ℕ) (xs ys : List ℕ)
      → slice? backup a b ≡ some xs
      → unhex (hex xs) ≡ some ys
      → a + length ys ≡ b
  read_back_length a b xs ys e h =
      let (l, k, t) = slice?_eq_some backup xs a b e in
      let all : All IsByte xs = rw t (All-take IsByte (b - a) _ (All-drop IsByte a backup bytes)) in
      let q : xs ≡ ys = cc (unhex-hex xs all) in rw q at l

module _ (board : Board) (mac : List ℕ) (to : Text) (rel : Release) (found : Found)
    (new_table : List Partition) (bytes : All IsByte found.backup)
    (size : length found.backup ≡ 0x10000) where
  fits_sound :
      (p : Partition) → fits rel.image p ≡ true → region_of true (length rel.image) ≤ p.size
  unfolding fits
  fits_sound p h = let l = region_of-le (length rel.image) in ground (arith, l)

  planned_for :
      (path : Path2) (slot : ℕ) (p : Partition)
      → found.layout ≡ some path
      → Target found new_table path slot p
      → Returns
          (Plan board mac to rel found new_table)
          (plan_for board mac to rel found path (slot, p))
  unfolding plan_for
  planned_for path slot p l t = elim (Bool-cases (fits rel.image p)) [
    | inl e ↦ rw e (
        then-Returns _ _ (or_panic-Returns _) (λ od e1.
          then-Returns _ _ (or_panic-Returns _) (λ table e2. pure-Returns _ (record {
            partition = p;
            target = t;
            layout = l;
            offset = refl;
            inside = fits_sound p e;
            md5 = refl;
            len = refl;
            step = refl;
            board_mac = refl;
            version = refl;
            originals = record {
              table = λ xs h.
                  let k = read_back_length found.backup bytes 0x8000 0x9000 table xs e2 h in
                  omega arith;
              otadata = λ xs h.
                  let k = read_back_length found.backup bytes otadata_at _ od xs e1 h in
                  omega arith;
            };
          }))))
    | inr e ↦ rw e (raise-Returns _)
  ]

  goal-Target :
      (path : Path2)
      → Returns
          (λ (g : ℕ × Partition). Target found new_table path g.0 g.1)
          (goal board found new_table path)
  unfolding goal Target
  goal-Target switch_layout =
      then-Returns _ _ (or_panic-Returns _) (λ p e. pure-Returns _ (refl, e))
  goal-Target two_slot = then-Returns _ _ (or_panic-Returns _) (λ t e.
      then-Returns _ _ (or_panic-Returns _) (λ p e2. pure-Returns _ (t, e, e2, omega arith)))

  known-Plan :
      (path : Path2) (version : Option Text)
      → found.layout ≡ some path
      → Returns
          (Plan board mac to rel found new_table)
          (known board mac to rel found new_table path version)
  known-Plan path none e = raise-Returns _
  known-Plan path (some x) e =
      then-Returns _ _ (goal-Target path) (λ g t. planned_for path g.0 g.1 e t)

  fresh-Plan :
      (layout : Option Path2)
      → found.layout ≡ layout
      → Returns
          (Plan board mac to rel found new_table)
          (fresh_journal board mac to rel found new_table layout)
  unfolding fresh_journal
  fresh-Plan none e = raise-Returns _
  fresh-Plan (some path) e = known-Plan path found.running_version e

-- A new journal is for a slot that does not run, or for the second of the new table where the layout is
-- switched; the image, in whole blocks, is within the slot; and what it keeps of the board is no larger
-- than where it is from, where the backup is the 64 KiB that were asked for.
pub fresh_journal-Plan :
    (board : Board) (mac : List ℕ) (to : Text) (rel : Release) (found : Found)
    (new_table : List Partition) (s s' : board.W) (j : Journal)
    → All IsByte found.backup
    → length found.backup ≡ 0x10000
    → fresh_journal board mac to rel found new_table found.layout s ≡ (ok j, s')
    → Plan board mac to rel found new_table j
fresh_journal-Plan board mac to rel found new_table s s' j bytes size h =
    (fresh-Plan board mac to rel found new_table bytes size found.layout refl).at s s' j h
