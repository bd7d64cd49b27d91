-- ===== src/Flash/Update/Tests.antt =====
-- A board whose flash is a function from addresses, a journal and a release, for the tests of update.rs.
mod Resumed
mod Wire
use hid_fi.Common.{
  ◌≡◌, refl, sym, ap, ◌∙◌, ℕ, zero, suc, ◌+◌, ◌-◌, ◌%◌, ◌≤◌, ◌<◌, inl, inr, arith, Bool, true,
  false, ◌&&◌, Option, none, some, List, [], ◌∷◌, ◌++◌, length, replicate, get_or, get_elem?, All,
  leb, ltb, if◌then◌else◌, Bool-cases,
}
use hid_fi.Common.Bytes.{IsByte, to_le_bytes, from_le_bytes, slice?}
use hid_fi.Common.Text.{codes, eq, from_utf8_lossy, trim_end_matches}
use hid_fi.Common.Exec.{M, Res, ok, err, pure, raise, ◌>>=◌}
use hid_fi.Common.Exec.Keeps.{Keeps, pure-Keeps, modify-Keeps}
use hid_fi.Common.Exec.Returns.{Returns}
use hid_fi.Flash.Flasher.{Fault}
use hid_fi.Flash.Flasher.Transfer.{region_of}
use hid_fi.Flash.Flasher.Region.{le-region_of}
use hid_fi.Flash.Update.{Path2, two_slot, switch_layout, layout_of, find_named, path_of}
use hid_fi.Flash.Update.Journal.{
  Step, planned, preflighted, image_written, switched, table_written, Journal, rank, hex, unhex,
  unhex-hex,
}
use hid_fi.Flash.Update.Board.{Board, UpdateError, Connect, reset, otadata_at, via}
use hid_fi.Flash.Update.Preflight.{Found, preflight, chip_checked, connected}
use hid_fi.Flash.Image.App.{
  identify, image_is_valid, hash_ok, segments_end, pad_to_16, from_tag, graphic_prefix, id_window,
}
use hid_fi.Flash.Image.Table.{parse_table, entry, field, partition_of, app_slots, kind}
use hid_fi.Flash.Update.Run.{Release, below, cancel, fresh_journal, release_checked}
use hid_fi.Flash.Update.Run.Steps.{perform, run}
use hid_fi.Flash.Update.Untouched.{Originals}
use hid_fi.Flash.Update.Planned.{Plan, fresh_journal-Plan}
use hid_fi.Flash.Update.Late.{is_refusal}

abbrev Memory : Type 0
Memory = ℕ → ℕ

abbrev cell_of : Memory → ℕ → ℕ
cell_of w a = w a % 256

abbrev put : ℕ → List ℕ → Memory → Memory
put offset bytes w a =
    if leb offset a && ltb a (offset + length bytes) then get_or bytes (a - offset) 0 else w a

abbrev cells : Memory → ℕ → ℕ → List ℕ
cells w offset zero = []
cells w offset (suc n) = cell_of w offset ∷ cells w (suc offset) n

-- A digest that tells everything apart.
abbrev low_bytes : List ℕ → List ℕ
low_bytes [] = []
low_bytes (b ∷ bs) = b % 256 ∷ low_bytes bs

abbrev no_digest : List ℕ → List ℕ
no_digest bytes = replicate 32 0

abbrev pub memory_board : Board
memory_board = record {
  W = Memory;
  md5 = low_bytes;
  sha256 = no_digest;
  enter_bootloader = pure tt;
  attach_to_loader = pure tt;
  hard_reset = pure tt;
  leave_forced_download = pure tt;
  sync = pure tt;
  chip_id = pure 5;
  mac = pure (replicate 6 0);
  load_stub = pure tt;
  attach_flash = λ size. pure tt;
  flash_md5 = λ offset len w. (ok (cells w offset len), w);
  read_flash = λ offset len w. (ok (cells w offset len), w);
  write = λ offset bytes progress w. (ok tt, put offset bytes w);
  cancel_asked = pure false;
  report = λ step n total. pure tt;
  save_journal = λ j. pure tt;
  load_journal = pure none;
}

abbrev pub small_release : Release
small_release = record { image = 0xE9 ∷ 7 ∷ 255 ∷ []; table = replicate 32 0xFF }

abbrev pub small_journal : Journal
small_journal = record {
  mac = [];
  to = [];
  path = switch_layout;
  step = planned;
  target_slot = 1;
  target_offset = 0x650000;
  image_md5 = hex (0xE9 ∷ 7 ∷ 255 ∷ []);
  image_len = 3;
  original_otadata = hex (1 ∷ 2 ∷ []);
  original_table = hex (3 ∷ []);
  history = [];
}

three : All IsByte (3 ∷ [])
three = (omega arith, tt)

one_two : All IsByte (1 ∷ 2 ∷ [])
one_two = (omega arith, (omega arith, tt))

short : (xs ys : List ℕ) (n : ℕ) → xs ≡ ys → length xs ≤ n → length ys ≤ n
short xs ys n e h = rw e at h

pub small-Originals : Originals small_journal
small-Originals = record {
  table = λ bytes h.
      let k : 3 ∷ [] ≡ bytes = cc (h, unhex-hex (3 ∷ []) three) in
      short (3 ∷ []) bytes 0x1000 k (omega arith);
  otadata = λ bytes h.
      let k : 1 ∷ 2 ∷ [] ≡ bytes = cc (h, unhex-hex (1 ∷ 2 ∷ []) one_two) in
      short (1 ∷ 2 ∷ []) bytes 0x2000 k (omega arith);
}

abbrev pub erased : Memory
erased a = 0xFF

abbrev pub one_app_backup : Found
one_app_backup = record {
  backup = [];
  table = none;
  running_slot = 0;
  running_version = some (codes "hid_fi_v4.0.0");
  layout = some switch_layout;
}

unhex-hex_example : unhex (hex (0xE9 ∷ 7 ∷ 255 ∷ [])) ≡ some (0xE9 ∷ 7 ∷ 255 ∷ [])
unhex-hex_example = unhex-hex (0xE9 ∷ 7 ∷ 255 ∷ []) (omega arith, (omega arith, (omega arith, tt)))

-- A table of the settings and two app slots, and an image of the program's, for the chip.
abbrev entry_of : ℕ → ℕ → ℕ → ℕ → List ℕ → List ℕ
entry_of ptype subtype offset size name =
    0xAA
    ∷ 0x50
    ∷ ptype
    ∷ subtype
    ∷ (to_le_bytes 4 offset ++ (to_le_bytes 4 size ++ (name ++ replicate (20 - length name) 0)))

abbrev pub two_slots : List ℕ
two_slots =
    entry_of 1 2 0x9000 0x5000 (codes "nvs")
    ++ (entry_of 0 0x10 0x10000 0x640000 (codes "app0")
        ++ (entry_of 0 0x11 0x650000 0x640000 (codes "app1") ++ replicate 32 0xFF))

abbrev pub good_image : List ℕ
good_image =
    0xE9 ∷ 1 ∷ (replicate 10 0 ++ 9 ∷ (replicate 10 0 ++ 1 ∷ []))
    ++ (to_le_bytes 4 0x3C00_0000
        ++ (to_le_bytes 4 16
            ++ (codes "hid_fi_v4.1.0" ++ (replicate 3 0 ++ (replicate 16 0 ++ replicate 32 0)))))

abbrev pub good_release : Release
good_release = record { image = good_image; table = two_slots }
