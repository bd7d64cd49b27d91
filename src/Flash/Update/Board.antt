-- ===== src/Flash/Update/Board.antt =====
-- What a cable update asks of the flasher and of its caller, and the flasher as the one that answers.
-- The digests of the md5 and sha2 crates are parameters.
use hid_fi.Common.{ℕ, ◌*◌, Bool, Option, none, some, List}
use hid_fi.Common.Text.{Text}
use hid_fi.Common.Exec.{M, Res, ok, err, panicked, pure, panic, lift, ◌>>=◌}
use hid_fi.Flash.Flasher.{FlashError, Fault, no_fuel, Port, Flasher}
use hid_fi.Flash.Flasher.Chip
use hid_fi.Flash.Flasher.Transfer
use hid_fi.Flash.Update.Journal.{Step, Journal}

abbrev pub flash_size : ℕ
flash_size = 16 * 1024 * 1024

abbrev pub otadata_at : ℕ
otadata_at = 0xE000

-- `flash` also stands for a loop of the flasher that is out of fuel.
pub data UpdateError : Type 0 where
  flash : Fault → UpdateError
  wrong_chip : ℕ → UpdateError
  wrong_board : Text → UpdateError
  foreign_firmware unknown_layout too_big bad_release cancelled settings_restored : UpdateError

pub data Connect : Type 0 where
  reset in_loader : Connect

-- The flasher's methods; then what the caller gives: whether to cancel, whom to tell of progress,
-- and the file of the journal.
pub record Board : Type 1 where
  pub W : Type 0
  pub md5 : List ℕ → List ℕ
  pub sha256 : List ℕ → List ℕ
  pub enter_bootloader : M Fault W (Unit {0})
  pub attach_to_loader : M Fault W (Unit {0})
  pub hard_reset : M Fault W (Unit {0})
  pub leave_forced_download : M Fault W (Unit {0})
  pub sync : M Fault W (Unit {0})
  pub chip_id : M Fault W ℕ
  pub mac : M Fault W (List ℕ)
  pub load_stub : M Fault W (Unit {0})
  pub attach_flash : ℕ → M Fault W (Unit {0})
  pub flash_md5 : ℕ → ℕ → M Fault W (List ℕ)
  pub read_flash : ℕ → ℕ → M Fault W (List ℕ)
  pub write : ℕ → List ℕ → (ℕ → M Fault W Bool) → M Fault W (Unit {0})
  pub cancel_asked : M Fault W Bool
  pub report : Step → ℕ → ℕ → M Fault W (Unit {0})
  pub save_journal : Journal → M Fault W (Unit {0})
  pub load_journal : M Fault W (Option Journal)

-- What is outside a port `P`: the caller's part.
pub record Caller (P : Type 0) : Type 0 where
  pub cancel_asked : M Fault (Flasher P) Bool
  pub report : Step → ℕ → ℕ → M Fault (Flasher P) (Unit {0})
  pub save_journal : Journal → M Fault (Flasher P) (Unit {0})
  pub load_journal : M Fault (Flasher P) (Option Journal)

-- The flasher on a port; `stub` is what stub.rs makes of its file.
abbrev pub flasher_board :
    (port : Port) → ℕ → Res Fault Chip.Stub → (List ℕ → List ℕ) → Caller port.P → Board
flasher_board port fuel stub sha256 caller = record {
  W = Flasher port.P;
  md5 = port.md5;
  sha256 = sha256;
  enter_bootloader = Chip.enter_bootloader port;
  attach_to_loader = Chip.attach_to_loader port;
  hard_reset = Chip.hard_reset port;
  leave_forced_download = Chip.leave_forced_download port fuel;
  sync = Chip.sync port fuel;
  chip_id = Chip.chip_id port fuel;
  mac = Chip.mac port fuel;
  load_stub = lift stub >>= Chip.load_stub port fuel;
  attach_flash = Chip.attach_flash port fuel;
  flash_md5 = Transfer.flash_md5 port fuel;
  read_flash = Transfer.read_flash port fuel;
  write = Transfer.write port fuel;
  cancel_asked = caller.cancel_asked;
  report = caller.report;
  save_journal = caller.save_journal;
  load_journal = caller.load_journal;
}

module _ {W A : Type 0} where
  abbrev of_flasher : Res Fault A × W → Res UpdateError A × W
  of_flasher (ok a, s) = (ok a, s)
  of_flasher (err e, s) = (err (UpdateError.flash e), s)
  of_flasher (panicked, s) = (panicked, s)

  -- `?` on a call of the flasher.
  unfoldable pub via : M Fault W A → M UpdateError W A
  via m s = of_flasher (m s)

  unfoldable pub or_panic : Option A → M UpdateError W A
  or_panic none = panic
  or_panic (some a) = pure a

  abbrev forget : Res Fault A × W → Res UpdateError (Unit {0}) × W
  forget (ok a, s) = (ok tt, s)
  forget (err no_fuel, s) = (err (UpdateError.flash no_fuel), s)
  forget (err (Fault.flash e), s) = (ok tt, s)
  forget (panicked, s) = (panicked, s)

  -- `let _ =` a call.
  unfoldable pub ignore : M Fault W A → M UpdateError W (Unit {0})
  ignore m s = forget (m s)

  abbrev handled : M UpdateError W A → Res Fault A × W → Res UpdateError A × W
  handled c (ok a, s) = (ok a, s)
  handled c (err no_fuel, s) = (err (UpdateError.flash no_fuel), s)
  handled c (err (Fault.flash FlashError.cancelled), s) = c s
  handled c (err (Fault.flash e), s) = (err (UpdateError.flash (Fault.flash e)), s)
  handled c (panicked, s) = (panicked, s)

  -- `Err(FlashError::Cancelled) => ..., r => r?`
  unfoldable pub or_cancelled : M UpdateError W A → M Fault W A → M UpdateError W A
  or_cancelled c m s = handled c (m s)
