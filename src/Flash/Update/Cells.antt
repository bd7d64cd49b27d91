-- ===== src/Flash/Update/Cells.antt =====
-- What is known of the flash behind a board, cell by cell, and what keeps a cell.
use hid_fi.Common.{◌≡◌, refl, ℕ, ◌^◌, ◌<◌, Bool, true, false, not, Option, none, some, List, length}
use hid_fi.Common.Exec.{M, pure, ◌>>=◌, Res, ok, err, panicked}
use hid_fi.Common.Exec.Keeps.{Keeps, pure-Keeps, panic-Keeps}
use hid_fi.Flash.Flasher.{FlashError, Fault, no_fuel}
unfoldable pub use hid_fi.Flash.Flasher.Memory.{Apart}
use hid_fi.Flash.Flasher.Transfer.{region_of}
use hid_fi.Flash.Update.Journal.{Step, Journal}
use hid_fi.Flash.Update.Board.{Board, UpdateError, via, or_panic, ignore, or_cancelled}
use hid_fi.Flash.Update.Run.{when, always}

-- What keeps the fact `cell a v`, that a cell has a value: all that does not write, and a write of a
-- region elsewhere, of the size that it has with the stub, whose blocks are the larger ones.
pub record Laws (board : Board) (cell : ℕ → ℕ → board.W → Type 0) : Type 0 where
  pub enter_bootloader : (a v : ℕ) → Keeps (cell a v) board.enter_bootloader
  pub attach_to_loader : (a v : ℕ) → Keeps (cell a v) board.attach_to_loader
  pub hard_reset : (a v : ℕ) → Keeps (cell a v) board.hard_reset
  pub leave_forced_download : (a v : ℕ) → Keeps (cell a v) board.leave_forced_download
  pub sync : (a v : ℕ) → Keeps (cell a v) board.sync
  pub chip_id : (a v : ℕ) → Keeps (cell a v) board.chip_id
  pub mac : (a v : ℕ) → Keeps (cell a v) board.mac
  pub load_stub : (a v : ℕ) → Keeps (cell a v) board.load_stub
  pub attach_flash : (a v size : ℕ) → Keeps (cell a v) (board.attach_flash size)
  pub flash_md5 : (a v offset len : ℕ) → Keeps (cell a v) (board.flash_md5 offset len)
  pub read_flash : (a v offset len : ℕ) → Keeps (cell a v) (board.read_flash offset len)
  pub cancel_asked : (a v : ℕ) → Keeps (cell a v) board.cancel_asked
  pub report : (a v : ℕ) (step : Step) (n total : ℕ) → Keeps (cell a v) (board.report step n total)
  pub save_journal : (a v : ℕ) (j : Journal) → Keeps (cell a v) (board.save_journal j)
  pub load_journal : (a v : ℕ) → Keeps (cell a v) board.load_journal
  pub write :
      (a v offset : ℕ) (bytes : List ℕ)
      → offset < 2 ^ 32
      → region_of true (length bytes) < 2 ^ 32
      → Apart a offset (region_of true (length bytes))
      → Keeps (cell a v) (board.write offset bytes always)
  pub write_reported :
      (a v offset : ℕ) (bytes : List ℕ) (step : Step) (total : ℕ)
      → offset < 2 ^ 32
      → region_of true (length bytes) < 2 ^ 32
      → Apart a offset (region_of true (length bytes))
      → Keeps (cell a v) (
          board.write offset bytes (λ n.
            board.report step n total >>= λ _. board.cancel_asked >>= λ asked. pure (not asked)))

module _ {W A : Type 0} where
  via_keeps :
      (Q : W → Type 0) (r : Res Fault A) (s : W)
      → Q s
      → (let m : M Fault W A = λ _. (r, s) in Q (via m s).1)
  unfolding via
  via_keeps Q (ok a) s h = h
  via_keeps Q (err e) s h = h
  via_keeps Q panicked s h = h

  ignore_keeps :
      (Q : W → Type 0) (r : Res Fault A) (s : W)
      → Q s
      → (let m : M Fault W A = λ _. (r, s) in Q (ignore m s).1)
  unfolding ignore
  ignore_keeps Q (ok a) s h = h
  ignore_keeps Q (err no_fuel) s h = h
  ignore_keeps Q (err (Fault.flash e)) s h = h
  ignore_keeps Q panicked s h = h

module _ {W A : Type 0} {P : W → Type 0} where
  pub via-Keeps : (m : M Fault W A) → Keeps P m → Keeps P (via m)
  unfolding via
  via-Keeps m h = record { at = λ s p. via_keeps P (m s).0 (m s).1 (h.at s p) }

  pub ignore-Keeps : (m : M Fault W A) → Keeps P m → Keeps P (ignore m)
  unfolding ignore
  ignore-Keeps m h = record { at = λ s p. ignore_keeps P (m s).0 (m s).1 (h.at s p) }

  or_cancelled_keeps :
      (c : M UpdateError W A) (r : Res Fault A) (s : W)
      → Keeps P c
      → P s
      → (let m : M Fault W A = λ _. (r, s) in P (or_cancelled c m s).1)
  unfolding or_cancelled
  or_cancelled_keeps c (ok a) s hc h = h
  or_cancelled_keeps c (err no_fuel) s hc h = h
  or_cancelled_keeps c (err (Fault.flash FlashError.cancelled)) s hc h = hc.at s h
  or_cancelled_keeps c (err (Fault.flash (FlashError.port_gone t))) s hc h = h
  or_cancelled_keeps c (err (Fault.flash (FlashError.timeout t))) s hc h = h
  or_cancelled_keeps c (err (Fault.flash (FlashError.refused t x y))) s hc h = h
  or_cancelled_keeps c (err (Fault.flash (FlashError.wrong_chip x))) s hc h = h
  or_cancelled_keeps c (err (Fault.flash (FlashError.check t))) s hc h = h
  or_cancelled_keeps c panicked s hc h = h

  pub or_cancelled-Keeps :
      (c : M UpdateError W A) (m : M Fault W A) → Keeps P c → Keeps P m → Keeps P (or_cancelled c m)
  unfolding or_cancelled
  or_cancelled-Keeps c m hc h = record {
    at = λ s p. or_cancelled_keeps c (m s).0 (m s).1 hc (h.at s p);
  }

  pub or_panic-Keeps : (o : Option A) → Keeps P (or_panic {W = W} o)
  unfolding or_panic
  or_panic-Keeps none = panic-Keeps
  or_panic-Keeps (some a) = pure-Keeps a

module _ {W : Type 0} {P : W → Type 0} where
  pub when-Keeps :
      (b : Bool) (m : M UpdateError W (Unit {0})) → (b ≡ true → Keeps P m) → Keeps P (when b m)
  when-Keeps true m h = h refl
  when-Keeps false m h = pure-Keeps tt
