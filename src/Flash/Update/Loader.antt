-- ===== src/Flash/Update/Loader.antt =====
-- A cable update over the flasher itself, on a chip that does what is documented: update.rs and
-- flasher.rs together.
use hid_fi.Common.{◌≡◌, refl, ap, ◌∙◌, not, ℕ, ◌+◌, ◌≤◌, ◌<◌, ◌⊎◌, Bool, true, false, List}
use hid_fi.Common.Exec.{Res, err, pure, ◌>>=◌}
use hid_fi.Common.Exec.Keeps.{Keeps, pure-Keeps, lift-Keeps, bind-Keeps}
use hid_fi.Flash.Flasher.{Fault, Port, Flasher}
use hid_fi.Flash.Flasher.Chip
use hid_fi.Flash.Flasher.Transfer.{flash_md5}
use hid_fi.Flash.Flasher.Memory.{Apart, Safe, Quiet, ChipLaws, Live}
use hid_fi.Flash.Flasher.Calls.{
  enter_bootloader-Kept, attach_to_loader-Kept, hard_reset-Kept, leave_forced_download-Kept,
  sync-Kept, chip_id-Kept, mac-Kept, load_stub-Kept, attach_flash-Kept,
}
use hid_fi.Flash.Flasher.Transfers.{flash_md5-Kept, read_flash-Kept, safe-quiet, write-Kept}
use hid_fi.Flash.Update.Journal.{Step, switched, table_written, Journal}
use hid_fi.Flash.Update.Board.{Board, Caller, UpdateError, Connect, flasher_board, otadata_at}
use hid_fi.Flash.Update.Run.{Release, always, below, cancel}
use hid_fi.Flash.Update.Run.Steps.{run}
use hid_fi.Flash.Update.Cells.{Laws}
use hid_fi.Flash.Update.Untouched.{Originals, cancel-Kept}
use hid_fi.Flash.Update.Late.{is_refusal}
use hid_fi.Flash.Update.Refused.{run-Leads}
use hid_fi.Flash.Update.Chosen.{TestedBefore}

-- The caller's part does not touch the flash.
pub record CallerLaws (port : Port) (cells : port.P → ℕ → ℕ) (open_at : port.P → ℕ → Bool)
    (caller : Caller port.P) : Type 0 where
  pub cancel_asked :
      (s : Flasher port.P) → Quiet port cells open_at s.port (caller.cancel_asked s).1.port
  pub report :
      (step : Step) (n total : ℕ) (s : Flasher port.P)
      → Quiet port cells open_at s.port (caller.report step n total s).1.port
  pub save_journal :
      (j : Journal) (s : Flasher port.P)
      → Quiet port cells open_at s.port (caller.save_journal j s).1.port
  pub load_journal :
      (s : Flasher port.P) → Quiet port cells open_at s.port (caller.load_journal s).1.port

module _ (port : Port) (fuel : ℕ) (stub : Res Fault Chip.Stub) (sha256 : List ℕ → List ℕ)
    (caller : Caller port.P) where
  abbrev pub loader : Board
  loader = flasher_board port fuel stub sha256 caller

  module _ (cells : port.P → ℕ → ℕ) (open_at : port.P → ℕ → Bool)
      (chip : ChipLaws port cells open_at) (outside : CallerLaws port cells open_at caller) where
    abbrev Value : ℕ → ℕ → port.P → Type 0
    Value a v p = cells p a ≡ v

    Value-quiet :
        (a v : ℕ) (p q : port.P) → Quiet port cells open_at p q → Value a v p → Value a v q
    Value-quiet a v p q k h = k.same a ∙ h

    asks_safely :
        (a v : ℕ) (step : Step) (n total : ℕ)
        → Keeps
            (λ (s : Flasher port.P). Safe port cells open_at a v s.port)
            (caller.report step n total >>= λ _. caller.cancel_asked >>= λ asked. pure (not asked))
    asks_safely a v step n total =
        bind-Keeps _ _
          (record {
            at = λ s h.
                safe-quiet port cells open_at chip a v 0 _ _ (outside.report step n total s) h;
          })
          (λ u.
            bind-Keeps _ _
              (record {
                at = λ s h. safe-quiet port cells open_at chip a v 0 _ _ (outside.cancel_asked s) h;
              })
              (λ asked. pure-Keeps (not asked)))

    loader-Laws : Laws loader (Live port cells open_at)
    loader-Laws = record {
      enter_bootloader =
          λ a v. enter_bootloader-Kept port cells open_at chip (Value a v) (Value-quiet a v);
      attach_to_loader =
          λ a v. attach_to_loader-Kept port cells open_at chip (Value a v) (Value-quiet a v);
      hard_reset = λ a v. hard_reset-Kept port cells open_at chip (Value a v) (Value-quiet a v);
      leave_forced_download = λ a v.
          leave_forced_download-Kept port cells open_at chip (Value a v) (Value-quiet a v) fuel;
      sync = λ a v. sync-Kept port cells open_at chip (Value a v) (Value-quiet a v) fuel;
      chip_id = λ a v. chip_id-Kept port cells open_at chip (Value a v) (Value-quiet a v) fuel;
      mac = λ a v. mac-Kept port cells open_at chip (Value a v) (Value-quiet a v) fuel;
      load_stub = λ a v.
          bind-Keeps _ _ (lift-Keeps stub)
            (load_stub-Kept port cells open_at chip (Value a v) (Value-quiet a v) fuel);
      attach_flash =
          λ a v. attach_flash-Kept port cells open_at chip (Value a v) (Value-quiet a v) fuel;
      flash_md5 = λ a v. flash_md5-Kept port cells open_at chip (Value a v) (Value-quiet a v) fuel;
      read_flash =
          λ a v. read_flash-Kept port cells open_at chip (Value a v) (Value-quiet a v) fuel;
      cancel_asked = λ a v. record { at = λ s h. Value-quiet a v _ _ (outside.cancel_asked s) h };
      report = λ a v step n total. record {
        at = λ s h. Value-quiet a v _ _ (outside.report step n total s) h;
      };
      save_journal =
          λ a v j. record { at = λ s h. Value-quiet a v _ _ (outside.save_journal j s) h };
      load_journal = λ a v. record { at = λ s h. Value-quiet a v _ _ (outside.load_journal s) h };
      write = λ a v offset bytes.
          write-Kept port cells open_at chip a v fuel always (λ n. pure-Keeps true) offset bytes;
      write_reported = λ a v offset bytes step total.
          write-Kept port cells open_at chip a v fuel _ (λ n. asks_safely a v step n total) offset
            bytes;
    }

module _ (port : Port) (fuel : ℕ) (stub : Res Fault Chip.Stub) (sha256 : List ℕ → List ℕ)
    (caller : Caller port.P) (cells : port.P → ℕ → ℕ) (open_at : port.P → ℕ → Bool) where
  -- Cancelling changes no cell of the table unless the journal is at the step at which it is written or
  -- later, none of the choice unless the slot was switched, and never any other, whatever the outcome,
  -- where what the journal keeps of the board is no larger than where it belongs, the chip writes only
  -- where FLASH_BEGIN tells it to and the caller leaves the flash alone.
  pub cancel-Untouched :
      (A : Type 0) (a : ℕ) (connect : Connect) (j : Journal) (s : Flasher port.P)
      → ChipLaws port cells open_at
      → CallerLaws port cells open_at caller
      → Originals j
      → (below j.step table_written ≡ false → Apart a 0x8000 0x1000)
      → (below j.step switched ≡ false → Apart a otadata_at 0x2000)
      → cells (cancel (loader port fuel stub sha256 caller) {A = A} connect j s).1.port a
        ≡ cells s.port a
  cancel-Untouched A a connect j s chip outside o table choice =
      ((cancel-Kept (loader port fuel stub sha256 caller) (Live port cells open_at)
          (loader-Laws port fuel stub sha256 caller cells open_at chip outside) a (cells s.port a)
          {A = A} connect j o table choice).at
        s refl)

  -- An update over the flasher that is refused, for the release, the chip, the board, its firmware, its
  -- layout or the size of the image, has not changed a cell of the flash, on a chip that writes only
  -- where FLASH_BEGIN tells it to, with a caller that leaves it alone.
  pub run-Refused :
      (mac : List ℕ) (connect : Connect) (rel : Release) (s s' : Flasher port.P) (e : UpdateError)
      (a : ℕ)
      → ChipLaws port cells open_at
      → CallerLaws port cells open_at caller
      → run (loader port fuel stub sha256 caller) mac connect rel s ≡ (err e, s')
      → is_refusal e ≡ true
      → cells s'.port a ≡ cells s.port a
  run-Refused mac connect rel s s' e a chip outside h refused =
      let kept =
        (run-Leads (loader port fuel stub sha256 caller) (Live port cells open_at)
            (loader-Laws port fuel stub sha256 caller cells open_at chip outside) a (cells s.port a)
            mac connect rel).at
          s refl e (ap (λ (r : Res UpdateError Journal × Flasher port.P). r.0) h) refused in
      let same = ap (λ (r : Res UpdateError Journal × Flasher port.P). cells r.1.port a) h in
      rw same at kept

  -- The choice of the slot is as it was, or the image was tested in its slot.
  pub InOrder : ℕ → List ℕ → Flasher port.P → Flasher port.P → Type 0
  InOrder offset image s s' =
      ((a : ℕ) → otadata_at ≤ a → a < otadata_at + 0x2000 → cells s'.port a ≡ cells s.port a)
      ⊎ TestedBefore (loader port fuel stub sha256 caller) (Live port cells open_at) offset image s'
