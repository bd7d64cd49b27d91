-- ===== src/Flash/Update/Untouched.antt =====
-- What an update leaves as it is: each step of update.rs, cell by cell.
use hid_fi.Common.{
  ◌≡◌, refl, sym, ap, ◌∙◌, ℕ, zero, suc, ◌+◌, ◌*◌, ◌^◌, ◌≤◌, ◌<◌, inl, inr, arith, Bool, true,
  false, not, Option, none, some, List, length, if◌then◌else◌,
}
use hid_fi.Common.Bytes.{slice?, slice?_eq_some}
use hid_fi.Common.Text.{Text}
use hid_fi.Common.Exec.{M, ◌>>=◌}
use hid_fi.Common.Exec.Keeps.{Keeps, pure-Keeps, raise-Keeps, bind-Keeps}
use hid_fi.Common.Exec.Returns.{Returns, then-Keeps, panic-Returns, pure-Returns}
use hid_fi.Flash.Flasher.{sector}
use hid_fi.Flash.Flasher.Chip.{div_ceil}
use hid_fi.Flash.Flasher.Transfer.{region_of, sectors_of, block_of}
use hid_fi.Flash.Flasher.Region.{small, sectors_of-pos}
use hid_fi.Flash.Update.{nvs_offset, nvs_size}
use hid_fi.Flash.Update.Journal.{Step, image_written, switched, table_written, rank, Journal, unhex}
use hid_fi.Flash.Update.Board.{Board, UpdateError, Connect, reset, in_loader, or_panic, otadata_at}
use hid_fi.Flash.Update.Run.{Release, always, below, leave, save, write_back, cancel, check_cancel}
use hid_fi.Flash.Update.Run.Steps.{write_image, image_step}
use hid_fi.Flash.Update.Cells.{
  Apart, Laws, via-Keeps, ignore-Keeps, or_cancelled-Keeps, or_panic-Keeps, when-Keeps,
}
use hid_fi.Flash.Update.Same.{Same}

pub settings_region :
    (a : ℕ) → Apart a nvs_offset 0x8000 → Apart a nvs_offset (region_of true nvs_size)
unfolding region_of block_of sectors_of div_ceil
settings_region a h = h

-- What a write of few sectors covers with the stub.
region_of-bound : (n k : ℕ) → n ≤ k * sector → k ≤ 4 → region_of true n ≤ k * sector
unfolding region_of block_of sectors_of div_ceil
region_of-bound zero k h b = omega arith
region_of-bound (suc n) k h b =
    let p : sectors_of (suc n) ≤ k * sector = omega arith in
    rw (small (sectors_of (suc n)) (sectors_of-pos (suc n) (omega arith)) (omega arith)) p

pub Apart-within :
    (a o size o2 size2 : ℕ) → o ≤ o2 → o2 + size2 ≤ o + size → Apart a o size → Apart a o2 size2
unfolding Apart
Apart-within a o size o2 size2 h k (inl l) = inl (omega arith)
Apart-within a o size o2 size2 h k (inr r) = inr (omega arith)

pub or_panic-Returns :
    {W A : Type 0} (o : Option A) → Returns (λ a. o ≡ some a) (or_panic {W = W} o)
unfolding or_panic
or_panic-Returns none = panic-Returns
or_panic-Returns (some a) = pure-Returns a refl

-- A computation that goes on from an option.
pub or_panic_then-Keeps :
    {W A B : Type 0} {P : W → Type 0} (o : Option A) (f : A → M UpdateError W B)
    → ((a : A) → o ≡ some a → Keeps P (f a))
    → Keeps P (or_panic o >>= f)
or_panic_then-Keeps o f h = then-Keeps _ f (or_panic-Returns o) (or_panic-Keeps o) h

pub slice?-length :
    (xs ys : List ℕ) (a size : ℕ) → slice? xs a (a + size) ≡ some ys → length ys ≡ size
slice?-length xs ys a size h = let (e, k, t) = slice?_eq_some xs ys a (a + size) h in omega arith

not-true : (b : Bool) → not b ≡ true → b ≡ false
not-true b h = ground arith

below_sound : (x y : Step) → below x y ≡ true → rank x < rank y
below_sound x y h = ground arith

below_complete : (x y : Step) → below x y ≡ false → rank y ≤ rank x
below_complete x y h = ground arith

if_not-Keeps :
    {E S A : Type 0} {P : S → Type 0} (b : Bool) (m n : M E S A)
    → Keeps P m
    → (b ≡ true → Keeps P n)
    → Keeps P (if not b then m else n)
if_not-Keeps true m n hm hn = hn refl
if_not-Keeps false m n hm hn = hm

-- What a journal keeps of the board is no larger than where it is from.
pub record Originals (j : Journal) : Type 0 where
  pub table : (bytes : List ℕ) → unhex j.original_table ≡ some bytes → length bytes ≤ 0x1000
  pub otadata : (bytes : List ℕ) → unhex j.original_otadata ≡ some bytes → length bytes ≤ 0x2000

pub Same-Originals : (j k : Journal) → Same j k → Originals j → Originals k
Same-Originals j k e h = record {
  table = λ bytes u. h.table bytes (ap unhex (sym e.original_table) ∙ u);
  otadata = λ bytes u. h.otadata bytes (ap unhex (sym e.original_otadata) ∙ u);
}

module _ (board : Board) (cell : ℕ → ℕ → board.W → Type 0) (laws : Laws board cell) (a v : ℕ) where
  abbrev Kept : {E A : Type 0} → M E board.W A → Type 0
  Kept m = Keeps (cell a v) m

  pub write-Kept :
      (offset k : ℕ) (bytes : List ℕ)
      → offset < 2 ^ 32
      → length bytes ≤ k * sector
      → k ≤ 4
      → Apart a offset (k * sector)
      → Kept (board.write offset bytes always)
  write-Kept offset k bytes low h b out =
      laws.write a v offset bytes low (let r = region_of-bound (length bytes) k h b in omega arith)
        (Apart-within a offset (k * sector) offset _ (omega arith)
          (let r = region_of-bound (length bytes) k h b in omega arith) out)

  pub leave-Kept : (connect : Connect) → Kept (leave board connect)
  unfolding leave
  leave-Kept reset = laws.hard_reset a v
  leave-Kept in_loader = laws.leave_forced_download a v

  pub save-Kept : (j : Journal) (step : Step) (note : Text) → Kept (save board j step note)
  unfolding save
  save-Kept j step note = bind-Keeps _ _ (laws.save_journal a v _) (λ u. pure-Keeps _)

  write_back-Kept :
      (offset k : ℕ) (text : Text)
      → offset < 2 ^ 32
      → ((bytes : List ℕ) → unhex text ≡ some bytes → length bytes ≤ k * sector)
      → k ≤ 4
      → Apart a offset (k * sector)
      → Kept (write_back board offset text)
  unfolding write_back
  write_back-Kept offset k text low h b out =
      or_panic_then-Keeps (unhex text) _
        (λ bytes e. ignore-Keeps _ (write-Kept offset k bytes low (h bytes e) b out))

  pub cancel-Kept :
      {A : Type 0} (connect : Connect) (j : Journal)
      → Originals j
      → (below j.step table_written ≡ false → Apart a 0x8000 0x1000)
      → (below j.step switched ≡ false → Apart a otadata_at 0x2000)
      → Keeps (cell a v) (cancel board {A = A} connect j)
  unfolding cancel
  cancel-Kept connect j o table choice =
      bind-Keeps _ _
        (when-Keeps _ _ (λ e.
          write_back-Kept 0x8000 1 _ (omega arith) o.table (omega arith) (table (not-true _ e))))
        (λ u.
          bind-Keeps _ _
            (when-Keeps _ _ (λ e.
              write_back-Kept otadata_at 2 _ (omega arith) o.otadata (omega arith)
                (choice (not-true _ e))))
            (λ u2.
              bind-Keeps _ _ (ignore-Keeps _ (leave-Kept connect))
                (λ u3. bind-Keeps _ _ (ignore-Keeps _ (save-Kept j _ _)) (λ u4. raise-Keeps _))))

  module _ (rel : Release) (j : Journal) (o : Originals j)
      (early : below j.step image_written ≡ true) where
    cancel_early-Kept : (connect : Connect) → Kept (cancel board {A = Unit {0}} connect j)
    unfolding rank
    cancel_early-Kept connect =
        let l = below_sound j.step image_written early in
        cancel-Kept connect j o
          (λ e. let u = below_complete j.step table_written e in absurd (omega arith))
          (λ e. let u = below_complete j.step switched e in absurd (omega arith))

    write_image-Kept :
        (connect : Connect)
        → j.target_offset < 2 ^ 32
        → region_of true (length rel.image) < 2 ^ 32
        → Apart a j.target_offset (region_of true (length rel.image))
        → Kept (write_image board connect rel j)
    unfolding write_image check_cancel
    write_image-Kept connect low short out =
        bind-Keeps _ _
          (bind-Keeps _ _ (via-Keeps _ (laws.cancel_asked a v))
            (λ asked. when-Keeps asked _ (λ e. cancel_early-Kept connect)))
          (λ u. or_cancelled-Keeps _ _ (cancel_early-Kept connect) (
            laws.write_reported a v j.target_offset rel.image image_written (length rel.image) low
              short out))

  pub image_step-Untouched :
      (connect : Connect) (rel : Release) (j : Journal)
      → Originals j
      → j.target_offset < 2 ^ 32
      → region_of true (length rel.image) < 2 ^ 32
      → Apart a j.target_offset (region_of true (length rel.image))
      → Keeps (cell a v) (image_step board connect rel j)
  unfolding image_step
  image_step-Untouched connect rel j o low short out =
      if_not-Keeps (below j.step image_written) _ _ (pure-Keeps j) (λ early.
        bind-Keeps _ _ (via-Keeps _ (laws.flash_md5 a v _ _)) (λ already.
          bind-Keeps _ _
            (when-Keeps _ _ (λ e. write_image-Kept rel j o early connect low short out))
            (λ u. via-Keeps _ (save-Kept j _ _))))
