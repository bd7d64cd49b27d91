-- ===== src/Flash/Update/Chosen.antt =====
-- The choice of the new slot comes after its image: `run` of update.rs.
use hid_fi.Common.{
  ◌≡◌, refl, sym, ap, ◌∙◌, ℕ, ◌+◌, ◌^◌, ◌≤◌, ◌<◌, ◌⊎◌, inl, inr, arith, Bool, true, false, not,
  List, [], ◌++◌, append-nil, length,
}
use hid_fi.Flash.Flasher.Transfer.{region_of}
use hid_fi.Common.Text.{eq, eq_sound}
use hid_fi.Common.Exec.{M, Res, ok, err, panicked, pure, ◌>>=◌, bind_ok}
use hid_fi.Common.Exec.Keeps.{Keeps}
use hid_fi.Common.Exec.Returns.{Returns, bind-Returns, raise-Returns}
use hid_fi.Flash.Flasher.{FlashError, Fault, no_fuel}
use hid_fi.Flash.Update.Journal.{image_written, Journal, hex}
use hid_fi.Flash.Update.Board.{Board, UpdateError, Connect, via, or_cancelled, otadata_at}
use hid_fi.Flash.Update.Preflight.{Found}
use hid_fi.Flash.Update.Run.{Release, when, below, cancel}
use hid_fi.Flash.Update.Run.Steps.{write_image, image_step, after_image, perform}
use hid_fi.Flash.Update.Cells.{Apart, Laws, via-Keeps}
use hid_fi.Flash.Update.Untouched.{Originals, save-Kept, image_step-Untouched, Same-Originals}
use hid_fi.Flash.Update.Same.{image_step-Same}
use hid_fi.Flash.Update.Performed.{after_image-Kept}

-- At this moment the chip has given the digest of an image, or of the image and a filling, for what it
-- holds from `offset` on.
pub record Tested (board : Board) (offset : ℕ) (image : List ℕ) (w : board.W) : Type 0 where
  pub filling : List ℕ
  pub before : board.W
  pub digest : List ℕ
  pub given : board.flash_md5 offset (length (image ++ filling)) before ≡ (ok digest, w)
  pub same : hex digest ≡ hex (board.md5 (image ++ filling))

-- A write that succeeds has had the chip's digest of what it wrote.
unfoldable pub Verifying : Board → Type 0
Verifying board =
    (offset : ℕ) (bytes : List ℕ) (progress : ℕ → M Fault board.W Bool) (s s' : board.W)
    → 0 < length bytes
    → board.write offset bytes progress s ≡ (ok tt, s')
    → Tested board offset bytes s'

module _ {W A : Type 0} where
  via_ok :
      (r : Res Fault A) (s0 s s' : W) (a : A)
      → (let m : M Fault W A = λ _. (r, s) in via m s0 ≡ (ok a, s'))
      → ◌≡◌ {A = Res Fault A × W} (r, s) (ok a, s')
  unfolding via
  via_ok (ok b) s0 s s' a h = cc
  via_ok (err x) s0 s s' a h = cc
  via_ok panicked s0 s s' a h = cc

  or_cancelled_ok :
      (c : M UpdateError W A) (r : Res Fault A) (s0 s s' : W) (a : A)
      → Returns (λ a. ⊥) c
      → (let m : M Fault W A = λ _. (r, s) in or_cancelled c m s0 ≡ (ok a, s'))
      → ◌≡◌ {A = Res Fault A × W} (r, s) (ok a, s')
  unfolding or_cancelled
  or_cancelled_ok c (ok b) s0 s s' a hc h = cc
  or_cancelled_ok c (err no_fuel) s0 s s' a hc h = cc
  or_cancelled_ok c (err (Fault.flash FlashError.cancelled)) s0 s s' a hc h =
      absurd (hc.at s s' a h)
  or_cancelled_ok c (err (Fault.flash (FlashError.port_gone t))) s0 s s' a hc h = cc
  or_cancelled_ok c (err (Fault.flash (FlashError.timeout t))) s0 s s' a hc h = cc
  or_cancelled_ok c (err (Fault.flash (FlashError.refused t x y))) s0 s s' a hc h = cc
  or_cancelled_ok c (err (Fault.flash (FlashError.wrong_chip x))) s0 s s' a hc h = cc
  or_cancelled_ok c (err (Fault.flash (FlashError.check t))) s0 s s' a hc h = cc
  or_cancelled_ok c panicked s0 s s' a hc h = cc

  pub via_returns : (m : M Fault W A) (s s' : W) (a : A) → via m s ≡ (ok a, s') → m s ≡ (ok a, s')
  unfolding via
  via_returns m s s' a h = via_ok (m s).0 s (m s).1 s' a h

  or_cancelled-Returns :
      (c : M UpdateError W A) (m : M Fault W A) (s s' : W) (a : A)
      → Returns (λ a. ⊥) c
      → or_cancelled c m s ≡ (ok a, s')
      → m s ≡ (ok a, s')
  unfolding or_cancelled
  or_cancelled-Returns c m s s' a hc h = or_cancelled_ok c (m s).0 s (m s).1 s' a hc h

-- What a kept property is after a computation that returned.
Keeps_after :
    {E W A : Type 0} {P : W → Type 0} (m : M E W A) (s s' : W) (r : Res E A)
    → Keeps P m
    → m s ≡ (r, s')
    → P s
    → P s'
Keeps_after m s s' r h e p =
    let e2 : (m s).1 ≡ s' = ap (λ (x : Res _ _ × _). x.1) e in rw e2 at (h.at s p)

-- Since some moment at which the image was tested, no cell behind the settings has changed.
pub record TestedBefore (board : Board) (cell : ℕ → ℕ → board.W → Type 0) (offset : ℕ)
    (image : List ℕ) (s' : board.W) : Type 0 where
  pub moment : board.W
  pub tested : Tested board offset image moment
  pub unchanged : (a v : ℕ) → 0x11000 ≤ a → cell a v moment → cell a v s'

module _ (board : Board) (cell : ℕ → ℕ → board.W → Type 0) (laws : Laws board cell)
    (verifying : Verifying board) where
  cancel-Returns :
      {A : Type 0} (connect : Connect) (j : Journal)
      → Returns (λ (a : A). ⊥) (cancel board {A = A} connect j)
  unfolding cancel
  cancel-Returns connect j = bind-Returns _ _ (λ u.
      bind-Returns _ _ (λ u2. bind-Returns _ _ (λ u3. bind-Returns _ _ (λ u4. raise-Returns _))))

  write_image-Tested :
      (connect : Connect) (rel : Release) (j : Journal) (s s' : board.W)
      → 0 < length rel.image
      → write_image board connect rel j s ≡ (ok tt, s')
      → Tested board j.target_offset rel.image s'
  unfolding write_image Verifying
  write_image-Tested connect rel j s s' some_bytes h =
      let (u, s1, e1, e2) = bind_ok _ _ s s' tt h in
      verifying j.target_offset rel.image _ s1 s' some_bytes
        (or_cancelled-Returns _ _ s1 s' tt (cancel-Returns connect j) e2)

  put-Tested :
      (connect : Connect) (rel : Release) (j : Journal) (same : Bool) (s s' : board.W)
      → 0 < length rel.image
      → (same ≡ true → Tested board j.target_offset rel.image s)
      → when (not same) (write_image board connect rel j) s ≡ (ok tt, s')
      → Tested board j.target_offset rel.image s'
  unfolding pure
  put-Tested connect rel j true s s' some_bytes h e = let e2 : s ≡ s' = cc in rw e2 at (h refl)
  put-Tested connect rel j false s s' some_bytes h e =
      write_image-Tested connect rel j s s' some_bytes e

  -- What the journal says of the image is true of it.
  module _ (rel : Release) (j : Journal) (some_bytes : 0 < length rel.image)
      (md5 : j.image_md5 ≡ hex (board.md5 rel.image)) (len : j.image_len ≡ length rel.image) where
    same_digest :
        (digest : List ℕ) (s s1 : board.W)
        → board.flash_md5 j.target_offset j.image_len s ≡ (ok digest, s1)
        → eq (hex digest) j.image_md5 ≡ true
        → Tested board j.target_offset rel.image s1
    same_digest digest s s1 e h =
        let whole : rel.image ++ [] ≡ rel.image = append-nil rel.image in
        record {
          filling = [];
          before = s;
          digest = digest;
          given =
              ap (λ (n : ℕ). board.flash_md5 j.target_offset n s) (ap length whole ∙ sym len) ∙ e;
          same = eq_sound _ _ h ∙ md5 ∙ ap (λ (bytes : List ℕ). hex (board.md5 bytes)) (sym whole);
        }

    image_step-Tested :
        (connect : Connect) (k : Journal) (s s' : board.W)
        → below j.step image_written ≡ true
        → image_step board connect rel j s ≡ (ok k, s')
        → TestedBefore board cell j.target_offset rel.image s'
    unfolding image_step
    image_step-Tested connect k s s' early h =
        let (digest, s1, e1, h1) = bind_ok _ _ s s' k (rw early at h) in
        let (u, s2, e2, h2) = bind_ok _ _ s1 s' k h1 in
        record {
          moment = s2;
          tested =
              put-Tested connect rel j _ s1 s2 some_bytes
                (same_digest digest s s1 (via_returns _ s s1 digest e1)) e2;
          unchanged = λ a v l c.
              Keeps_after _ s2 s' (ok k) (via-Keeps _ (save-Kept board cell laws a v j _ _)) h2 c;
        }

-- The choice is as it was, or the image was tested in its slot.
unfoldable pub Staged :
    (board : Board) → (ℕ → ℕ → board.W → Type 0) → ℕ → List ℕ → board.W → board.W → Type 0
Staged board cell offset image s s' =
    ((a v : ℕ) → otadata_at ≤ a → a < otadata_at + 0x2000 → cell a v s → cell a v s')
    ⊎ TestedBefore board cell offset image s'

module _ (board : Board) (cell : ℕ → ℕ → board.W → Type 0) (connect : Connect) (rel : Release)
    (found : Found) (j : Journal) (laws : Laws board cell) (o : Originals j)
    (fits : length rel.table ≤ 0x1000) (low : j.target_offset < 2 ^ 32)
    (short : region_of true (length rel.image) < 2 ^ 32) (beyond : 0x10000 ≤ j.target_offset) where
  unmoved :
      (s : board.W) (r : Res UpdateError Journal) (s1 : board.W)
      → image_step board connect rel j s ≡ (r, s1)
      → (a v : ℕ) → otadata_at ≤ a
      → a < otadata_at + 0x2000
      → cell a v s
      → cell a v s1
  unfolding Apart
  unmoved s r s1 e a v l u c =
      Keeps_after _ s s1 r
        (image_step-Untouched board cell laws a v connect rel j o low short (inl (omega arith))) e c

  after-Staged :
      (s : board.W) (r : Res UpdateError Journal × board.W)
      → image_step board connect rel j s ≡ r
      → ((k : Journal) → r.0 ≡ ok k → TestedBefore board cell j.target_offset rel.image r.1)
      → (let m : M UpdateError board.W Journal = λ _. r in
          Staged board cell j.target_offset rel.image s
            ((m >>= after_image board connect rel found) s).1)
  unfolding ◌>>=◌ Staged Apart
  after-Staged s (ok k, s1) e h =
      let t = h k refl in
      inr (record {
        moment = t.moment;
        tested = t.tested;
        unchanged = λ a v l c.
            (after_image-Kept board cell laws a v (inr (omega arith)) rel fits (inr (omega arith))
                found (inr (omega arith)) connect k
                (Same-Originals j k ((image_step-Same board connect rel j).at s s1 k e) o)).at
              s1 (t.unchanged a v l c);
      })
  after-Staged s (err x, s1) e h = inl (λ a v l u c. unmoved s (err x) s1 e a v l u c)
  after-Staged s (panicked, s1) e h = inl (λ a v l u c. unmoved s panicked s1 e a v l u c)

pub perform-Staged :
    (board : Board) (cell : ℕ → ℕ → board.W → Type 0) (connect : Connect) (rel : Release)
    (found : Found) (j : Journal) (s : board.W)
    → Laws board cell
    → Verifying board
    → Originals j
    → 0 < length rel.image
    → length rel.table ≤ 0x1000
    → j.target_offset < 2 ^ 32
    → region_of true (length rel.image) < 2 ^ 32
    → 0x10000 ≤ j.target_offset
    → below j.step image_written ≡ true
    → j.image_md5 ≡ hex (board.md5 rel.image)
    → j.image_len ≡ length rel.image
    → Staged board cell j.target_offset rel.image s (perform board connect rel found j s).1
unfolding perform ◌>>=◌
perform-Staged board cell connect rel found j s laws verifying o some_bytes fits low short beyond
      early md5 len =
    after-Staged board cell connect rel found j laws o fits low short beyond s
      (image_step board connect rel j s) refl
      (λ k e.
        image_step-Tested board cell laws verifying rel j some_bytes md5 len connect k s _ early
          (ap (λ (r : Res UpdateError Journal). (r, (image_step board connect rel j s).1)) e))
