-- ===== src/Flash/Update/Same.antt =====
-- What the steps of an update leave of the journal.
use hid_fi.Common.{◌≡◌, refl, ◌∙◌}
use hid_fi.Common.Text.{Text}
use hid_fi.Common.Exec.{M, Res, ok, err, panicked}
use hid_fi.Common.Exec.Returns.{Returns, pure-Returns, if-Returns, bind-Returns}
use hid_fi.Flash.Flasher.{Fault}
use hid_fi.Flash.Update.Journal.{Step, Journal}
use hid_fi.Flash.Update.Board.{Board, Connect, via}
use hid_fi.Flash.Update.Run.{Release, noted, save}
use hid_fi.Flash.Update.Run.Steps.{image_step, switch_step, table_step}

-- Only the step and the history change.
pub record Same (j k : Journal) : Type 0 where
  pub mac : k.mac ≡ j.mac
  pub to : k.to ≡ j.to
  pub path : k.path ≡ j.path
  pub target_slot : k.target_slot ≡ j.target_slot
  pub target_offset : k.target_offset ≡ j.target_offset
  pub image_md5 : k.image_md5 ≡ j.image_md5
  pub image_len : k.image_len ≡ j.image_len
  pub original_otadata : k.original_otadata ≡ j.original_otadata
  pub original_table : k.original_table ≡ j.original_table

pub Same-refl : (j : Journal) → Same j j
Same-refl j = record {
  mac = refl;
  to = refl;
  path = refl;
  target_slot = refl;
  target_offset = refl;
  image_md5 = refl;
  image_len = refl;
  original_otadata = refl;
  original_table = refl;
}

pub Same-trans : (i j k : Journal) → Same i j → Same j k → Same i k
Same-trans i j k h g = record {
  mac = g.mac ∙ h.mac;
  to = g.to ∙ h.to;
  path = g.path ∙ h.path;
  target_slot = g.target_slot ∙ h.target_slot;
  target_offset = g.target_offset ∙ h.target_offset;
  image_md5 = g.image_md5 ∙ h.image_md5;
  image_len = g.image_len ∙ h.image_len;
  original_otadata = g.original_otadata ∙ h.original_otadata;
  original_table = g.original_table ∙ h.original_table;
}

noted-Same : (j : Journal) (step : Step) (note : Text) → Same j (noted j step note)
unfolding noted
noted-Same j step note = record {
  mac = refl;
  to = refl;
  path = refl;
  target_slot = refl;
  target_offset = refl;
  image_md5 = refl;
  image_len = refl;
  original_otadata = refl;
  original_table = refl;
}

via_returned :
    {W A : Type 0} {Q : A → Type 0} (s0 s s' : W) (r : Res Fault A) (m : M Fault W A) (a : A)
    → Returns Q m
    → m s0 ≡ (r, s)
    → (let n : M Fault W A = λ _. (r, s) in via n s0 ≡ (ok a, s'))
    → Q a
unfolding via
via_returned s0 s s' (ok b) m a h e k = h.at s0 s a (rw e cc)
via_returned s0 s s' (err x) m a h e k = cc
via_returned s0 s s' panicked m a h e k = cc

pub via-Returns :
    {W A : Type 0} {Q : A → Type 0} (m : M Fault W A) → Returns Q m → Returns Q (via m)
unfolding via
via-Returns m h = record { at = λ s s' a e. via_returned s (m s).1 s' (m s).0 m a h refl e }

module _ (board : Board) where
  pub save-Same :
      (j : Journal) (step : Step) (note : Text) → Returns (Same j) (save board j step note)
  unfolding save
  save-Same j step note = bind-Returns _ _ (λ a. pure-Returns _ (noted-Same j step note))

  pub image_step-Same :
      (connect : Connect) (rel : Release) (j : Journal)
      → Returns (Same j) (image_step board connect rel j)
  unfolding image_step
  image_step-Same connect rel j =
      if-Returns _ _ _ (pure-Returns j (Same-refl j))
        (bind-Returns _ _ (λ a. bind-Returns _ _ (λ b. via-Returns _ (save-Same j _ _))))

  pub switch_step-Same : (j : Journal) → Returns (Same j) (switch_step board j)
  unfolding switch_step
  switch_step-Same j = if-Returns _ _ _ (pure-Returns j (Same-refl j)) (
      bind-Returns _ _ (λ a.
        bind-Returns _ _
          (λ b. bind-Returns _ _ (λ c. bind-Returns _ _ (λ d. via-Returns _ (save-Same j _ _))))))

  pub table_step-Same : (rel : Release) (j : Journal) → Returns (Same j) (table_step board rel j)
  unfolding table_step
  table_step-Same rel j = if-Returns _ _ _ (pure-Returns j (Same-refl j)) (
      bind-Returns _ _
        (λ a. bind-Returns _ _ (λ b. bind-Returns _ _ (λ c. via-Returns _ (save-Same j _ _)))))
