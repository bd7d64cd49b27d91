-- ===== src/Flash/Update/Late.antt =====
-- The steps that write never refuse: how the parts of `run` in update.rs fail.
use hid_fi.Common.{◌≡◌, refl, sym, ℕ, Bool, true, false, Option, none, some, List}
use hid_fi.Common.Exec.{M, Res, ok, err, panicked}
use hid_fi.Common.Exec.Raises.{
  Raises, pure-Raises, panic-Raises, raise-Raises, if-Raises, bind-Raises,
}
use hid_fi.Flash.Flasher.{FlashError, Fault, no_fuel}
use hid_fi.Flash.Update.Journal.{Journal}
use hid_fi.Flash.Update.Board.{Board, UpdateError, Connect, via, or_panic, ignore, or_cancelled}
use hid_fi.Flash.Update.Preflight.{Found}
use hid_fi.Flash.Update.Run.{Release, when, cancel, write_back, check_cancel}
use hid_fi.Flash.Update.Run.Steps.{
  write_sector, differs, put_choice, switch_of, choose_again, write_image, image_step,
  put_first_choice, switch_step, write_table, table_step, still_chosen, restore_settings,
  settings_kept, finish, after_image, perform,
}

-- The answers that end an update before its first write.
unfoldable pub is_refusal : UpdateError → Bool
is_refusal (UpdateError.wrong_chip n) = true
is_refusal (UpdateError.wrong_board t) = true
is_refusal UpdateError.foreign_firmware = true
is_refusal UpdateError.unknown_layout = true
is_refusal UpdateError.too_big = true
is_refusal UpdateError.bad_release = true
is_refusal _ = false

abbrev pub Late : UpdateError → Type 0
Late e = is_refusal e ≡ false

raised-Late :
    {A : Type 0} (x : Fault) (e : UpdateError)
    → ◌≡◌ {A = Res UpdateError A} (err (UpdateError.flash x)) (err e)
    → Late e
unfolding is_refusal
raised-Late x e h = let k : UpdateError.flash x ≡ e = cc in rw (sym k) refl

module _ {W A : Type 0} where
  flash-Late :
      (r : Res Fault A) (s s0 : W) (e : UpdateError)
      → (let m : M Fault W A = λ _. (r, s) in (via m s0).0 ≡ err e)
      → Late e
  unfolding via is_refusal
  flash-Late (ok a) s s0 e h = cc
  flash-Late (err x) s s0 e h = let k : UpdateError.flash x ≡ e = cc in rw (sym k) refl
  flash-Late panicked s s0 e h = cc

  pub via-Raises : (m : M Fault W A) → Raises Late (via m)
  unfolding via
  via-Raises m = record { at = λ s e h. flash-Late (m s).0 (m s).1 s e h }

  ignore-Late :
      (r : Res Fault A) (s s0 : W) (e : UpdateError)
      → (let m : M Fault W A = λ _. (r, s) in (ignore m s0).0 ≡ err e)
      → Late e
  unfolding ignore is_refusal
  ignore-Late (ok a) s s0 e h = cc
  ignore-Late (err no_fuel) s s0 e h = let k : UpdateError.flash no_fuel ≡ e = cc in rw (sym k) refl
  ignore-Late (err (Fault.flash x)) s s0 e h = cc
  ignore-Late panicked s s0 e h = cc

  ignore-Raises : (m : M Fault W A) → Raises Late (ignore m)
  unfolding ignore
  ignore-Raises m = record { at = λ s e h. ignore-Late (m s).0 (m s).1 s e h }

  or_cancelled-Late :
      (c : M UpdateError W A) (r : Res Fault A) (s s0 : W) (e : UpdateError)
      → Raises Late c
      → (let m : M Fault W A = λ _. (r, s) in (or_cancelled c m s0).0 ≡ err e)
      → Late e
  unfolding or_cancelled
  or_cancelled-Late c (ok a) s s0 e hc h = cc
  or_cancelled-Late c (err no_fuel) s s0 e hc h = raised-Late _ e h
  or_cancelled-Late c (err (Fault.flash FlashError.cancelled)) s s0 e hc h = hc.at s e h
  or_cancelled-Late c (err (Fault.flash (FlashError.port_gone t))) s s0 e hc h = raised-Late _ e h
  or_cancelled-Late c (err (Fault.flash (FlashError.timeout t))) s s0 e hc h = raised-Late _ e h
  or_cancelled-Late c (err (Fault.flash (FlashError.refused t x y))) s s0 e hc h = raised-Late _ e h
  or_cancelled-Late c (err (Fault.flash (FlashError.wrong_chip x))) s s0 e hc h = raised-Late _ e h
  or_cancelled-Late c (err (Fault.flash (FlashError.check t))) s s0 e hc h = raised-Late _ e h
  or_cancelled-Late c panicked s s0 e hc h = cc

  or_cancelled-Raises :
      (c : M UpdateError W A) (m : M Fault W A) → Raises Late c → Raises Late (or_cancelled c m)
  unfolding or_cancelled
  or_cancelled-Raises c m hc = record { at = λ s e h. or_cancelled-Late c (m s).0 (m s).1 s e hc h }

  or_panic-Raises : (o : Option A) → Raises Late (or_panic {W = W} o)
  unfolding or_panic
  or_panic-Raises none = panic-Raises
  or_panic-Raises (some a) = pure-Raises a

when-Raises :
    {W : Type 0} (b : Bool) (m : M UpdateError W (Unit {0}))
    → Raises Late m
    → Raises Late (when b m)
when-Raises true m h = h
when-Raises false m h = pure-Raises tt

ruleset late = (
  pure-Raises, panic-Raises, if-Raises, bind-Raises, via-Raises, ignore-Raises, or_panic-Raises,
  when-Raises,
)

module _ (board : Board) where
  cancel-Raises :
      {A : Type 0} (connect : Connect) (j : Journal) → Raises Late (cancel board {A = A} connect j)
  unfolding cancel write_back is_refusal
  cancel-Raises connect j =
      bind-Raises _ _ (when-Raises _ _ (bind-Raises _ _ (or_panic-Raises _) (λ b. ignore-Raises _)))
        (λ u.
          bind-Raises _ _
            (when-Raises _ _ (bind-Raises _ _ (or_panic-Raises _) (λ b. ignore-Raises _)))
            (λ u2.
              bind-Raises _ _ (ignore-Raises _)
                (λ u3. bind-Raises _ _ (ignore-Raises _) (λ u4. raise-Raises _ refl))))

  check_cancel-Raises :
      (connect : Connect) (j : Journal) → Raises Late (check_cancel board connect j)
  unfolding check_cancel
  check_cancel-Raises connect j = search (cancel-Raises, late)

  put_choice-Raises : (now want : List ℕ) → Raises Late (put_choice board now want)
  unfolding put_choice differs write_sector
  put_choice-Raises now want = search late depth 40

  choose_again-Raises : (od : List ℕ) (slot : ℕ) → Raises Late (choose_again board od slot)
  unfolding choose_again switch_of
  choose_again-Raises od slot = search (put_choice-Raises, late)

  image_step-Raises :
      (connect : Connect) (rel : Release) (j : Journal)
      → Raises Late (image_step board connect rel j)
  unfolding image_step write_image
  image_step-Raises connect rel j =
      search (check_cancel-Raises, or_cancelled-Raises, cancel-Raises, late) depth 40

  switch_step-Raises : (j : Journal) → Raises Late (switch_step board j)
  unfolding switch_step switch_of put_first_choice
  switch_step-Raises j = search (put_choice-Raises, late) depth 40

  table_step-Raises : (rel : Release) (j : Journal) → Raises Late (table_step board rel j)
  unfolding table_step write_table
  table_step-Raises rel j = search (choose_again-Raises, late) depth 40

  still_chosen-Raises : (j : Journal) → Raises Late (still_chosen board j)
  unfolding still_chosen
  still_chosen-Raises j = search (choose_again-Raises, late)

  finish-Raises :
      (connect : Connect) (found : Found) (j : Journal) → Raises Late (finish board connect found j)
  unfolding finish settings_kept restore_settings is_refusal
  finish-Raises connect found j = search (raise-Raises, late) depth 40

  pub perform-Raises :
      (connect : Connect) (rel : Release) (found : Found) (j : Journal)
      → Raises Late (perform board connect rel found j)
  unfolding perform after_image
  perform-Raises connect rel found j =
      search
        (
          image_step-Raises, check_cancel-Raises, switch_step-Raises, table_step-Raises,
          still_chosen-Raises, finish-Raises, late,
        )
        depth 40
