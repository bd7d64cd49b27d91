-- ===== src/Flash/Update/Identified.antt =====
-- Which board an update that succeeds began with: `preflight` and `run` of update.rs.
use hid_fi.Common.{◌≡◌, refl, sym, ap, ◌∙◌, ℕ, List, ◌==◌, inl, inr, Bool-cases, arith}
use hid_fi.Common.Text.{Text, eq, eq_sound}
use hid_fi.Common.Exec.{Res, ok, bind_ok, raise}
use hid_fi.Flash.Image.App.{identify, esp32s3_chip_id}
use hid_fi.Flash.Image.Table.{Partition}
use hid_fi.Flash.Update.Journal.{Journal}
use hid_fi.Flash.Update.Board.{Board, UpdateError, Connect}
use hid_fi.Flash.Update.Preflight.{Found, connected, mac_checked, chip_checked, preflight}
use hid_fi.Flash.Update.Refused.{id_checked-Keeps}
use hid_fi.Flash.Update.Chosen.{via_returns}
use hid_fi.Flash.Update.Run.{Release, release_checked, id_checked}
use hid_fi.Flash.Update.Run.Steps.{run}

-- The board that answers is an ESP32-S3 with this MAC, before anything else is done.
pub record Identified (board : Board) (mac : List ℕ) (connect : Connect) (s : board.W)
    : Type 0 where
  pub called : board.W
  pub synced : board.W
  pub named : board.W
  pub read : board.W
  pub answers : connected board connect s ≡ (ok tt, called)
  pub in_step : board.sync called ≡ (ok tt, synced)
  pub is_esp32s3 : board.chip_id synced ≡ (ok esp32s3_chip_id, named)
  pub its_mac : board.mac named ≡ (ok mac, read)

module _ (board : Board) (mac : List ℕ) where
  mac_checked_ok :
      (got : List ℕ) (s s' : board.W) (found : Found)
      → mac_checked board mac got s ≡ (ok found, s')
      → got ≡ mac
  unfolding mac_checked raise
  mac_checked_ok got s s' found h = elim (Bool-cases (eq got mac)) [
    | inl p ↦ eq_sound got mac p
    | inr p ↦ cc (rw p at h)
  ]

  chip_checked_ok :
      (chip : ℕ) (s s' : board.W) (found : Found)
      → chip_checked board mac chip s ≡ (ok found, s')
      → (chip ≡ esp32s3_chip_id) × (t : board.W) × (board.mac s ≡ (ok mac, t))
  unfolding chip_checked raise
  chip_checked_ok chip s s' found h = elim (Bool-cases (chip == esp32s3_chip_id)) [
    | inl p ↦
        let (got, t, e, k) = bind_ok _ _ s s' found (rw p at h) in
        (
          ground (arith, p),
          t,
          via_returns _ s t got e
              ∙ ap (λ (m : List ℕ). (ok m, t)) (mac_checked_ok got t s' found k),
        )
    | inr p ↦ cc (rw p at h)
  ]

  preflight-Identified :
      (connect : Connect) (s s' : board.W) (found : Found)
      → preflight board mac connect s ≡ (ok found, s')
      → Identified board mac connect s
  unfolding preflight
  preflight-Identified connect s s' found h =
      let (u, s1, e1, k1) = bind_ok _ _ s s' found h in
      let (u2, s2, e2, k2) = bind_ok _ _ s1 s' found k1 in
      let (chip, s3, e3, k3) = bind_ok _ _ s2 s' found k2 in
      let (is, t, m) = chip_checked_ok chip s3 s' found k3 in
      record {
        called = s1;
        synced = s2;
        named = s3;
        read = t;
        answers = via_returns _ s s1 tt e1;
        in_step = via_returns _ s1 s2 tt e2;
        is_esp32s3 = via_returns _ s2 s3 chip e3 ∙ ap (λ (n : ℕ). (ok n, s3)) is;
        its_mac = m;
      }

  pub run-Identified :
      (connect : Connect) (rel : Release) (s s' : board.W) (j : Journal)
      → run board mac connect rel s ≡ (ok j, s')
      → Identified board mac connect s
  unfolding run release_checked
  run-Identified connect rel s s' j h =
      let (checked, s1, e1, k1) = bind_ok _ _ s s' j h in
      let (found, s2, e2, k2) = bind_ok _ _ s1 s' j k1 in
      let stays = (id_checked-Keeps board {P = λ w. w ≡ s} rel (identify rel.image)).at s refl in
      let same : (id_checked board rel (identify rel.image) s).1 ≡ s1 =
        ap (λ (r : Res UpdateError (Text × List Partition) × board.W). r.1) e1 in
      preflight-Identified connect s s2 found
        (ap (preflight board mac connect) (sym stays ∙ same) ∙ e2)
