-- ===== src/Flash/Flasher/Quiet.antt =====
-- Waiting for a frame ends: `next_frame` of flasher.rs.
use hid_fi.Common.{
  ◌≡◌, ◌≢◌, refl, ℕ, zero, suc, ◌+◌, ◌*◌, ◌/◌, ◌%◌, ◌^◌, ◌≤◌, ◌<◌, arith, List, [], ◌∷◌, leb, inl,
  inr, Bool-cases,
}
use hid_fi.Common.Exec.{Res, err, pure, gets, modify, ◌>>=◌}
use hid_fi.Flash.Flasher.{
  Fault, no_fuel, Io, done, failed, Port, Flasher, Action, at_port, fail, take_in, on_read,
  on_queue, next_frame_from, next_frame,
}

-- A port that brings bytes only so often: `left` bounds how many reads still do.
pub record Finite (port : Port) (left : port.P → ℕ) : Type 0 where
  pub silence : (n t : ℕ) (p p' : port.P) → port.read n t p ≡ (done [], p') → left p' ≤ left p
  pub speech :
      (n t b : ℕ) (bs : List ℕ) (p p' : port.P)
      → port.read n t p ≡ (done (b ∷ bs), p')
      → left p' < left p

abbrev Ends : {P : Type 0} → Res Fault (List ℕ) × Flasher P → Type 0
Ends r = r.0 ≢ err no_fuel

module _ (port : Port) (left : port.P → ℕ) (finite : Finite port left) where
  -- The rest of the loop ends, from where enough fuel is left.
  abbrev Rest : (ℕ → Action port.P (List ℕ)) → ℕ → ℕ → Type 0
  Rest again timeout_ms fuel =
      (waited k : ℕ) (s : Flasher port.P)
      → timeout_ms ≤ waited + 50 * k
      → left s.port + k < fuel
      → Ends (again waited s)

  after_read :
      (again : ℕ → Action port.P (List ℕ)) (timeout_ms fuel waited k : ℕ) (s : Flasher port.P)
      (r : Io (List ℕ) × port.P)
      → Rest again timeout_ms fuel
      → timeout_ms + 50 < 2 ^ 32
      → waited < timeout_ms
      → timeout_ms ≤ waited + 50 * k
      → left s.port + k < suc fuel
      → port.read 1024 50 s.port ≡ r
      → Ends ((at_port {A = List ℕ} r >>= on_read port again waited) s)
  unfolding ◌>>=◌ on_read modify
  after_read again timeout_ms fuel waited k s (failed e, p) rest big w h l eq = λ x. cc
  after_read again timeout_ms fuel waited zero s (done [], p) rest big w h l eq =
      absurd (omega arith)
  after_read again timeout_ms fuel waited (suc k) s (done [], p) rest big w h l eq =
      rest ((waited + 50) % 2 ^ 32) k (record s { port = p }) (omega arith)
        (omega (arith, finite.silence 1024 50 s.port p eq))
  after_read again timeout_ms fuel waited k s (done (b ∷ bs), p) rest big w h l eq =
      rest waited k (take_in (b ∷ bs) (record s { port = p })) h (
        let f = finite.speech 1024 50 b bs s.port p eq in
        let g : left p + k < fuel = omega arith in g)

  on_queue-Ends :
      (again : ℕ → Action port.P (List ℕ)) (timeout_ms fuel waited k : ℕ) (s : Flasher port.P)
      (queue : List (List ℕ))
      → Rest again timeout_ms fuel
      → timeout_ms + 50 < 2 ^ 32
      → timeout_ms ≤ waited + 50 * k
      → left s.port + k < suc fuel
      → Ends (on_queue port again timeout_ms waited queue s)
  unfolding on_queue fail modify ◌>>=◌ pure
  on_queue-Ends again timeout_ms fuel waited k s (f ∷ fs) rest big h l = λ x. cc
  on_queue-Ends again timeout_ms fuel waited k s [] rest big h l =
      elim (Bool-cases (leb timeout_ms waited)) [
        | inl p ↦ rw p (λ x. cc)
        | inr p ↦ rw p (
            after_read again timeout_ms fuel waited k s (port.read 1024 50 s.port) rest big
              (ground arith) h l refl)
      ]

  next_frame_from-Ends :
      (fuel timeout_ms waited k : ℕ) (s : Flasher port.P)
      → timeout_ms + 50 < 2 ^ 32
      → timeout_ms ≤ waited + 50 * k
      → left s.port + k < fuel
      → Ends (next_frame_from port fuel timeout_ms waited s)
  unfolding next_frame_from gets ◌>>=◌
  next_frame_from-Ends zero timeout_ms waited k s big h l = absurd (omega arith)
  next_frame_from-Ends (suc fuel) timeout_ms waited k s big h l =
      on_queue-Ends (next_frame_from port fuel timeout_ms) timeout_ms fuel waited k s s.frames
        (λ w k' s' h' l'. next_frame_from-Ends fuel timeout_ms w k' s' big h' l') big h l

-- On a port that brings bytes only finitely often, waiting for a frame ends, with a frame or an error:
-- one round for each read that still brings bytes and one for every 50 ms of the wait are enough.
pub next_frame-Ends :
    (port : Port) (left : port.P → ℕ) (fuel timeout_ms : ℕ) (s : Flasher port.P)
    → Finite port left
    → timeout_ms + 50 < 2 ^ 32
    → left s.port + timeout_ms / 50 + 1 < fuel
    → (next_frame port fuel timeout_ms s).0 ≢ err no_fuel
unfolding next_frame
next_frame-Ends port left fuel timeout_ms s finite big h =
    next_frame_from-Ends port left finite fuel timeout_ms 0 (timeout_ms / 50 + 1) s big
      (omega arith) (omega arith)
