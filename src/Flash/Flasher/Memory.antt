-- ===== src/Flash/Flasher/Memory.antt =====
-- The flash behind a port, as the chip's protocol documents it, and what the flasher's calls keep of
-- it: flasher.rs.
use hid_fi.Common.{
  ◌≡◌, ℕ, zero, suc, ◌+◌, ◌^◌, ◌≤◌, ◌<◌, ◌⊎◌, Bool, false, not, Option, none, some, List, [], ◌∷◌,
  leb, ltb, ◌==◌,
}
use hid_fi.Common.Bytes.{to_le_bytes}
use hid_fi.Common.Text.{Text}
use hid_fi.Common.Exec.{Res, ok, err, panicked, modify}
use hid_fi.Common.Exec.Keeps.{
  Enters, Keeps, pure-Keeps, raise-Keeps, gets-Keeps, modify-Keeps, bind-Keeps, if-Keeps,
}
use hid_fi.Flash.Slip.{encode}
use hid_fi.Flash.Proto.{Op, SafeWrite, Response, op_code, status, request, payload, le}
use hid_fi.Flash.Flasher.{
  Fault, flash, no_fuel, Io, done, failed, Port, Flasher, Action, on_port, fail, attempt, take_in,
  send_raw, send, on_read, on_queue, next_frame_from, next_frame, on_status, on_response,
  response_from, FlashError,
}

-- Outside of the `size` cells from `offset` on.
unfoldable pub Apart : ℕ → ℕ → ℕ → Type 0
Apart a offset size = (a < offset) ⊎ (offset + size ≤ a)

-- The commands that neither name a place of the flash nor bring bytes for it, and write no register.
abbrev pub Harmless : Op → Type 0
Harmless Op.flash_begin = ⊥
Harmless Op.flash_data = ⊥
Harmless Op.write_reg = ⊥
Harmless _ = Unit

module _ (port : Port) (cells : port.P → ℕ → ℕ) (open_at : port.P → ℕ → Bool) where
  -- A cell has a value and is not in the region that blocks are written to.
  pub record Safe (a v : ℕ) (p : port.P) : Type 0 where
    pub value : cells p a ≡ v
    pub closed : open_at p a ≡ false

  -- No cell has changed, and the region that blocks are written to has not grown.
  pub record Quiet (p q : port.P) : Type 0 where
    pub same : (a : ℕ) → cells q a ≡ cells p a
    pub stays : (a : ℕ) → open_at p a ≡ false → open_at q a ≡ false

  -- What the chip does with its flash: FLASH_BEGIN changes no cell outside of the region that it
  -- announces, and from then on blocks go there; nothing else changes it.
  pub record ChipLaws : Type 0 where
    pub read : (n t : ℕ) (p : port.P) → Quiet p (port.read n t p).1
    pub set_dtr : (b : Bool) (p : port.P) → Quiet p (port.set_dtr b p).1
    pub set_rts : (b : Bool) (p : port.P) → Quiet p (port.set_rts b p).1
    pub sleep_ms : (ms : ℕ) (p : port.P) → Quiet p (port.sleep_ms ms p)
    pub harmless :
        (op : Op) (bytes : List ℕ) (chk : ℕ) (p : port.P)
        → Harmless op
        → Quiet p (port.write_all (encode (request op bytes chk)) p).1
    pub flag :
        (w : SafeWrite) (p : port.P)
        → Quiet p (port.write_all (encode (request Op.write_reg (payload w) 0)) p).1
    pub acknowledgement :
        (n : ℕ) (p : port.P) → Quiet p (port.write_all (encode (to_le_bytes 4 n)) p).1
    pub block :
        (bytes : List ℕ) (chk a v : ℕ) (p : port.P)
        → Safe a v p
        → Safe a v (port.write_all (encode (request Op.flash_data bytes chk)) p).1
    pub begin :
        (total count size offset : ℕ) (tail : List ℕ) (a v : ℕ) (p : port.P)
        → offset < 2 ^ 32
        → total < 2 ^ 32
        → Apart a offset total
        → cells p a ≡ v
        → Safe a v
            (port.write_all
              (encode (request Op.flash_begin (le (total ∷ count ∷ size ∷ offset ∷ tail)) 0))
              p).1

  -- The value of a cell behind the port of a flasher.
  abbrev pub Live : ℕ → ℕ → Flasher port.P → Type 0
  Live a v s = cells s.port a ≡ v

on_port-keeps :
    {P A : Type 0} (Q : P → Type 0) (r : Io A × P) (s : Flasher P)
    → Q r.1
    → Q ((on_port (λ p. r) s).1.port)
unfolding on_port
on_port-keeps Q (done x, p) s h = h
on_port-keeps Q (failed e, p) s h = h

attempt-keeps :
    {P A : Type 0} (Q : Flasher P → Type 0) (r : Res Fault A) (s : Flasher P)
    → Q s
    → (let m : Action P A = λ _. (r, s) in Q (attempt m s).1)
unfolding attempt
attempt-keeps Q (ok x) s h = h
attempt-keeps Q (err (flash e)) s h = h
attempt-keeps Q (err no_fuel) s h = h
attempt-keeps Q panicked s h = h

module _ {P A : Type 0} (Q : P → Type 0) where
  pub on_port-Keeps :
      (f : P → Io A × P)
      → ((p : P) → Q p → Q (f p).1)
      → Keeps (λ (s : Flasher P). Q s.port) (on_port f)
  unfolding on_port
  on_port-Keeps f h = record { at = λ s k. on_port-keeps Q (f s.port) s (h s.port k) }

pub on_port-Enters :
    {P A : Type 0} (R Q : P → Type 0) (f : P → Io A × P)
    → ((p : P) → R p → Q (f p).1)
    → Enters (λ (s : Flasher P). R s.port) (λ (s : Flasher P). Q s.port) (on_port f)
unfolding on_port
on_port-Enters R Q f h = record { at = λ s k. on_port-keeps Q (f s.port) s (h s.port k) }

pub attempt-Keeps :
    {P A : Type 0} {Q : Flasher P → Type 0} (m : Action P A) → Keeps Q m → Keeps Q (attempt m)
unfolding attempt
attempt-Keeps {Q = Q} m h = record { at = λ s k. attempt-keeps Q (m s).0 (m s).1 (h.at s k) }

pub fail-Keeps :
    {P A : Type 0} {Q : Flasher P → Type 0} (e : FlashError) → Keeps Q (fail {P = P} {A = A} e)
unfolding fail
fail-Keeps e = raise-Keeps (flash e)

module _ (port : Port) (cells : port.P → ℕ → ℕ) (open_at : port.P → ℕ → Bool)
    (laws : ChipLaws port cells open_at) (Q : port.P → Type 0)
    (quiet : (p q : port.P) → Quiet port cells open_at p q → Q p → Q q) where
  abbrev Kept : {A : Type 0} → Action port.P A → Type 0
  Kept m = Keeps (λ (s : Flasher port.P). Q s.port) m

  pub take_in-Kept : (bytes : List ℕ) → Kept (modify (take_in bytes))
  unfolding take_in
  take_in-Kept bytes = modify-Keeps _ (λ s h. h)

  pub read-Kept : (n t : ℕ) → Kept (on_port (port.read n t))
  read-Kept n t = on_port-Keeps _ (port.read n t) (λ p. quiet p _ (laws.read n t p))

  pub send-Kept : (op : Op) (bytes : List ℕ) (chk : ℕ) → Harmless op → Kept (send port op bytes chk)
  unfolding send send_raw
  send-Kept op bytes chk h = on_port-Keeps _ _ (λ p. quiet p _ (laws.harmless op bytes chk p h))

  pub acknowledge-Kept : (n : ℕ) → Kept (send_raw port (to_le_bytes 4 n))
  unfolding send_raw
  acknowledge-Kept n = on_port-Keeps _ _ (λ p. quiet p _ (laws.acknowledgement n p))

  on_read-Kept :
      (again : ℕ → Action port.P (List ℕ)) (waited : ℕ) (bytes : List ℕ)
      → ((n : ℕ) → Kept (again n))
      → Kept (on_read port again waited bytes)
  unfolding on_read
  on_read-Kept again waited [] h = h _
  on_read-Kept again waited (b ∷ bs) h = bind-Keeps _ _ (take_in-Kept (b ∷ bs)) (λ u. h waited)

  on_queue-Kept :
      (again : ℕ → Action port.P (List ℕ)) (timeout_ms waited : ℕ) (fs : List (List ℕ))
      → ((n : ℕ) → Kept (again n))
      → Kept (on_queue port again timeout_ms waited fs)
  unfolding on_queue
  on_queue-Kept again timeout_ms waited (f ∷ fs) h =
      bind-Keeps _ _ (modify-Keeps _ (λ s k. k)) (λ u. pure-Keeps f)
  on_queue-Kept again timeout_ms waited [] h =
      if-Keeps (leb timeout_ms waited) _ _ (fail-Keeps _)
        (bind-Keeps _ _ (read-Kept 1024 50) (λ bytes. on_read-Kept again waited bytes h))

  next_frame_from-Kept :
      (fuel timeout_ms waited : ℕ) → Kept (next_frame_from port fuel timeout_ms waited)
  unfolding next_frame_from
  next_frame_from-Kept zero timeout_ms waited = raise-Keeps no_fuel
  next_frame_from-Kept (suc fuel) timeout_ms waited =
      bind-Keeps _ _ (gets-Keeps _)
        (λ fs. on_queue-Kept _ timeout_ms waited fs (next_frame_from-Kept fuel timeout_ms))

  pub next_frame-Kept : (fuel timeout_ms : ℕ) → Kept (next_frame port fuel timeout_ms)
  unfolding next_frame
  next_frame-Kept fuel timeout_ms = next_frame_from-Kept fuel timeout_ms 0

  on_status-Kept :
      (what : Text) (r : Response) (o : Option (ℕ × ℕ)) → Kept (on_status port what r o)
  on_status-Kept what r none = fail-Keeps _
  on_status-Kept what r (some (x, y)) = if-Keeps (x == 0) _ _ (pure-Keeps r) (fail-Keeps _)

  on_response-Kept :
      (op : Op) (expect : ℕ) (what : Text) (timeout_ms : ℕ) (again : ℕ → Action port.P Response)
      (waited : ℕ) (o : Option Response)
      → ((n : ℕ) → Kept (again n))
      → Kept (on_response port op expect what timeout_ms again waited o)
  unfolding on_response
  on_response-Kept op expect what timeout_ms again waited none h =
      if-Keeps (ltb timeout_ms waited) _ _ (fail-Keeps _) (h waited)
  on_response-Kept op expect what timeout_ms again waited (some r) h =
      if-Keeps (not (r.op == op_code op)) _ _ (h waited) (on_status-Kept what r (status r expect))

  pub response_from-Kept :
      (fuel : ℕ) (op : Op) (expect : ℕ) (what : Text) (timeout_ms waited : ℕ)
      → Kept (response_from port fuel op expect what timeout_ms waited)
  unfolding response_from
  response_from-Kept zero op expect what timeout_ms waited = raise-Keeps no_fuel
  response_from-Kept (suc fuel) op expect what timeout_ms waited =
      bind-Keeps _ _ (next_frame-Kept (suc fuel) _) (λ f.
        on_response-Kept op expect what timeout_ms _ _ _
          (response_from-Kept fuel op expect what timeout_ms))
