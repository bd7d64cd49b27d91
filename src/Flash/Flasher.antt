-- ===== src/Flash/Flasher.antt =====
-- The client of the chip's loader: companion/crates/hidfi-flash/src/flasher.rs, over a serial port
-- (port.rs) that is a parameter. This file is the framing; a loop counts fuel, and `no_fuel` is its
-- own fault, which no handler takes for an error.
pub mod Chip
pub mod Transfer
pub mod Quiet
pub mod Written
pub mod Region
pub mod Memory
pub mod Calls
pub mod Transfers
mod Tests
use hid_fi.Common.{
  ℕ, zero, suc, ◌+◌, ◌-◌, ◌*◌, ◌%◌, ◌^◌, max, Bool, true, false, not, Option, none, some, List, [],
  ◌∷◌, ◌++◌, ◌==◌, leb, ltb, if◌then◌else◌,
}
use hid_fi.Common.Text.{Text, codes}
use hid_fi.Common.Exec.{M, Res, ok, err, panicked, pure, raise, panic, gets, modify, ◌>>=◌, ◌>>◌}
use hid_fi.Flash.Slip.{Decoder, new_decoder, encode, feed}
use hid_fi.Flash.Proto.{Op, op_code, request, Response, status, parse_response}
use Prim.Native.String.{String}

abbrev pub sector : ℕ
sector = 0x1000

abbrev pub stub_block : ℕ
stub_block = 0x4000

abbrev pub ram_block : ℕ
ram_block = 0x1800

abbrev pub usb_ram_block : ℕ
usb_ram_block = 0x800

abbrev pub mac_efuse_reg : ℕ
mac_efuse_reg = 0x6000_7044

pub data FlashError : Type 0 where
  port_gone : Text → FlashError
  timeout : Text → FlashError
  refused : Text → ℕ → ℕ → FlashError
  wrong_chip : ℕ → FlashError
  check : Text → FlashError
  cancelled : FlashError

pub data Fault : Type 0 where
  flash : FlashError → Fault
  no_fuel : Fault

-- `io::Result`, with the text of its error.
pub data Io (A : Type 0) : Type 0 where
  done : A → Io A
  failed : Text → Io A

-- The trait of port.rs, and the digest that the flasher compares. `read n t` gives up to `n` bytes
-- and waits at most `t` milliseconds for the first.
pub record Port : Type 1 where
  pub P : Type 0
  pub write_all : List ℕ → P → Io (Unit {0}) × P
  pub read : ℕ → ℕ → P → Io (List ℕ) × P
  pub set_dtr : Bool → P → Io (Unit {0}) × P
  pub set_rts : Bool → P → Io (Unit {0}) × P
  pub sleep_ms : ℕ → P → P
  pub md5 : List ℕ → List ℕ

pub record Flasher (P : Type 0) : Type 0 where
  pub port : P
  pub dec : Decoder
  pub frames : List (List ℕ)
  pub stub : Bool
  pub usb : Bool

abbrev pub new_flasher : {P : Type 0} → P → Flasher P
new_flasher p = record { port = p; dec = new_decoder; frames = []; stub = false; usb = false }

abbrev pub Action : Type 0 → Type 0 → Type 0
Action P A = M Fault (Flasher P) A

abbrev pub at_port : {P A : Type 0} → Io A × P → Flasher P → Res Fault A × Flasher P
at_port (done a, p) s = (ok a, record s { port = p })
at_port (failed e, p) s = (err (flash (port_gone e)), record s { port = p })

-- A call of the port, with `?`.
unfoldable pub on_port : {P A : Type 0} → (P → Io A × P) → Action P A
on_port f s = at_port (f s.port) s

unfoldable pub fail : {P A : Type 0} → FlashError → Action P A
unfolding raise
fail e = raise (flash e)

-- `.is_ok()`, and `if let Ok(a)`.
abbrev pub caught : {P A : Type 0} → Res Fault A × Flasher P → Res Fault (Option A) × Flasher P
caught (ok a, s) = (ok (some a), s)
caught (err (flash e), s) = (ok none, s)
caught (err no_fuel, s) = (err no_fuel, s)
caught (panicked, s) = (panicked, s)

unfoldable pub attempt : {P A : Type 0} → Action P A → Action P (Option A)
attempt m s = caught (m s)

-- `for &b in &buf[..n] { self.dec.push(b, &mut out) }`, and the frames queued.
unfoldable pub take_in : {P : Type 0} → List ℕ → Flasher P → Flasher P
unfolding feed
take_in bytes s =
    let (d, out) = feed s.dec bytes [] in record s { dec = d; frames = s.frames ++ out }

unfoldable pub fresh_framing : {P : Type 0} → Flasher P → Flasher P
fresh_framing s = record s { frames = []; dec = new_decoder }

module _ (port : Port) where
  open port use {P, write_all, read}

  unfoldable pub send_raw : List ℕ → Action P (Unit {0})
  unfolding encode on_port
  send_raw frame = on_port (write_all (encode frame))

  unfoldable pub send : Op → List ℕ → ℕ → Action P (Unit {0})
  unfolding request send_raw
  send op bytes chk = send_raw (request op bytes chk)

  -- What was read, none of it a wait of 50 ms, and round the loop again.
  unfoldable pub on_read : (ℕ → Action P (List ℕ)) → ℕ → List ℕ → Action P (List ℕ)
  unfolding take_in
  on_read again waited [] = again ((waited + 50) % 2 ^ 32)
  on_read again waited (b ∷ bs) = do modify (take_in (b ∷ bs)); again waited

  -- The first queued frame, or a read.
  unfoldable pub on_queue : (ℕ → Action P (List ℕ)) → ℕ → ℕ → List (List ℕ) → Action P (List ℕ)
  unfolding on_port on_read fail
  on_queue again timeout_ms waited (f ∷ fs) = do modify (λ s. record s { frames = fs }); pure f
  on_queue again timeout_ms waited [] =
      if leb timeout_ms waited
      then fail (timeout (codes "frame"))
      else do bytes ← on_port (read 1024 50); on_read again waited bytes

  unfoldable pub next_frame_from : ℕ → ℕ → ℕ → Action P (List ℕ)
  unfolding on_queue
  next_frame_from zero timeout_ms waited = raise no_fuel
  next_frame_from (suc fuel) timeout_ms waited = do
    fs ← gets (λ s. s.frames)
    on_queue (next_frame_from fuel timeout_ms) timeout_ms waited fs

  unfoldable pub next_frame : ℕ → ℕ → Action P (List ℕ)
  unfolding next_frame_from
  next_frame fuel timeout_ms = next_frame_from fuel timeout_ms 0

  abbrev pub on_status : Text → Response → Option (ℕ × ℕ) → Action P Response
  on_status what r none = fail (refused what 0xFF 0xFF)
  on_status what r (some (a, b)) = if a == 0 then pure r else fail (refused what a b)

  -- The answer is to another command, or to this one, or none.
  unfoldable pub on_response :
      Op → ℕ → Text → ℕ → (ℕ → Action P Response) → ℕ → Option Response → Action P Response
  unfolding op_code status fail
  on_response op expect what timeout_ms again waited none =
      if ltb timeout_ms waited then fail (timeout what) else again waited
  on_response op expect what timeout_ms again waited (some r) =
      if not (r.op == op_code op) then again waited else on_status what r (status r expect)

  unfoldable pub response_from : ℕ → Op → ℕ → Text → ℕ → ℕ → Action P Response
  unfolding next_frame on_response parse_response
  response_from zero op expect what timeout_ms waited = raise no_fuel
  response_from (suc fuel) op expect what timeout_ms waited = do
    f ← next_frame (suc fuel) (max (timeout_ms - waited) 50)
    on_response op expect what timeout_ms (response_from fuel op expect what timeout_ms)
        ((waited + 50) % 2 ^ 32) (parse_response f)

  -- Sends one command and returns its response.
  unfoldable pub command : ℕ → Op → List ℕ → ℕ → ℕ → String → ℕ → Action P Response
  unfolding send response_from
  command fuel op bytes chk expect what timeout_ms = do
    send op bytes chk
    response_from fuel op expect (codes what) timeout_ms 0
