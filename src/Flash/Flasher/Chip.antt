-- ===== src/Flash/Flasher/Chip.antt =====
-- Getting the chip's attention, and what it is: flasher.rs.
use hid_fi.Common.{
  ℕ, zero, suc, ◌+◌, ◌-◌, ◌/◌, ◌%◌, ◌^◌, Bool, true, false, Option, none, some, List, [], ◌∷◌, ◌++◌,
  if◌then◌else◌, length, take, drop, replicate,
}
use hid_fi.Common.Bytes.{to_le_bytes, from_le_bytes, slice?}
use hid_fi.Common.Text.{codes, eq}
use hid_fi.Common.Exec.{pure, raise, panic, gets, modify, ◌>>=◌, ◌>>◌}
use hid_fi.Flash.Proto.{Op, SafeWrite, clear_force_download, payload, le, checksum}
use hid_fi.Flash.Flasher.{
  sector, ram_block, usb_ram_block, mac_efuse_reg, timeout, no_fuel, Port, Action, on_port, fail,
  attempt, fresh_framing, send, next_frame, command,
}

-- `chunks(n)`, for `n` above 0: as much fuel as there are elements.
unfoldable pub chunks_from : ℕ → ℕ → List ℕ → List (List ℕ)
chunks_from zero n xs = []
chunks_from (suc fuel) n [] = []
chunks_from (suc fuel) n (x ∷ xs) = take n (x ∷ xs) ∷ chunks_from fuel n (drop n (x ∷ xs))

unfoldable pub chunks : ℕ → List ℕ → List (List ℕ)
unfolding chunks_from
chunks n xs = chunks_from (length xs) n xs

unfoldable pub div_ceil : ℕ → ℕ → ℕ
div_ceil a b = (a + (b - 1)) / b

-- The stub's two segments and its entry point (stub.rs).
pub record Stub : Type 0 where
  pub text_start : ℕ
  pub text : List ℕ
  pub data_start : ℕ
  pub bytes : List ℕ  -- `data`
  pub entry : ℕ

module _ (port : Port) where
  open port use {P, set_dtr, set_rts, sleep_ms}

  unfoldable pub sleep : ℕ → Action P (Unit {0})
  sleep ms = modify (λ s. record s { port = sleep_ms ms s.port })

  unfoldable pub set_stub : Bool → Action P (Unit {0})
  set_stub b = modify (λ s. record s { stub = b })

  unfoldable pub enter_bootloader : Action P (Unit {0})
  unfolding on_port sleep set_stub fresh_framing
  enter_bootloader = do
    on_port (set_dtr false)
    on_port (set_rts true)
    sleep 100
    on_port (set_dtr true)
    on_port (set_rts false)
    sleep 50
    on_port (set_dtr false)
    set_stub false
    modify fresh_framing

  abbrev pub settle : ℕ → Action P (Unit {0})
  settle zero = pure tt
  settle (suc ms) = sleep (suc ms)

  unfoldable pub hard_reset : Action P (Unit {0})
  unfolding on_port sleep set_stub
  hard_reset = do
    usb ← gets (λ s. s.usb)
    on_port (set_dtr false)
    on_port (set_rts true)
    sleep (if usb then 200 else 100)
    on_port (set_rts false)
    settle (if usb then 200 else 0)
    set_stub false

  unfoldable pub attach_to_loader : Action P (Unit {0})
  unfolding fresh_framing
  attach_to_loader = modify (λ s. fresh_framing (record s { stub = false; usb = true }))

  module _ (fuel : ℕ) where
    unfoldable pub safe_write : SafeWrite → Action P (Unit {0})
    unfolding payload command
    safe_write w = do
      command port fuel Op.write_reg (payload w) 0 0 "clear a boot flag" 1000
      pure tt

    unfoldable pub leave_forced_download : Action P (Unit {0})
    unfolding safe_write hard_reset
    leave_forced_download = safe_write clear_force_download >> hard_reset

    -- `while self.next_frame(100).is_ok() {}`
    unfoldable pub drain : ℕ → Action P (Unit {0})
    drain zero = raise no_fuel
    drain (suc rounds) = do
      f ← attempt (next_frame port fuel 100)
      elim f [ none ↦ pure tt | some _ ↦ drain rounds ]

    unfoldable pub sync_from : ℕ → Action P (Unit {0})
    unfolding command drain attempt
    sync_from zero = fail (timeout (codes "sync"))
    sync_from (suc tries) = do
      r ←
          attempt (
            command port fuel Op.sync (0x07 ∷ 0x07 ∷ 0x12 ∷ 0x20 ∷ replicate 32 0x55) 0 0 "sync"
              200)
      elim r [ none ↦ sync_from tries | some _ ↦ drain fuel ]

    unfoldable pub sync : Action P (Unit {0})
    unfolding sync_from
    sync = sync_from 7

    abbrev pub word_of : Option (List ℕ) → Action P ℕ
    word_of none = panic
    word_of (some bytes) = pure (from_le_bytes bytes)

    unfoldable pub chip_id : Action P ℕ
    unfolding command slice?
    chip_id = do
      r ← command port fuel Op.get_security_info [] 0 20 "read security info" 1000
      word_of (slice? r.body 12 16)

    unfoldable pub read_reg : ℕ → Action P ℕ
    unfolding command to_le_bytes
    read_reg addr = do
      r ← command port fuel Op.read_reg (to_le_bytes 4 addr) 0 0 "read a register" 1000
      pure r.value

    -- `as u8` of shifts.
    unfoldable pub mac : Action P (List ℕ)
    unfolding read_reg
    mac = do
      m0 ← read_reg mac_efuse_reg
      m1 ← read_reg (mac_efuse_reg + 4)
      pure (
          m1 / 2 ^ 8 % 256
          ∷ m1 % 256
          ∷ m0 / 2 ^ 24 % 256
          ∷ m0 / 2 ^ 16 % 256
          ∷ m0 / 2 ^ 8 % 256
          ∷ m0 % 256
          ∷ [])

    unfoldable pub send_chunks : ℕ → List (List ℕ) → Action P (Unit {0})
    unfolding command checksum le
    send_chunks seq [] = pure tt
    send_chunks seq (c ∷ cs) = do
      command port fuel Op.mem_data (le (length c ∷ seq ∷ 0 ∷ 0 ∷ []) ++ c) (checksum c) 0
          "load the stub" 1000
      send_chunks (suc seq) cs

    unfoldable pub load_segment : ℕ → List ℕ → Action P (Unit {0})
    unfolding command le div_ceil chunks send_chunks
    load_segment addr bytes = do
      usb ← gets (λ s. s.usb)
      let block = if usb then usb_ram_block else ram_block
      command port fuel Op.mem_begin
          (le (length bytes ∷ div_ceil (length bytes) block ∷ block ∷ addr ∷ [])) 0 0
          "load the stub" 1000
      send_chunks 0 (chunks block bytes)

    -- Twenty frames are waited for, "OHAI" among them.
    unfoldable pub await_stub : ℕ → Action P (Unit {0})
    unfolding next_frame attempt set_stub
    await_stub zero = fail (timeout (codes "the stub to start"))
    await_stub (suc tries) = do
      f ← attempt (next_frame port fuel 200)
      elim f [
        | none ↦ await_stub tries
        | some frame ↦ elim (eq frame (codes "OHAI")) [
          | true ↦ set_stub true
          | false ↦ await_stub tries
        ]
      ]

    unfoldable pub load_stub : Stub → Action P (Unit {0})
    unfolding load_segment send await_stub le
    load_stub stub = do
      load_segment stub.text_start stub.text
      load_segment stub.data_start stub.bytes
      send port Op.mem_end (le (0 ∷ stub.entry ∷ [])) 0
      await_stub 20

    unfoldable pub attach_flash : ℕ → Action P (Unit {0})
    unfolding command le
    attach_flash size = do
      command port fuel Op.spi_attach (le (0 ∷ [])) 0 0 "attach the flash" 1000
      command port fuel Op.spi_set_params (le (0 ∷ size ∷ 0x10000 ∷ sector ∷ 0x100 ∷ 0xFFFF ∷ [])) 0
          0 "set the flash size" 1000
      pure tt
