-- ===== src/Flash/Flasher/Calls.antt =====
-- The resets, the chip's identity and the stub keep every cell of the flash, on a chip that does what
-- is documented: flasher.rs.
use hid_fi.Common.{
  ℕ, zero, suc, ◌+◌, Bool, true, false, Option, none, some, List, [], ◌∷◌, ◌++◌, if◌then◌else◌,
  length, replicate,
}
use Prim.Native.String.{String}
use hid_fi.Common.Bytes.{to_le_bytes}
use hid_fi.Common.Text.{codes, eq}
use hid_fi.Common.Exec.{modify}
use hid_fi.Common.Exec.Keeps.{
  Keeps, pure-Keeps, raise-Keeps, panic-Keeps, gets-Keeps, modify-Keeps, bind-Keeps, keeps_rules,
}
use hid_fi.Flash.Proto.{Op, SafeWrite, clear_force_download, le, checksum}
use hid_fi.Flash.Flasher.{
  sector, ram_block, usb_ram_block, mac_efuse_reg, no_fuel, Port, Flasher, Action, on_port,
  fresh_framing, send_raw, send, next_frame, command,
}
use hid_fi.Flash.Flasher.Memory.{
  Quiet, Harmless, ChipLaws, on_port-Keeps, attempt-Keeps, fail-Keeps, send-Kept, next_frame-Kept,
  response_from-Kept,
}
use hid_fi.Flash.Flasher.Chip.{
  Stub, div_ceil, sleep, set_stub, enter_bootloader, settle, hard_reset, attach_to_loader,
  safe_write, leave_forced_download, drain, sync_from, sync, word_of, chip_id, read_reg, mac,
  send_chunks, load_segment, await_stub, load_stub, attach_flash,
}

module _ (port : Port) (cells : port.P → ℕ → ℕ) (open_at : port.P → ℕ → Bool)
    (laws : ChipLaws port cells open_at) (Q : port.P → Type 0)
    (quiet : (p q : port.P) → Quiet port cells open_at p q → Q p → Q q) where
  abbrev Kept : {A : Type 0} → Action port.P A → Type 0
  Kept m = Keeps (λ (s : Flasher port.P). Q s.port) m

  pub if_so-Kept :
      (b : Bool) (m n : Action port.P (Unit {0}))
      → Kept m
      → Kept n
      → (let k : Action port.P (Unit {0}) = elim b [ true ↦ m | false ↦ n ] in Kept k)
  if_so-Kept true m n hm hn = hm
  if_so-Kept false m n hm hn = hn

  option-Kept :
      {A : Type 0} (o : Option A) (m : Action port.P (Unit {0})) (f : A → Action port.P (Unit {0}))
      → Kept m
      → ((x : A) → Kept (f x))
      → (let k : Action port.P (Unit {0}) = elim o [ none ↦ m | some x ↦ f x ] in Kept k)
  option-Kept none m f hm hf = hm
  option-Kept (some x) m f hm hf = hf x

  sleep-Kept : (ms : ℕ) → Kept (sleep port ms)
  unfolding sleep
  sleep-Kept ms = modify-Keeps _ (λ s h. quiet s.port _ (laws.sleep_ms ms s.port) h)

  set_stub-Kept : (b : Bool) → Kept (set_stub port b)
  unfolding set_stub
  set_stub-Kept b = modify-Keeps _ (λ s h. h)

  dtr-Kept : (b : Bool) → Kept (on_port (port.set_dtr b))
  dtr-Kept b = on_port-Keeps _ (port.set_dtr b) (λ p. quiet p _ (laws.set_dtr b p))

  rts-Kept : (b : Bool) → Kept (on_port (port.set_rts b))
  rts-Kept b = on_port-Keeps _ (port.set_rts b) (λ p. quiet p _ (laws.set_rts b p))

  settle-Kept : (ms : ℕ) → Kept (settle port ms)
  settle-Kept zero = pure-Keeps tt
  settle-Kept (suc ms) = sleep-Kept (suc ms)

  fresh_framing-Kept : Kept (modify fresh_framing)
  unfolding fresh_framing
  fresh_framing-Kept = modify-Keeps _ (λ s h. h)

  pub enter_bootloader-Kept : Kept (enter_bootloader port)
  unfolding enter_bootloader
  enter_bootloader-Kept =
      search (dtr-Kept, rts-Kept, sleep-Kept, set_stub-Kept, fresh_framing-Kept, keeps_rules) depth
        40

  pub hard_reset-Kept : Kept (hard_reset port)
  unfolding hard_reset
  hard_reset-Kept =
      search (dtr-Kept, rts-Kept, sleep-Kept, set_stub-Kept, settle-Kept, keeps_rules) depth 40

  pub attach_to_loader-Kept : Kept (attach_to_loader port)
  unfolding attach_to_loader fresh_framing
  attach_to_loader-Kept = modify-Keeps _ (λ s h. h)

  module _ (fuel : ℕ) where
    pub command-Kept :
        (op : Op) (bytes : List ℕ) (chk expect : ℕ) (what : String) (timeout_ms : ℕ)
        → Harmless op
        → Kept (command port fuel op bytes chk expect what timeout_ms)
    unfolding command
    command-Kept op bytes chk expect what timeout_ms h =
        bind-Keeps _ _ (send-Kept port cells open_at laws Q quiet op bytes chk h)
          (λ u. response_from-Kept port cells open_at laws Q quiet fuel op expect _ timeout_ms 0)

    flag-Kept : (w : SafeWrite) → Kept (safe_write port fuel w)
    unfolding safe_write command send send_raw
    flag-Kept w =
        bind-Keeps _ _
          (bind-Keeps _ _ (on_port-Keeps _ _ (λ p. quiet p _ (laws.flag w p)))
            (λ u. response_from-Kept port cells open_at laws Q quiet fuel Op.write_reg 0 _ 1000 0))
          (λ r. pure-Keeps tt)

    pub leave_forced_download-Kept : Kept (leave_forced_download port fuel)
    unfolding leave_forced_download
    leave_forced_download-Kept =
        bind-Keeps _ _ (flag-Kept clear_force_download) (λ u. hard_reset-Kept)

    pub frame-Kept : (ms : ℕ) → Kept (next_frame port fuel ms)
    frame-Kept ms = next_frame-Kept port cells open_at laws Q quiet fuel ms

    drain-Kept : (rounds : ℕ) → Kept (drain port fuel rounds)
    unfolding drain
    drain-Kept zero = raise-Keeps no_fuel
    drain-Kept (suc rounds) = bind-Keeps _ _ (attempt-Keeps _ (frame-Kept 100)) (λ f.
        option-Kept f _ (λ x. drain port fuel rounds) (pure-Keeps tt) (λ x. drain-Kept rounds))

    sync_from-Kept : (tries : ℕ) → Kept (sync_from port fuel tries)
    unfolding sync_from
    sync_from-Kept zero = fail-Keeps _
    sync_from-Kept (suc tries) =
        bind-Keeps _ _
          (attempt-Keeps _ (
            command-Kept Op.sync (0x07 ∷ 0x07 ∷ 0x12 ∷ 0x20 ∷ replicate 32 0x55) 0 0 "sync" 200 tt))
          (λ r.
            option-Kept r _ (λ x. drain port fuel fuel) (sync_from-Kept tries)
              (λ x. drain-Kept fuel))

    pub sync-Kept : Kept (sync port fuel)
    unfolding sync
    sync-Kept = sync_from-Kept 7

    word_of-Kept : (o : Option (List ℕ)) → Kept (word_of port fuel o)
    word_of-Kept none = panic-Keeps
    word_of-Kept (some bytes) = pure-Keeps _

    pub chip_id-Kept : Kept (chip_id port fuel)
    unfolding chip_id
    chip_id-Kept =
        bind-Keeps _ _ (command-Kept Op.get_security_info [] 0 20 "read security info" 1000 tt)
          (λ r. word_of-Kept _)

    read_reg-Kept : (addr : ℕ) → Kept (read_reg port fuel addr)
    unfolding read_reg
    read_reg-Kept addr =
        bind-Keeps _ _ (command-Kept Op.read_reg (to_le_bytes 4 addr) 0 0 "read a register" 1000 tt)
          (λ r. pure-Keeps _)

    pub mac-Kept : Kept (mac port fuel)
    unfolding mac
    mac-Kept =
        bind-Keeps _ _ (read_reg-Kept mac_efuse_reg)
          (λ x. bind-Keeps _ _ (read_reg-Kept (mac_efuse_reg + 4)) (λ y. pure-Keeps _))

    send_chunks-Kept : (seq : ℕ) (cs : List (List ℕ)) → Kept (send_chunks port fuel seq cs)
    unfolding send_chunks
    send_chunks-Kept seq [] = pure-Keeps tt
    send_chunks-Kept seq (c ∷ cs) =
        bind-Keeps _ _
          (command-Kept Op.mem_data (le (length c ∷ seq ∷ 0 ∷ 0 ∷ []) ++ c) (checksum c) 0
            "load the stub" 1000 tt)
          (λ r. send_chunks-Kept (suc seq) cs)

    load_segment-Kept : (addr : ℕ) (bytes : List ℕ) → Kept (load_segment port fuel addr bytes)
    unfolding load_segment
    load_segment-Kept addr bytes = bind-Keeps _ _ (gets-Keeps _) (λ usb.
        bind-Keeps _ _
          (command-Kept Op.mem_begin
            (le (
              length bytes
              ∷ div_ceil (length bytes) (if usb then usb_ram_block else ram_block)
              ∷ (if usb then usb_ram_block else ram_block)
              ∷ addr
              ∷ []))
            0 0 "load the stub" 1000 tt)
          (λ r. send_chunks-Kept 0 _))

    await_stub-Kept : (tries : ℕ) → Kept (await_stub port fuel tries)
    unfolding await_stub
    await_stub-Kept zero = fail-Keeps _
    await_stub-Kept (suc tries) = bind-Keeps _ _ (attempt-Keeps _ (frame-Kept 200)) (λ f.
        option-Kept f _
          (λ frame. elim (eq frame (codes "OHAI")) [
            | true ↦ set_stub port true
            | false ↦ await_stub port fuel tries
          ])
          (await_stub-Kept tries)
          (λ frame.
            if_so-Kept (eq frame (codes "OHAI")) _ _ (set_stub-Kept true) (await_stub-Kept tries)))

    pub load_stub-Kept : (stub : Stub) → Kept (load_stub port fuel stub)
    unfolding load_stub
    load_stub-Kept stub = bind-Keeps _ _ (load_segment-Kept stub.text_start stub.text) (λ u.
        bind-Keeps _ _ (load_segment-Kept stub.data_start stub.bytes) (λ u2.
          bind-Keeps _ _
            (send-Kept port cells open_at laws Q quiet Op.mem_end (le (0 ∷ stub.entry ∷ [])) 0 tt)
            (λ u3. await_stub-Kept 20)))

    pub attach_flash-Kept : (size : ℕ) → Kept (attach_flash port fuel size)
    unfolding attach_flash
    attach_flash-Kept size =
        bind-Keeps _ _ (command-Kept Op.spi_attach (le (0 ∷ [])) 0 0 "attach the flash" 1000 tt)
          (λ r.
            bind-Keeps _ _
              (command-Kept Op.spi_set_params
                (le (0 ∷ size ∷ 0x10000 ∷ sector ∷ 0x100 ∷ 0xFFFF ∷ [])) 0 0 "set the flash size"
                1000 tt)
              (λ r2. pure-Keeps tt))
