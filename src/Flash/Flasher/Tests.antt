-- ===== src/Flash/Flasher/Tests.antt =====
-- A port that answers with given frames, and the theorems of the flasher at it.
use hid_fi.Common.{
  ◌≡◌, ◌≢◌, refl, ap, ℕ, ◌-◌, ◌<◌, ◌%◌, ◌≤◌, ◌↔◌, arith, true, false, List, [], ◌∷◌, ◌++◌, length,
  replicate,
}
use hid_fi.Common.Bytes.{to_le_bytes, from_le_bytes, slice?}
use hid_fi.Common.Text.{eq}
use hid_fi.Common.Exec.{ok, err, pure, gets, modify, ◌>>=◌}
use hid_fi.Flash.Slip.{encode, feed, push, push_byte, push_end, escape, encode_byte}
use hid_fi.Flash.Proto.{op_code, request, parse_response, parse_fields, status, le, checksum}
use hid_fi.Flash.Flasher.{
  sector, stub_block, no_fuel, Io, done, Port, Flasher, new_flasher, on_port, take_in, send_raw,
  send, on_read, on_queue, next_frame_from, next_frame, on_response, response_from, command,
}
use hid_fi.Flash.Flasher.Chip.{div_ceil, chunks_from, chunks}
use hid_fi.Flash.Flasher.Transfer.{
  sectors_of, block_of, region_of, padded, flash_md5, write_blocks, read_back, write_padded, write,
}
use hid_fi.Flash.Flasher.Written.{Written, write-Written}
use hid_fi.Flash.Flasher.Region.{region_of-beyond_iff}
use hid_fi.Flash.Flasher.Quiet.{Finite, next_frame-Ends}

abbrev answer : List (List ℕ) → Io (List ℕ) × List (List ℕ)
answer [] = (done [], [])
answer (f ∷ fs) = (done f, fs)

abbrev scripted : Port
scripted = record {
  P = List (List ℕ);
  write_all = λ bytes p. (done tt, p);
  read = λ n t p. answer p;
  set_dtr = λ b p. (done tt, p);
  set_rts = λ b p. (done tt, p);
  sleep_ms = λ ms p. p;
  md5 = λ bytes. replicate 16 7;
}

-- A response to a command.
abbrev response_to : ℕ → List ℕ → List ℕ
response_to op body =
    0xC0 ∷ 1 ∷ op ∷ (to_le_bytes 2 (length body) ++ (replicate 4 0 ++ (body ++ 0xC0 ∷ [])))

abbrev script : List (List ℕ)
script =
    response_to 2 (0 ∷ 0 ∷ [])
    ∷ response_to 3 (0 ∷ 0 ∷ [])
    ∷ response_to 0x13 (replicate 16 7 ++ 0 ∷ 0 ∷ [])
    ∷ []

abbrev with_stub : List (List ℕ) → Flasher (List (List ℕ))
with_stub frames = record (new_flasher frames) { stub = true }

abbrev after_frames : Flasher (List (List ℕ))
after_frames = record (with_stub []) {
  dec = record { buf = []; in_esc = false; bad = false; started = true };
}

written :
    write scripted 20 0x1000 (1 ∷ 2 ∷ 3 ∷ []) (λ n. pure true) (with_stub script)
    ≡ (ok tt, after_frames)
unfolding write write_padded write_blocks read_back flash_md5 block_of region_of sectors_of padded
    div_ceil chunks chunks_from command send send_raw encode escape encode_byte feed push push_byte
    push_end request checksum le op_code response_from next_frame next_frame_from on_queue on_read
    on_response on_port take_in parse_response parse_fields status gets modify pure ◌>>=◌ slice?
    to_le_bytes from_le_bytes eq
written = refl

write-Written_example :
    (0x1000 % sector ≡ 0)
    × (sent : List ℕ) × ((sent ≡ (1 ∷ 2 ∷ 3 ∷ []) ++ replicate (length sent - 3) 0xFF)
        × (length sent ≡ region_of true 3))
    × Written scripted 20 0x1000
        (block_of true 3)
        sent
        (λ n. pure true)
        (with_stub script)
        after_frames
write-Written_example =
    write-Written scripted 20 0x1000 (1 ∷ 2 ∷ 3 ∷ []) (λ n. pure true) (with_stub script)
      after_frames (omega arith) written

-- The settings: five sectors.
region_of-beyond_iff_example :
    (sectors_of 0x5000 < region_of true 0x5000)
    ↔ ((stub_block < sectors_of 0x5000) × (sectors_of 0x5000 % stub_block ≢ 0))
region_of-beyond_iff_example = region_of-beyond_iff 0x5000 (omega arith)

settings_region_test : (sectors_of 0x5000 ≡ 0x5000) × (region_of true 0x5000 ≡ 0x8000)
unfolding sectors_of region_of block_of div_ceil
settings_region_test = (refl, refl)

abbrev bytes_left : List (List ℕ) → ℕ
bytes_left p = length p

rest_length : (r r' : Io (List ℕ) × List (List ℕ)) → r ≡ r' → length r.1 ≡ length r'.1
rest_length r r' h = ap (λ (x : Io (List ℕ) × List (List ℕ)). length x.1) h

silent : (p p' : List (List ℕ)) → answer p ≡ (done [], p') → length p' ≤ length p
silent [] p' h = let e = rest_length _ _ h in omega arith
silent (f ∷ fs) p' h = let e = rest_length _ _ h in omega arith

spoken :
    (p p' : List (List ℕ)) (b : ℕ) (bs : List ℕ)
    → answer p ≡ (done (b ∷ bs), p')
    → length p' < length p
spoken [] p' b bs h = cc
spoken (f ∷ fs) p' b bs h = let e = rest_length _ _ h in omega arith

scripted-Finite : Finite scripted bytes_left
scripted-Finite = record {
  silence = λ n t p p' h. silent p p' h;
  speech = λ n t b bs p p' h. spoken p p' b bs h;
}

next_frame-Ends_example : (next_frame scripted 10 100 (new_flasher script)).0 ≢ err no_fuel
next_frame-Ends_example =
    next_frame-Ends scripted bytes_left 10 100 (new_flasher script) scripted-Finite (omega arith)
      (omega arith)
