-- ===== src/Flash/Update/Tests/Wire.antt =====
-- A cable update over the flasher, at a chip that answers with given frames and never takes a block.
use hid_fi.Common.{
  ◌≡◌, refl, ℕ, inr, arith, Bool, true, false, none, List, [], ◌∷◌, ◌++◌, length, replicate,
}
use hid_fi.Common.Bytes.{to_le_bytes, from_le_bytes, slice?}
use hid_fi.Common.Text.{eq, from_utf8_lossy, trim_end_matches}
use hid_fi.Common.Exec.{Res, err, pure, raise, gets, modify, ◌>>=◌}
use hid_fi.Flash.Slip.{encode, feed, push, push_byte, push_end, escape, encode_byte}
use hid_fi.Flash.Proto.{op_code, request, parse_response, parse_fields, status}
use hid_fi.Flash.Flasher.{
  Fault, no_fuel, Io, done, Port, Flasher, new_flasher, on_port, take_in, send_raw, send, on_read,
  on_queue, next_frame_from, next_frame, on_response, response_from, command, attempt, fail,
  fresh_framing,
}
use hid_fi.Flash.Flasher.Chip.{Stub, attach_to_loader, sync, sync_from, drain, chip_id}
use hid_fi.Flash.Flasher.Memory.{Apart, Quiet, ChipLaws}
use hid_fi.Flash.Image.App.{
  identify, image_is_valid, hash_ok, segments_end, pad_to_16, from_tag, graphic_prefix, id_window,
}
use hid_fi.Flash.Image.Table.{parse_table, entry, field, partition_of, app_slots, kind}
use hid_fi.Flash.Update.{layout_of, find_named, path_of}
use hid_fi.Flash.Update.Journal.{Journal, rank}
use hid_fi.Flash.Update.Board.{Board, Caller, UpdateError, in_loader, via}
use hid_fi.Flash.Update.Preflight.{preflight, chip_checked, connected}
use hid_fi.Flash.Update.Run.{cancel, release_checked}
use hid_fi.Flash.Update.Run.Steps.{run}
use hid_fi.Flash.Update.Late.{is_refusal}
use hid_fi.Flash.Update.Loader.{CallerLaws, loader, cancel-Untouched, run-Refused}
use hid_fi.Flash.Update.Tests.{small_journal, small-Originals, good_release}

abbrev answer : List (List ℕ) → Io (List ℕ) × List (List ℕ)
answer [] = (done [], [])
answer (f ∷ fs) = (done f, fs)

abbrev no_digest : List ℕ → List ℕ
no_digest bytes = replicate 32 0

abbrev as_it_is : List ℕ → List ℕ
as_it_is bytes = bytes

abbrev scripted : Port
scripted = record {
  P = List (List ℕ);
  write_all = λ bytes p. (done tt, p);
  read = λ n t p. answer p;
  set_dtr = λ b p. (done tt, p);
  set_rts = λ b p. (done tt, p);
  sleep_ms = λ ms p. p;
  md5 = as_it_is;
}

abbrev erased_cells : List (List ℕ) → ℕ → ℕ
erased_cells p a = 0xFF

abbrev nowhere : List (List ℕ) → ℕ → Bool
nowhere p a = false

quiet : (p q : List (List ℕ)) → Quiet scripted erased_cells nowhere p q
quiet p q = record { same = λ a. refl; stays = λ a h. h }

chip : ChipLaws scripted erased_cells nowhere
chip = record {
  read = λ n t p. quiet p _;
  set_dtr = λ b p. quiet p _;
  set_rts = λ b p. quiet p _;
  sleep_ms = λ ms p. quiet p _;
  harmless = λ op bytes chk p h. quiet p _;
  flag = λ w p. quiet p _;
  acknowledgement = λ n p. quiet p _;
  block = λ bytes chk a v p h. record { value = h.value; closed = h.closed };
  begin = λ total count size offset tail a v p low short out h. record { value = h; closed = refl };
}

abbrev no_caller : Caller (List (List ℕ))
no_caller = record {
  cancel_asked = pure false;
  report = λ step n total. pure tt;
  save_journal = λ j. pure tt;
  load_journal = pure none;
}

outside : CallerLaws scripted erased_cells nowhere no_caller
unfolding pure
outside = record {
  cancel_asked = λ s. quiet s.port _;
  report = λ step n total s. quiet s.port _;
  save_journal = λ j s. quiet s.port _;
  load_journal = λ s. quiet s.port _;
}

abbrev response_to : ℕ → List ℕ → List ℕ
response_to op body =
    0xC0 ∷ 1 ∷ op ∷ (to_le_bytes 2 (length body) ++ (replicate 4 0 ++ (body ++ 0xC0 ∷ [])))

abbrev no_stub : Res Fault Stub
no_stub = err no_fuel

abbrev board : Board
board = loader scripted 20 no_stub no_digest no_caller

-- The chip calls itself by another number.
abbrev another_chip : Flasher (List (List ℕ))
another_chip = new_flasher (
    response_to 8 (0 ∷ 0 ∷ [])
    ∷ []
    ∷ []
    ∷ response_to 0x14 (replicate 12 0 ++ (5 ∷ replicate 9 0))
    ∷ [])

abbrev refused_there : Flasher (List (List ℕ))
refused_there = record (new_flasher []) {
  dec = record { buf = []; in_esc = false; bad = false; started = true };
  usb = true;
}

other_chip :
    run board (replicate 6 0) in_loader good_release another_chip
    ≡ (err (UpdateError.wrong_chip 5), refused_there)
unfolding run release_checked preflight chip_checked connected identify from_tag graphic_prefix
    id_window from_utf8_lossy image_is_valid hash_ok segments_end pad_to_16 parse_table entry field
    partition_of kind app_slots layout_of find_named path_of trim_end_matches ◌>>=◌ via pure raise
    eq from_le_bytes to_le_bytes attach_to_loader sync sync_from drain chip_id command send send_raw
    encode escape encode_byte feed push push_byte push_end request op_code response_from next_frame
    next_frame_from on_queue on_read on_response on_port take_in parse_response parse_fields status
    gets modify slice? attempt fail fresh_framing
other_chip = refl

run-Refused_example : erased_cells refused_there.port 0x9000 ≡ 0xFF
unfolding is_refusal
run-Refused_example =
    run-Refused scripted 20 no_stub no_digest no_caller erased_cells nowhere (replicate 6 0)
      in_loader good_release another_chip refused_there (UpdateError.wrong_chip 5) 0x9000 chip
      outside other_chip refl

-- The chip has the image already.
abbrev has_image : Flasher (List (List ℕ))
has_image =
    record (new_flasher (response_to 0x13 (0xE9 ∷ 7 ∷ 255 ∷ (replicate 13 0 ++ 0 ∷ 0 ∷ [])) ∷ [])) {
      stub = true;
    }

cancel-Untouched_example :
    erased_cells (cancel board {A = Journal} in_loader small_journal has_image).1.port 0xE000 ≡ 0xFF
unfolding Apart rank
cancel-Untouched_example =
    cancel-Untouched scripted 20 no_stub no_digest no_caller erased_cells nowhere Journal 0xE000
      in_loader small_journal has_image chip outside small-Originals (λ e. inr (omega arith))
      (λ e. absurd cc)
