-- ===== src/Flash/Flasher/Transfer.antt =====
-- Reading, checking and writing flash: flasher.rs. The texts of errors are without the offsets that
-- the source prints in them.
use hid_fi.Common.{
  ℕ, zero, suc, ◌+◌, ◌-◌, ◌*◌, ◌/◌, ◌%◌, min, Bool, true, false, not, ◌&&◌, ◌||◌, Option, none,
  some, List, [], ◌∷◌, ◌++◌, ◌==◌, leb, ltb, if◌then◌else◌, length, take, replicate,
}
use hid_fi.Common.Bytes.{to_le_bytes, slice?}
use hid_fi.Common.Text.{codes, eq, utf8, from_utf8_lossy}
use hid_fi.Common.Exec.{Res, ok, err, panicked, pure, raise, panic, gets, ◌>>=◌, ◌>>◌}
use hid_fi.Flash.Hex.{from_radix_16, is_inside, starts_inside}
use hid_fi.Flash.Proto.{Op, le, checksum}
use hid_fi.Flash.Flasher.{
  sector, stub_block, check, cancelled, Fault, flash, no_fuel, Port, Action, fail, send_raw,
  next_frame, command,
}
use hid_fi.Flash.Flasher.Chip.{chunks, div_ceil}

abbrev cons_res : ℕ → Res Fault (List ℕ) → Res Fault (List ℕ)
cons_res x (ok xs) = ok (x ∷ xs)
cons_res x (err e) = err e
cons_res x panicked = panicked

-- The loop over the digits of a hash.
unfoldable pub hash_digits : List ℕ → Res Fault (List ℕ)
unfolding from_radix_16 is_inside starts_inside
hash_digits (a ∷ b ∷ rest) =
    let others = hash_digits rest in
    if is_inside a || starts_inside rest then panicked else elim (from_radix_16 a b) [
      | none ↦ err (flash (check (codes "md5")))
      | some v ↦ cons_res v others
    ]
hash_digits _ = ok []

unfoldable pub hash_of_text : Option (List ℕ) → Res Fault (List ℕ)
unfolding hash_digits from_utf8_lossy
hash_of_text none = panicked
hash_of_text (some text) =
    if not (eq text (utf8 (from_utf8_lossy text)))
    then err (flash (check (codes "md5 not hex")))
    else hash_digits text

abbrev or_panicked : Option (List ℕ) → Res Fault (List ℕ)
or_panicked none = panicked
or_panicked (some bytes) = ok bytes

-- What a write sends: the data padded with 0xFF to whole sectors, then to whole blocks.
unfoldable pub sectors_of : ℕ → ℕ
unfolding div_ceil
sectors_of n = div_ceil n sector * sector

unfoldable pub block_of : Bool → ℕ → ℕ
unfolding sectors_of
block_of stub n = if stub then min stub_block (sectors_of n) else 0x400

unfoldable pub region_of : Bool → ℕ → ℕ
unfolding sectors_of block_of
region_of stub n = div_ceil (sectors_of n) (block_of stub n) * block_of stub n

unfoldable pub padded : Bool → List ℕ → List ℕ
unfolding region_of
padded stub bytes = bytes ++ replicate (region_of stub (length bytes) - length bytes) 0xFF

module _ (port : Port) (fuel : ℕ) where
  open port use {P, md5}

  abbrev pub hash_in : Bool → List ℕ → Action P (List ℕ)
  hash_in stub body s =
      (if stub then or_panicked (slice? body 0 16) else hash_of_text (slice? body 0 32), s)

  unfoldable pub flash_md5 : ℕ → ℕ → Action P (List ℕ)
  unfolding command le slice? hash_of_text
  flash_md5 offset len = do
    stub ← gets (λ s. s.stub)
    r ←
        command port fuel Op.spi_flash_md5 (le (offset ∷ len ∷ 0 ∷ 0 ∷ [])) 0
          (if stub then 16 else 32) "hash flash" 30_000
    hash_in stub r.body

  unfoldable pub blocks_from : ℕ → ℕ → List ℕ → Action P (List ℕ)
  unfolding next_frame send_raw fail
  blocks_from zero len got = raise no_fuel
  blocks_from (suc rounds) len got = if leb len (length got) then pure got else do
    f ← next_frame port fuel 3000
    if ltb (length (got ++ f)) len && ltb (length f) sector
        then fail (check (codes "short block while reading flash"))
        else do send_raw port (to_le_bytes 4 (length (got ++ f))); blocks_from rounds len (got ++ f)

  unfoldable pub read_checked : ℕ → ℕ → Action P (List ℕ)
  unfolding command le blocks_from next_frame fail
  read_checked offset len = do
    command port fuel Op.read_flash (le (offset ∷ len ∷ sector ∷ 64 ∷ [])) 0 0 "read flash" 2000
    got ← blocks_from fuel len []
    digest ← next_frame port fuel 3000
    if not (length digest == 16) || not (eq digest (md5 got))
        then fail (check (codes "the data read back does not match its MD5"))
        else pure (take len got)

  unfoldable pub read_flash : ℕ → ℕ → Action P (List ℕ)
  unfolding read_checked fail
  read_flash offset len = do
    stub ← gets (λ s. s.stub)
    if not stub
        then fail (check (codes "reading flash needs the stub"))
        else read_checked offset len

  -- The loop over the blocks; `progress` is asked whether to go on.
  unfoldable pub write_blocks :
      (ℕ → Action P Bool) → ℕ → ℕ → ℕ → List (List ℕ) → Action P (Unit {0})
  unfolding command le checksum fail
  write_blocks progress block total seq [] = pure tt
  write_blocks progress block total seq (c ∷ cs) = do
    command port fuel Op.flash_data (le (length c ∷ seq ∷ 0 ∷ 0 ∷ []) ++ c) (checksum c) 0 "write"
        10_000
    go_on ← progress (min ((seq + 1) * block) total)
    elim go_on [ true ↦ write_blocks progress block total (seq + 1) cs | false ↦ fail cancelled ]

  -- Whether the whole of what was sent reads back.
  unfoldable pub read_back : ℕ → List ℕ → Action P (Unit {0})
  unfolding flash_md5 fail
  read_back offset sent = do
    got ← flash_md5 offset (length sent)
    if not (eq got (md5 sent))
        then fail (check (codes "what was written does not read back"))
        else pure tt

  unfoldable pub write_padded : ℕ → Bool → ℕ → List ℕ → (ℕ → Action P Bool) → Action P (Unit {0})
  unfolding command le chunks write_blocks read_back
  write_padded offset stub block sent progress = do
    command port fuel Op.flash_begin
        (le (length sent ∷ length sent / block ∷ block ∷ offset ∷ (if stub then [] else 0 ∷ []))) 0
        0 "start writing" 30_000
    write_blocks progress block (length sent) 0 (chunks block sent)
    read_back offset sent

  unfoldable pub write : ℕ → List ℕ → (ℕ → Action P Bool) → Action P (Unit {0})
  unfolding block_of padded write_padded fail
  write offset bytes progress = do
    stub ← gets (λ s. s.stub)
    if not (offset % sector == 0)
        then fail (check (codes "unaligned write"))
        else if block_of stub (length bytes) == 0
        then panic
        else write_padded offset stub (block_of stub (length bytes)) (padded stub bytes) progress
