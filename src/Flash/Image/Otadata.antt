-- ===== src/Flash/Image/Otadata.antt =====
-- `otadata`, which chooses the slot to start: image.rs. Two sectors, each with one entry at its
-- start. A 32-bit word is a number below 2 ^ 32.
pub mod Entry
mod NextSeq
pub mod Switch
mod Tests
use hid_fi.Common.{
  ℕ, zero, suc, ◌+◌, ◌-◌, ◌*◌, ◌/◌, ◌%◌, ◌^◌, max, bit_xor, Bool, true, false, not, ◌||◌, Option,
  none, some, List, [], ◌∷◌, ◌++◌, ◌==◌, ltb, if◌then◌else◌, length, take, drop, replicate,
}
use hid_fi.Common.Bytes.{to_le_bytes, from_le_bytes}

unfoldable pub otadata_sector : ℕ
otadata_sector = 0x1000

abbrev pub new : ℕ
new = 0x0

abbrev pub pending_verify : ℕ
pending_verify = 0x1

abbrev pub valid : ℕ
valid = 0x2

abbrev pub invalid : ℕ
invalid = 0x3

abbrev pub aborted : ℕ
aborted = 0x4

abbrev pub undefined : ℕ
undefined = 0xFFFF_FFFF

-- One of the eight rounds of the inner loop.
unfoldable pub crc_bit : ℕ → ℕ
crc_bit crc = if crc % 2 == 1 then bit_xor (crc / 2) 0xEDB8_8320 else crc / 2

unfoldable pub crc_bits : ℕ → ℕ → ℕ
unfolding crc_bit
crc_bits zero crc = crc
crc_bits (suc n) crc = crc_bits n (crc_bit crc)

unfoldable pub crc_bytes : List ℕ → ℕ → ℕ
unfolding crc_bits
crc_bytes [] crc = crc
crc_bytes (b ∷ bs) crc = crc_bytes bs (crc_bits 8 (bit_xor crc b))

-- `!crc` on 32 bits is what is missing to all ones.
unfoldable pub otadata_crc : ℕ → ℕ
unfolding crc_bytes to_le_bytes
otadata_crc seq = 0xFFFF_FFFF - crc_bytes (to_le_bytes 4 seq) 0

unfoldable pub otadata_entry : ℕ → ℕ → List ℕ
otadata_entry seq state =
    to_le_bytes 4 seq
    ++ (replicate 20 0xFF ++ (to_le_bytes 4 state ++ to_le_bytes 4 (otadata_crc seq)))

pub record Choice : Type 0 where
  pub sector : ℕ
  pub seq : ℕ
  pub slot : ℕ
  pub state : ℕ

-- `seq.wrapping_sub(1) as usize % slots`
unfoldable pub slot_of : ℕ → ℕ → ℕ
slot_of seq slots = (seq + 2 ^ 32 - 1) % 2 ^ 32 % slots

-- The word of an entry at a byte offset.
unfoldable pub word_at : List ℕ → ℕ → ℕ
unfolding from_le_bytes
word_at e pos = from_le_bytes (take 4 (drop pos e))

-- The entry of a sector, as the loop's body reads it: none when it is skipped.
unfoldable pub sector_choice : List ℕ → ℕ → ℕ → Option Choice
sector_choice bytes slots sector =
    let e = take 32 (drop (sector * otadata_sector) bytes) in
    let seq = word_at e 0 in
    let state = word_at e 24 in
    let crc = word_at e 28 in
    if seq == 0xFFFF_FFFF || not (crc == otadata_crc seq) || state == invalid || state == aborted
    then none
    else some (record { sector = sector; seq = seq; slot = slot_of seq slots; state = state })

-- `best` after one more sector: only a higher sequence number replaces it.
unfoldable pub better : Option Choice → Option Choice → Option Choice
better best none = best
better none (some c) = some c
better (some b) (some c) = if ltb b.seq c.seq then some c else some b

unfoldable pub otadata_choice : List ℕ → ℕ → Option Choice
unfolding better
otadata_choice bytes slots =
    if slots == 0 || ltb (length bytes) (2 * otadata_sector)
    then none
    else better (better none (sector_choice bytes slots 0)) (sector_choice bytes slots 1)

-- The `while` loop of `otadata_switch`, with fuel; `seq += 1` wraps in a release build.
unfoldable pub next_seq : ℕ → ℕ → ℕ → ℕ → Option ℕ
next_seq zero slot slots seq = none
next_seq (suc fuel) slot slots seq =
    let rest = next_seq fuel slot slots ((seq + 1) % 2 ^ 32) in
    if slot_of seq slots == slot then some seq else rest

abbrev seq_or_zero : Option Choice → ℕ
seq_or_zero none = 0
seq_or_zero (some c) = c.seq

-- The sector that does not hold the current choice.
abbrev pub other_sector : Option Choice → ℕ
other_sector none = 0
other_sector (some c) = 1 - c.sector

-- A sector that holds one entry and is erased behind it.
unfoldable pub sector_with : List ℕ → List ℕ
sector_with e = e ++ replicate (otadata_sector - 32) 0xFF

-- The bytes with one sector replaced; a slice out of range is a panic.
unfoldable pub replace_sector : List ℕ → ℕ → List ℕ → Option (List ℕ)
replace_sector bytes k sector =
    if ltb (length bytes) ((k + 1) * otadata_sector)
    then none
    else some (take (k * otadata_sector) bytes ++ (sector ++ drop ((k + 1) * otadata_sector) bytes))

abbrev switch_to : List ℕ → ℕ → ℕ → Option ℕ → Option (List ℕ)
switch_to bytes k state none = none
switch_to bytes k state (some seq) = replace_sector bytes k (sector_with (otadata_entry seq state))

-- `none` when the loop finds no sequence number for the slot, or a slice is out of range.
unfoldable pub otadata_switch : List ℕ → ℕ → ℕ → ℕ → Option (List ℕ)
otadata_switch bytes slot state slots =
    let n = max slots 1 in
    let cur = otadata_choice bytes n in
    switch_to bytes (other_sector cur) state (next_seq n slot n ((seq_or_zero cur + 1) % 2 ^ 32))
