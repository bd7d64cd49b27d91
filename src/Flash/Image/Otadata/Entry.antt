-- ===== src/Flash/Image/Otadata/Entry.antt =====
-- An entry that is written is read back, and a sector that is replaced is the only one that
-- changes.
use hid_fi.Common.{
  ℕ, zero, suc, ◌-◌, ◌*◌, ◌^◌, ◌≤◌, ◌<◌, ◌≡◌, ◌≢◌, refl, sym, ap, ◌∙◌, some, List, ◌++◌, arith,
  length, take, drop, replicate, length-append, length-take, length-drop, length-replicate,
  take-append_of, drop-append_of, take-take, ltb-false,
}
use hid_fi.Common.Bytes.{to_le_bytes, from_le_bytes-to_le_bytes}
use hid_fi.Flash.Image.Otadata.{
  otadata_sector, otadata_crc, otadata_entry, word_at, sector_with, replace_sector, sector_choice,
  slot_of, invalid, aborted,
}

sector_large : 32 ≤ otadata_sector
unfolding otadata_sector
sector_large = omega arith

length-otadata_entry : (seq state : ℕ) → length (otadata_entry seq state) ≡ 32
unfolding otadata_entry to_le_bytes
length-otadata_entry seq state = refl

pub length-sector_with :
    (seq state : ℕ) → length (sector_with (otadata_entry seq state)) ≡ otadata_sector
unfolding sector_with
length-sector_with seq state = omega (
  arith,
  length-append (otadata_entry seq state) (replicate (otadata_sector - 32) 0xFF),
  length-otadata_entry seq state,
  length-replicate {A = ℕ} (otadata_sector - 32) 0xFF,
  sector_large,
)

module _ (seq state : ℕ) (hseq : seq < 2 ^ 32) (hstate : state < 2 ^ 32) where
  entry_words :
      (word_at (otadata_entry seq state) 0 ≡ seq)
      × (word_at (otadata_entry seq state) 24 ≡ state)
      × (word_at (otadata_entry seq state) 28 ≡ otadata_crc seq)
  unfolding word_at otadata_entry to_le_bytes
  entry_words = (
    from_le_bytes-to_le_bytes 4 seq hseq,
    from_le_bytes-to_le_bytes 4 state hstate,
    from_le_bytes-to_le_bytes 4 (otadata_crc seq) (unfold otadata_crc in (omega arith)),
  )

-- The entry at the start of a sector.
abbrev pub entry_at : List ℕ → ℕ → List ℕ
entry_at bytes k = take 32 (drop (k * otadata_sector) bytes)

-- What a sector stands for depends only on its entry.
pub sector_choice-of_entry :
    (xs ys : List ℕ) (slots k : ℕ)
    → entry_at xs k ≡ entry_at ys k
    → sector_choice xs slots k ≡ sector_choice ys slots k
unfolding sector_choice
sector_choice-of_entry xs ys slots k e = rw e

-- A sector whose entry was just written is a choice, unless its state rules it out.
pub sector_choice-written :
    (bytes : List ℕ) (slots k seq state : ℕ)
    → seq < 0xFFFF_FFFF
    → state < 2 ^ 32
    → state ≢ invalid
    → state ≢ aborted
    → entry_at bytes k ≡ otadata_entry seq state
    → sector_choice bytes slots k
      ≡ some (record { sector = k; seq = seq; slot = slot_of seq slots; state = state })
unfolding sector_choice
sector_choice-written bytes slots k seq state hs ht hi ha e =
    let (w0, w24, w28) = entry_words seq state (omega arith) ht in
    rw (e, w0, w24, w28) (ground arith)

abbrev pub sector_at : List ℕ → ℕ → List ℕ
sector_at bytes k = take otadata_sector (drop (k * otadata_sector) bytes)

-- One sector replaced, the other of the two and the length kept.
pub record Replaced (bytes : List ℕ) (k : ℕ) (sector out : List ℕ) : Type 0 where
  pub result : replace_sector bytes k sector ≡ some out
  pub same_length : length out ≡ length bytes
  pub written : sector_at out k ≡ sector
  pub kept : sector_at out (1 - k) ≡ sector_at bytes (1 - k)

zero_times : 0 * otadata_sector ≡ 0
zero_times = omega arith

one_times : 1 * otadata_sector ≡ otadata_sector
one_times = omega arith

module _ (bytes sector : List ℕ) (hlen : 2 * otadata_sector ≤ length bytes)
    (hs : length sector ≡ otadata_sector) where
  replace_first : Replaced bytes 0 sector (sector ++ drop otadata_sector bytes)
  unfolding replace_sector
  replace_first = record {
    result =
        rw (ltb-false (length bytes) (1 * otadata_sector) (omega arith), zero_times, one_times)
          refl;
    same_length =
        omega (
          arith,
          length-append sector (drop otadata_sector bytes),
          length-drop otadata_sector bytes,
        );
    written =
        rw zero_times (take-append_of otadata_sector sector (drop otadata_sector bytes) (sym hs));
    kept = rw one_times (
        ap (take otadata_sector)
          (drop-append_of otadata_sector sector (drop otadata_sector bytes) (sym hs)));
  }

  length_first : length (take otadata_sector bytes) ≡ otadata_sector
  length_first = omega (arith, length-take otadata_sector bytes)

  replace_second :
      Replaced bytes 1 sector
        (take otadata_sector bytes ++ (sector ++ drop (2 * otadata_sector) bytes))
  unfolding replace_sector
  replace_second =
      let tail = drop (2 * otadata_sector) bytes in
      record {
        result = rw (ltb-false (length bytes) (2 * otadata_sector) (omega arith), one_times) refl;
        same_length = omega (
          arith,
          length-append (take otadata_sector bytes) (sector ++ tail),
          length-append sector tail,
          length-drop (2 * otadata_sector) bytes,
          length_first,
        );
        written = rw one_times (
            ap (take otadata_sector) (
              drop-append_of otadata_sector (take otadata_sector bytes) (sector ++ tail)
                (sym length_first))
            ∙ take-append_of otadata_sector sector tail (sym hs));
        kept = rw zero_times (
            take-append_of otadata_sector (take otadata_sector bytes) (sector ++ tail)
              (sym length_first));
      }

  pub replace_sector-Replaced : (k : ℕ) → k ≤ 1 → (out : List ℕ) × Replaced bytes k sector out
  replace_sector-Replaced zero h = (sector ++ drop otadata_sector bytes, replace_first)
  replace_sector-Replaced (suc zero) h =
      (take otadata_sector bytes ++ (sector ++ drop (2 * otadata_sector) bytes), replace_second)
  replace_sector-Replaced (suc (suc k)) h = absurd (omega arith)

-- The entry is the start of its sector.
pub entry_of_sector : (bytes : List ℕ) (k : ℕ) → take 32 (sector_at bytes k) ≡ entry_at bytes k
entry_of_sector bytes k = take-take 32 otadata_sector (drop (k * otadata_sector) bytes) sector_large

pub entry-sector_with :
    (seq state : ℕ) → take 32 (sector_with (otadata_entry seq state)) ≡ otadata_entry seq state
unfolding sector_with
entry-sector_with seq state =
    take-append_of 32 (otadata_entry seq state) (replicate (otadata_sector - 32) 0xFF)
      (sym (length-otadata_entry seq state))
