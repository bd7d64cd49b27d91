-- ===== src/Flash/Image/Otadata/Switch.antt =====
-- `otadata_switch` makes the bootloader choose the slot, and until its one sector is whole the old
-- choice stands.
use hid_fi.Common.{
  ℕ, zero, suc, ◌+◌, ◌-◌, ◌*◌, ◌%◌, ◌^◌, ◌≤◌, ◌<◌, ◌≡◌, ◌≢◌, ◌⊎◌, refl, sym, ap, ap₂, ◌∙◌, Bool,
  true, false, Option, none, some, List, arith, max, ◌==◌, if◌then◌else◌, length, take, ltb-false,
  inl, inr, Bool-cases,
}
use mathlib.Core.Path.{subst}
use native.Mathlib.Nat.{mod-lt}
use hid_fi.Flash.Image.Otadata.{
  otadata_sector, otadata_entry, sector_with, replace_sector, sector_choice, invalid, aborted,
  Choice, better, word_at, otadata_crc, otadata_choice, next_seq, seq_or_zero, other_sector,
  otadata_switch,
}
use hid_fi.Flash.Image.Otadata.NextSeq.{distance-lt, next_seq_found, slot_of_lem}
use hid_fi.Flash.Image.Otadata.Entry.{
  replace_sector-Replaced, length-sector_with, sector_at, entry_at, entry_of_sector,
  entry-sector_with, sector_choice-of_entry, sector_choice-written,
}

-- Where the choice of a sector comes from.
abbrev Stands : ℕ → Option Choice → Type 0
Stands k none = Unit
Stands k (some c) = c.sector ≡ k

Stands-if : (skip : Bool) (c : Choice) → Stands c.sector (if skip then none else some c)
Stands-if true c = tt
Stands-if false c = refl

sector_choice-Stands : (bytes : List ℕ) (slots k : ℕ) → Stands k (sector_choice bytes slots k)
unfolding sector_choice
sector_choice-Stands bytes slots k = Stands-if _ _

abbrev best_of : Option Choice → Option Choice → Option Choice
best_of a b = better (better none a) b

-- A newer choice wins in the place of the one that was not the best.
newer_first :
    (a b : Option Choice) (c : Choice)
    → Stands 0 a
    → Stands 1 b
    → seq_or_zero (best_of a b) < c.seq
    → other_sector (best_of a b) ≡ 0
    → best_of (some c) b ≡ some c
unfolding better
newer_first none none c ha hb lt e = refl
newer_first none (some y) c ha hb lt e = ground arith
newer_first (some x) none c ha hb lt e = refl
newer_first (some x) (some y) c ha hb lt e = ground arith

newer_second :
    (a b : Option Choice) (c : Choice)
    → Stands 0 a
    → Stands 1 b
    → seq_or_zero (best_of a b) < c.seq
    → other_sector (best_of a b) ≡ 1
    → best_of a (some c) ≡ some c
unfolding better
newer_second none none c ha hb lt e = refl
newer_second none (some y) c ha hb lt e = refl
newer_second (some x) none c ha hb lt e = ground arith
newer_second (some x) (some y) c ha hb lt e = ground arith

other_sector-le : (o : Option Choice) → other_sector o ≤ 1
other_sector-le none = omega arith
other_sector-le (some c) = omega arith

choice-best :
    (bytes : List ℕ) (slots : ℕ)
    → 0 < slots
    → 2 * otadata_sector ≤ length bytes
    → otadata_choice bytes slots
      ≡ best_of (sector_choice bytes slots 0) (sector_choice bytes slots 1)
unfolding otadata_choice
choice-best bytes slots h hl =
    rw
      (
        ltb-false (length bytes) (2 * otadata_sector) hl,
        (let e : (slots == 0) ≡ false = ground arith in e),
      )
      refl

-- What a switch did: the bytes with one sector rewritten, in which the new entry is the choice.
pub record Switched (bytes : List ℕ) (slot state slots : ℕ) (out : List ℕ) (seq : ℕ) : Type 0 where
  pub result : otadata_switch bytes slot state slots ≡ some out
  pub chosen :
      otadata_choice out slots
      ≡ some (record {
        sector = other_sector (otadata_choice bytes slots);
        seq = seq;
        slot = slot;
        state = state;
      })
  pub newer : seq_or_zero (otadata_choice bytes slots) < seq
  pub kept :
      sector_at out (1 - other_sector (otadata_choice bytes slots))
      ≡ sector_at bytes (1 - other_sector (otadata_choice bytes slots))
  pub same_length : length out ≡ length bytes

-- One sector written anew with a higher number, the other as it was: the new entry is the choice.
chosen_lem :
    (bytes out : List ℕ) (slots k : ℕ) (c : Choice)
    → 0 < slots
    → 2 * otadata_sector ≤ length bytes
    → length out ≡ length bytes
    → k ≡ other_sector (otadata_choice bytes slots)
    → sector_choice out slots k ≡ some c
    → sector_choice out slots (1 - k) ≡ sector_choice bytes slots (1 - k)
    → seq_or_zero (otadata_choice bytes slots) < c.seq
    → otadata_choice out slots ≡ some c
chosen_lem bytes out slots zero c hs hl he hk new kept lt =
    choice-best out slots hs (omega arith)
    ∙ ap₂ best_of new kept
    ∙ newer_first (sector_choice bytes slots 0) (sector_choice bytes slots 1) c
        (sector_choice-Stands bytes slots 0) (sector_choice-Stands bytes slots 1)
        (rw (← choice-best bytes slots hs hl) lt) (rw (← choice-best bytes slots hs hl) (sym hk))
chosen_lem bytes out slots (suc zero) c hs hl he hk new kept lt =
    choice-best out slots hs (omega arith)
    ∙ ap₂ best_of kept new
    ∙ newer_second (sector_choice bytes slots 0) (sector_choice bytes slots 1) c
        (sector_choice-Stands bytes slots 0) (sector_choice-Stands bytes slots 1)
        (rw (← choice-best bytes slots hs hl) lt) (rw (← choice-best bytes slots hs hl) (sym hk))
chosen_lem bytes out slots (suc (suc k)) c hs hl he hk new kept lt =
    absurd (omega (arith, other_sector-le (otadata_choice bytes slots)))

switch_result :
    (bytes out : List ℕ) (slot state slots q : ℕ)
    → slot < slots
    → seq_or_zero (otadata_choice bytes slots) < 2 ^ 32 - 1
    → next_seq slots slot slots (suc (seq_or_zero (otadata_choice bytes slots))) ≡ some q
    → replace_sector bytes
        (other_sector (otadata_choice bytes slots))
        (sector_with (otadata_entry q state))
      ≡ some out
    → otadata_switch bytes slot state slots ≡ some out
unfolding otadata_switch
switch_result bytes out slot state slots q h hs found rep =
    let one_slot : max slots 1 ≡ slots = omega arith in
    let one_more : (seq_or_zero (otadata_choice bytes slots) + 1) % 2 ^ 32
        ≡ suc (seq_or_zero (otadata_choice bytes slots)) =
      omega arith in
    rw one_slot (rw one_more (rw found rep))

module _ (bytes : List ℕ) (slot state slots : ℕ) (large : 2 * otadata_sector ≤ length bytes)
    (in_range : slot < slots) (room : seq_or_zero (otadata_choice bytes slots) + slots < 2 ^ 32 - 1)
    (word : state < 2 ^ 32) (not_invalid : state ≢ invalid) (not_aborted : state ≢ aborted) where
  abbrev cur : Option Choice
  cur = otadata_choice bytes slots

  -- With at least two sectors, room for the sequence number and a state that can be chosen, the
  -- switch succeeds: the new otadata chooses the slot with that state and a higher sequence
  -- number, and the sector of the old choice keeps its bytes.
  pub otadata_switch-Switched : (out : List ℕ) × (seq : ℕ) × Switched bytes slot state slots out seq
  otadata_switch-Switched =
      let k = other_sector cur in
      let (t, found, lo, hi, m) =
        next_seq_found slots slot slots (seq_or_zero cur) in_range
          (distance-lt (seq_or_zero cur % slots) slot slots (mod-lt (seq_or_zero cur) (omega arith))
            in_range)
          (omega arith) in
      let (out, rep) =
        replace_sector-Replaced bytes (sector_with (otadata_entry (suc t) state)) large
          (length-sector_with (suc t) state) k (other_sector-le cur) in
      (
        out,
        suc t,
        record {
          result =
              switch_result bytes out slot state slots (suc t) in_range (omega arith) found
                rep.result;
          chosen =
              chosen_lem bytes out slots k
                (record { sector = k; seq = suc t; slot = slot; state = state }) (omega arith) large
                rep.same_length refl
                (sector_choice-written out slots k (suc t) state (omega arith) word not_invalid
                    not_aborted
                    (sym (entry_of_sector out k)
                      ∙ ap (take 32) rep.written
                      ∙ entry-sector_with (suc t) state)
                  ∙ ap
                      (λ (n : ℕ).
                        some (record { sector = k; seq = suc t; slot = n; state = state }))
                      (slot_of_lem t slots (omega arith) ∙ m))
                (sector_choice-of_entry out bytes slots (1 - k) (
                  sym (entry_of_sector out (1 - k))
                  ∙ ap (take 32) rep.kept
                  ∙ entry_of_sector bytes (1 - k)))
                (omega arith);
          newer = omega arith;
          kept = rep.kept;
          same_length = rep.same_length;
        },
      )

choice_needs :
    (bytes : List ℕ) (slots : ℕ) (c : Choice)
    → otadata_choice bytes slots ≡ some c
    → (0 < slots) × (2 * otadata_sector ≤ length bytes)
unfolding otadata_choice
choice_needs bytes slots c h = ground arith

best_from :
    (a b : Option Choice) (c : Choice)
    → Stands 0 a
    → Stands 1 b
    → best_of a b ≡ some c
    → ((a ≡ some c) × (c.sector ≡ 0)) ⊎ ((b ≡ some c) × (c.sector ≡ 1))
unfolding better
best_from none none c ha hb h = cc
best_from none (some y) c ha hb h = ground arith
best_from (some x) none c ha hb h = ground arith
best_from (some x) (some y) c ha hb h = ground arith

uncounted :
    (bytes : List ℕ) (slots k : ℕ)
    → word_at (entry_at bytes k) 28 ≢ otadata_crc (word_at (entry_at bytes k) 0)
    → sector_choice bytes slots k ≡ none
unfolding sector_choice
uncounted bytes slots k h =
    elim (Bool-cases
      (word_at (entry_at bytes k) 28 == otadata_crc (word_at (entry_at bytes k) 0))) [
        | inl p ↦ absurd (h (ground arith))
        | inr p ↦ elim (Bool-cases (word_at (entry_at bytes k) 0 == 0xFFFF_FFFF)) [
          | inl q ↦ rw q refl
          | inr q ↦ rw (q, p) refl
        ]
      ]

-- As long as one sector still holds the entry of the current choice, and the entry of the other does
-- not have the checksum of its sequence number (a write cut short), the choice is what it was.
pub otadata_choice-torn :
    (bytes torn : List ℕ) (slots : ℕ) (c : Choice)
    → otadata_choice bytes slots ≡ some c
    → length torn ≡ length bytes
    → entry_at torn c.sector ≡ entry_at bytes c.sector
    → word_at (entry_at torn (1 - c.sector)) 28
      ≢ otadata_crc (word_at (entry_at torn (1 - c.sector)) 0)
    → otadata_choice torn slots ≡ some c
unfolding better
otadata_choice-torn bytes torn slots c h hl same damaged =
    let gone = uncounted torn slots (1 - c.sector) damaged in
    let (pos_slots, large) = choice_needs bytes slots c h in
    choice-best torn slots pos_slots (omega arith)
    ∙ elim (best_from (sector_choice bytes slots 0) (sector_choice bytes slots 1) c
        (sector_choice-Stands bytes slots 0) (sector_choice-Stands bytes slots 1)
        (sym (choice-best bytes slots pos_slots large) ∙ h)) [
          | inl (e, k) ↦
              rw
                (
                  sector_choice-of_entry torn bytes slots 0
                        (subst (λ n. entry_at torn n ≡ entry_at bytes n) k same)
                      ∙ e,
                  (let g : sector_choice torn slots 1 ≡ none =
                        subst (λ n. sector_choice torn slots (1 - n) ≡ none) k gone in
                      g),
                )
                refl
          | inr (e, k) ↦
              rw
                (
                  (let g : sector_choice torn slots 0 ≡ none =
                        subst (λ n. sector_choice torn slots (1 - n) ≡ none) k gone in
                      g),
                  sector_choice-of_entry torn bytes slots 1
                        (subst (λ n. entry_at torn n ≡ entry_at bytes n) k same)
                      ∙ e,
                )
                refl
        ]
