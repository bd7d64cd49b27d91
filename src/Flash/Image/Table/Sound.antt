-- ===== src/Flash/Image/Table/Sound.antt =====
-- What `parse_table` accepts, as a description of the bytes.
use hid_fi.Common.{
  ℕ, zero, suc, ◌+◌, ◌*◌, ◌/◌, ◌≤◌, ◌<◌, ◌≡◌, ◌≢◌, ◌⊎◌, inl, inr, refl, sym, ap, ◌∙◌, Bool, true,
  false, not, ◌&&◌, Option, some, List, [], ◌∷◌, ◌++◌, arith, length, take, append_assoc,
  append-nil,
}
use mathlib.Core.Path.{subst}
use native.Mathlib.Nat.{add-zero}
use native.Mathlib.Numerals.{add-one}
use hid_fi.Common.Text.{eq, eq_sound, is_empty}
use hid_fi.Flash.Image.Table.{
  Partition, Kind, partition, md5_sum, end_mark, unknown, partition_of, entry, field, kind,
  on_entry, then_some, entries_from, parse_table,
}

-- `m` entries from the entry `i`, read as partitions.
abbrev pub partitions : List ℕ → ℕ → ℕ → List Partition
partitions bytes i zero = []
partitions bytes i (suc m) = partition_of (entry bytes i) ∷ partitions bytes (suc i) m

abbrev pub ArePartitions : List ℕ → ℕ → ℕ → Type 0
ArePartitions bytes i zero = Unit
ArePartitions bytes i (suc m) = (kind (entry bytes i) ≡ partition) × ArePartitions bytes (suc i) m

then_some_inv :
    (b : Bool) (out ps : List Partition)
    → then_some (b && not (is_empty out)) out ≡ some ps
    → (b ≡ true) × (ps ≡ out) × (out ≢ [])
then_some_inv true [] ps h = cc
then_some_inv true (p ∷ out) ps h = (refl, ground arith, λ e. cc)
then_some_inv false out ps h = cc

then_some_non_empty :
    (out : List Partition) → out ≢ [] → then_some (not (is_empty out)) out ≡ some out
then_some_non_empty [] h = absurd (h refl)
then_some_non_empty (p ∷ out) h = refl

module _ (md5 : List ℕ → List ℕ) (bytes : List ℕ) where
  -- The entry `k` closes the table: the erased mark, or the digest of all that stands before it.
  abbrev pub Closes : ℕ → Type 0
  Closes k =
      (kind (entry bytes k) ≡ end_mark)
      ⊎ ((kind (entry bytes k) ≡ md5_sum)
          × (md5 (take (k * 32) bytes) ≡ field (entry bytes k) 16 16))

  on_entry_inv :
      (i : ℕ) (out ps : List Partition) (rest : Option (List Partition)) (k : Kind)
      → kind (entry bytes i) ≡ k
      → on_entry md5 k bytes i out rest ≡ some ps
      → ((kind (entry bytes i) ≡ partition) × (rest ≡ some ps))
        ⊎ (Closes i × (ps ≡ out) × (out ≢ []))
  unfolding on_entry
  on_entry_inv i out ps rest partition e h = inl (e, h)
  on_entry_inv i out ps rest md5_sum e h =
      let (same, is, some_out) =
        then_some_inv (eq (md5 (take (i * 32) bytes)) (field (entry bytes i) 16 16)) out ps h in
      inr (
        inr (e, eq_sound (md5 (take (i * 32) bytes)) (field (entry bytes i) 16 16) same),
        is,
        some_out,
      )
  on_entry_inv i out ps rest end_mark e h =
      let (_, is, some_out) = then_some_inv true out ps h in inr (inl e, is, some_out)
  on_entry_inv i out ps rest unknown e h = cc

  -- The table that the bytes hold from the entry `i` on, in at most `n` entries.
  record Holds (n i : ℕ) (out ps : List Partition) : Type 0 where
    count : ℕ
    within : count < n
    marked : ArePartitions bytes i count
    closed : Closes (i + count)
    parts : ps ≡ out ++ partitions bytes i count
    some_part : ps ≢ []

  Holds-here :
      (n i : ℕ) (out ps : List Partition) → Closes i → ps ≡ out → out ≢ [] → Holds (suc n) i out ps
  Holds-here n i out ps c e ne = record {
    count = 0;
    within = omega arith;
    marked = tt;
    closed = rw (add-zero i) c;
    parts = e ∙ sym (append-nil out);
    some_part = λ z. ne (sym e ∙ z);
  }

  Holds-later :
      (n i : ℕ) (out ps : List Partition)
      → kind (entry bytes i) ≡ partition
      → Holds n (i + 1) (out ++ partition_of (entry bytes i) ∷ []) ps
      → Holds (suc n) i out ps
  Holds-later n i out ps k h = record {
    count = suc h.count;
    within = omega arith;
    marked = (k, rw (add-one i) at h.marked);
    closed = subst Closes (omega arith) h.closed;
    parts =
        h.parts
        ∙ append_assoc out (partition_of (entry bytes i) ∷ []) (partitions bytes (i + 1) h.count)
        ∙ ap (λ (j : ℕ). out ++ partition_of (entry bytes i) ∷ partitions bytes j h.count)
            (add-one i);
    some_part = h.some_part;
  }

  entries_from-Holds :
      (n i : ℕ) (out ps : List Partition)
      → entries_from md5 bytes n i out ≡ some ps
      → Holds n i out ps
  unfolding entries_from
  entries_from-Holds zero i out ps h = cc
  entries_from-Holds (suc n) i out ps h =
      elim (on_entry_inv i out ps
        (entries_from md5 bytes n (i + 1) (out ++ partition_of (entry bytes i) ∷ []))
        (kind (entry bytes i)) refl h) [
          | inl (k, later) ↦
              Holds-later n i out ps k
                (entries_from-Holds n (i + 1) (out ++ partition_of (entry bytes i) ∷ []) ps later)
          | inr (c, e, ne) ↦ Holds-here n i out ps c e ne
        ]

  -- An accepted table is not empty and lies inside the bytes with its closing entry; each partition
  -- is read from an entry with the partition mark, in order, and what closes them is the erased
  -- mark or the digest of everything before it.
  pub parse_table_sound :
      (ps : List Partition)
      → parse_table md5 bytes ≡ some ps
      → (k : ℕ) × (0 < k)
        × (32 * (k + 1) ≤ length bytes)
        × ArePartitions bytes 0 k
        × Closes k
        × (ps ≡ partitions bytes 0 k)
  unfolding parse_table
  parse_table_sound ps h =
      let t = entries_from-Holds (length bytes / 32) 0 [] ps h in
      (
        t.count,
        positive t.count t.parts t.some_part,
        omega (arith, t.within),
        t.marked,
        subst Closes (omega arith) t.closed,
        t.parts,
      )
    where
      positive : (k : ℕ) → ps ≡ partitions bytes 0 k → ps ≢ [] → 0 < k
      positive zero e ne = absurd (ne e)
      positive (suc k) e ne = omega arith
