-- ===== src/Flash/Flasher/Written.antt =====
-- What a write that succeeds has done, in its order: `write` of flasher.rs.
use hid_fi.Common.{
  ◌≡◌, ap, ap₂, sym, refl, ◌∙◌, inl, inr, ℕ, ◌+◌, ◌-◌, ◌*◌, ◌/◌, ◌<◌, ◌%◌, min, arith, Bool, true,
  false, not, List, [], ◌∷◌, ◌++◌, ◌==◌, if◌then◌else◌, Bool-cases, length, replicate, All,
}
use hid_fi.Common.Text.{eq, eq_sound, codes}
use hid_fi.Common.Exec.{Res, ok, pure, panic, gets, ◌>>=◌, bind_ok}
use hid_fi.Flash.Proto.{Op, Response, le, checksum}
use hid_fi.Flash.Flasher.{check, cancelled, sector, Fault, Port, Flasher, Action, fail, command}
use hid_fi.Flash.Flasher.Chip.{chunks}
use hid_fi.Flash.Flasher.Region.{joined, chunks-padded}
use hid_fi.Flash.Flasher.Transfer.{
  block_of, region_of, padded, flash_md5, write_blocks, read_back, write_padded, write,
}

module _ (port : Port) (fuel : ℕ) where
  -- Blocks that were written one after the other: the chip has answered each, with its length, its
  -- number and its checksum, and `progress` has let the write go on.
  pub Stored :
      (ℕ → Action port.P Bool)
      → ℕ
      → ℕ
      → ℕ
      → List (List ℕ)
      → Flasher port.P
      → Flasher port.P
      → Type 0
  Stored progress block total seq [] s s' = s ≡ s'
  Stored progress block total seq (c ∷ cs) s s' =
      (r : Response) × (s1 s2 : Flasher port.P) × (command port fuel Op.flash_data
          (le (length c ∷ seq ∷ 0 ∷ 0 ∷ []) ++ c) (checksum c) 0 "write" 10_000 s
        ≡ (ok r, s1))
      × (progress (min ((seq + 1) * block) total) s1 ≡ (ok true, s2))
      × Stored progress block total (seq + 1) cs s2 s'

  -- A write, in its order: the chip is told what comes, takes all of it, and gives its hash.
  pub record Written (offset block : ℕ) (sent : List ℕ) (progress : ℕ → Action port.P Bool)
      (s s' : Flasher port.P) : Type 0 where
    pub reply : Response
    pub opened : Flasher port.P
    pub stored : Flasher port.P
    pub blocks : List (List ℕ)
    pub announced :
        command port fuel Op.flash_begin
          (le
            (length sent ∷ length sent / block ∷ block ∷ offset ∷ (if s.stub then [] else 0 ∷ [])))
          0
          0
          "start writing"
          30_000
          s
        ≡ (ok reply, opened)
    pub taken : Stored progress block (length sent) 0 blocks opened stored
    pub whole : joined blocks ≡ sent
    pub sized : All (λ c. length c ≡ block) blocks
    pub hashed : flash_md5 port fuel offset (length sent) stored ≡ (ok (port.md5 sent), s')

same_result :
    {A : Type 0} {P : Type 0} {r r' : Res Fault A} {s s' : Flasher P}
    → ◌≡◌ {A = Res Fault A × Flasher P} (r, s) (r', s')
    → r ≡ r'
same_result h = ap (λ (p : Res Fault _ × Flasher _). p.0) h

same_state :
    {A : Type 0} {P : Type 0} {r r' : Res Fault A} {s s' : Flasher P}
    → ◌≡◌ {A = Res Fault A × Flasher P} (r, s) (r', s')
    → s ≡ s'
same_state h = ap (λ (p : Res Fault _ × Flasher _). p.1) h

module _ (port : Port) (fuel : ℕ) where
  agreed :
      (got sent : List ℕ) (s s' : Flasher port.P)
      → (if not (eq got (port.md5 sent))
            then fail (check (codes "what was written does not read back"))
            else pure tt)
          s
        ≡ (ok tt, s')
      → (got ≡ port.md5 sent) × (s ≡ s')
  unfolding fail pure
  agreed got sent s s' h = elim (Bool-cases (eq got (port.md5 sent))) [
    | inl p ↦ (eq_sound got (port.md5 sent) p, same_state (rw p at h))
    | inr p ↦ cc (same_result (rw p at h))
  ]

  read_back_sound :
      (offset : ℕ) (sent : List ℕ) (s s' : Flasher port.P)
      → read_back port fuel offset sent s ≡ (ok tt, s')
      → flash_md5 port fuel offset (length sent) s ≡ (ok (port.md5 sent), s')
  unfolding read_back
  read_back_sound offset sent s s' h =
      let (got, s1, e, k) = bind_ok _ _ s s' tt h in
      let (is, stays) = agreed got sent s1 s' k in
      e ∙ ap₂ (λ (g : List ℕ) (x : Flasher port.P). (ok g, x)) is stays

  went_on :
      (go_on : Bool) (m : Action port.P (Unit {0})) (s s' : Flasher port.P)
      → (let next : Action port.P (Unit {0}) = elim go_on [ true ↦ m | false ↦ fail cancelled ] in
          next s)
        ≡ (ok tt, s')
      → (go_on ≡ true) × (m s ≡ (ok tt, s'))
  unfolding fail
  went_on true m s s' h = (refl, h)
  went_on false m s s' h = cc (same_result h)

  write_blocks-Stored :
      (progress : ℕ → Action port.P Bool) (block total seq : ℕ) (cs : List (List ℕ))
      (s s' : Flasher port.P)
      → write_blocks port fuel progress block total seq cs s ≡ (ok tt, s')
      → Stored port fuel progress block total seq cs s s'
  unfolding write_blocks Stored pure
  write_blocks-Stored progress block total seq [] s s' h = same_state h
  write_blocks-Stored progress block total seq (c ∷ cs) s s' h =
      let (r, s1, e, k) = bind_ok _ _ s s' tt h in
      let (go_on, s2, e2, k2) = bind_ok _ _ s1 s' tt k in
      let (agrees, k3) = went_on go_on _ s2 s' k2 in
      (
        r,
        s1,
        s2,
        e,
        e2 ∙ ap (λ (b : Bool). (ok b, s2)) agrees,
        write_blocks-Stored progress block total (seq + 1) cs s2 s' k3,
      )

  write_padded-Written :
      (offset block : ℕ) (sent : List ℕ) (progress : ℕ → Action port.P Bool) (s s' : Flasher port.P)
      → joined (chunks block sent) ≡ sent
      → All (λ c. length c ≡ block) (chunks block sent)
      → write_padded port fuel offset s.stub block sent progress s ≡ (ok tt, s')
      → Written port fuel offset block sent progress s s'
  unfolding write_padded
  write_padded-Written offset block sent progress s s' whole sized h =
      let (r, s1, e, k) = bind_ok _ _ s s' tt h in
      let (u, s2, e2, k2) = bind_ok _ _ s1 s' tt k in
      record {
        reply = r;
        opened = s1;
        stored = s2;
        blocks = chunks block sent;
        announced = e;
        taken = write_blocks-Stored progress block (length sent) 0 (chunks block sent) s1 s2 e2;
        whole = whole;
        sized = sized;
        hashed = read_back_sound offset sent s2 s' k2;
      }

  guarded :
      (offset : ℕ) (none_left : Bool) (m : Action port.P (Unit {0})) (s s' : Flasher port.P)
      → (if not (offset % sector == 0)
            then fail (check (codes "unaligned write"))
            else if none_left
            then panic
            else m)
          s
        ≡ (ok tt, s')
      → (offset % sector ≡ 0) × (m s ≡ (ok tt, s'))
  unfolding fail panic
  guarded offset true m s s' h = elim (Bool-cases (offset % sector == 0)) [
    | inl p ↦ cc (same_result (rw p at h))
    | inr p ↦ cc (same_result (rw p at h))
  ]
  guarded offset false m s s' h = elim (Bool-cases (offset % sector == 0)) [
    | inl p ↦ (ground arith, rw p at h)
    | inr p ↦ cc (same_result (rw p at h))
  ]

  -- A write of some bytes that succeeds was at the start of a sector; the chip was first told the length
  -- of what was sent, in blocks of one size, then took every block, in order, and at the end gave the
  -- hash of what was sent: the bytes, filled with 0xFF to the region that the write covers.
  pub write-Written :
      (offset : ℕ) (bytes : List ℕ) (progress : ℕ → Action port.P Bool) (s s' : Flasher port.P)
      → 0 < length bytes
      → write port fuel offset bytes progress s ≡ (ok tt, s')
      → (offset % sector ≡ 0)
        × (sent : List ℕ) × ((sent ≡ bytes ++ replicate (length sent - length bytes) 0xFF)
            × (length sent ≡ region_of s.stub (length bytes)))
        × Written port fuel offset (block_of s.stub (length bytes)) sent progress s s'
  unfolding write gets ◌>>=◌
  write-Written offset bytes progress s s' some_bytes h =
      let (a, k) = guarded offset (block_of s.stub (length bytes) == 0) _ s s' h in
      let (whole, sized, long) = chunks-padded s.stub bytes some_bytes in
      (
        a,
        padded s.stub bytes,
        (
          unfold padded in (ap (λ (n : ℕ). bytes ++ replicate (n - length bytes) 0xFF) (sym long)),
          long,
        ),
        write_padded-Written offset _ (padded s.stub bytes) progress s s'
            (whole ∙ unfold padded in refl) sized k,
      )
