-- ===== src/Flash/Flasher/Transfers.antt =====
-- Hashing and reading keep every cell of the flash, and a write all outside of its region:
-- flasher.rs.
use hid_fi.Common.{
  ◌≡◌, ◌*◌, min, ◌∙◌, ℕ, zero, suc, ◌+◌, ◌/◌, ◌%◌, ◌^◌, ◌≤◌, ◌<◌, inl, inr, arith, Bool, true,
  false, not, ◌&&◌, ◌||◌, List, [], ◌∷◌, ◌++◌, leb, ltb, ◌==◌, if◌then◌else◌, length,
}
use hid_fi.Common.Text.{eq}
use hid_fi.Common.Exec.Keeps.{
  Keeps, Enters, bind-Enters, pure-Keeps, raise-Keeps, panic-Keeps, gets-Keeps, bind-Keeps,
  if-Keeps,
}
use hid_fi.Flash.Proto.{Op, le, checksum}
use hid_fi.Flash.Flasher.{sector, no_fuel, Port, Flasher, Action, send_raw, send, command}
use hid_fi.Flash.Flasher.Memory.{
  Apart, Safe, Quiet, ChipLaws, on_port-Enters, on_port-Keeps, fail-Keeps, acknowledge-Kept,
  response_from-Kept,
}
use hid_fi.Flash.Flasher.Chip.{div_ceil}
use hid_fi.Flash.Flasher.Region.{ceil-le, block_of-pos, length-padded}
use hid_fi.Flash.Flasher.Transfer.{
  hash_in, sectors_of, block_of, region_of, padded, flash_md5, blocks_from, read_checked,
  read_flash, write_blocks, read_back, write_padded, write,
}
use hid_fi.Flash.Flasher.Calls.{if_so-Kept, command-Kept, frame-Kept}

region_of_le : (stub : Bool) (n : ℕ) → region_of stub n ≤ region_of true n
region_of_le true n = omega arith
region_of_le false zero = unfold region_of block_of sectors_of div_ceil in (omega arith)
region_of_le false (suc n) =
    let large : sectors_of (suc n) ≤ region_of true (suc n) =
      unfold region_of in
      (ceil-le (sectors_of (suc n)) (block_of true (suc n))
        (block_of-pos true (suc n) (omega arith))) in
    let small : region_of false (suc n) ≤ sectors_of (suc n) =
      unfold region_of block_of sectors_of div_ceil in (omega arith) in
    omega arith

length-padded_le :
    (stub : Bool) (bytes : List ℕ) → length (padded stub bytes) ≤ region_of true (length bytes)
length-padded_le true [] = unfold padded region_of block_of sectors_of div_ceil in (omega arith)
length-padded_le false [] = unfold padded region_of block_of sectors_of div_ceil in (omega arith)
length-padded_le stub (b ∷ bs) =
    omega (arith, length-padded stub (b ∷ bs) (omega arith), region_of_le stub (length (b ∷ bs)))

Apart-smaller : (a offset n m : ℕ) → n ≤ m → Apart a offset m → Apart a offset n
unfolding Apart
Apart-smaller a offset n m h (inl l) = inl l
Apart-smaller a offset n m h (inr r) = inr (omega arith)

module _ (port : Port) (cells : port.P → ℕ → ℕ) (open_at : port.P → ℕ → Bool)
    (laws : ChipLaws port cells open_at) (Q : port.P → Type 0)
    (quiet : (p q : port.P) → Quiet port cells open_at p q → Q p → Q q) where
  abbrev Kept : {A : Type 0} → Action port.P A → Type 0
  Kept m = Keeps (λ (s : Flasher port.P). Q s.port) m

  module _ (fuel : ℕ) where
    hash_in-Kept : (stub : Bool) (body : List ℕ) → Kept (hash_in port fuel stub body)
    hash_in-Kept stub body = record { at = λ s h. h }

    pub flash_md5-Kept : (offset len : ℕ) → Kept (flash_md5 port fuel offset len)
    unfolding flash_md5
    flash_md5-Kept offset len = bind-Keeps _ _ (gets-Keeps _) (λ stub.
        bind-Keeps _ _
          (command-Kept port cells open_at laws Q quiet fuel Op.spi_flash_md5
            (le (offset ∷ len ∷ 0 ∷ 0 ∷ [])) 0 (if stub then 16 else 32) "hash flash" 30_000 tt)
          (λ r. hash_in-Kept stub _))

    blocks_from-Kept : (rounds len : ℕ) (got : List ℕ) → Kept (blocks_from port fuel rounds len got)
    unfolding blocks_from
    blocks_from-Kept zero len got = raise-Keeps no_fuel
    blocks_from-Kept (suc rounds) len got = if-Keeps (leb len (length got)) _ _ (pure-Keeps got) (
        bind-Keeps _ _ (frame-Kept port cells open_at laws Q quiet fuel 3000) (λ f.
          if-Keeps (ltb (length (got ++ f)) len && ltb (length f) sector) _ _ (fail-Keeps _) (
            bind-Keeps _ _ (acknowledge-Kept port cells open_at laws Q quiet _)
              (λ u. blocks_from-Kept rounds len (got ++ f)))))

    read_checked-Kept : (offset len : ℕ) → Kept (read_checked port fuel offset len)
    unfolding read_checked
    read_checked-Kept offset len =
        bind-Keeps _ _
          (command-Kept port cells open_at laws Q quiet fuel Op.read_flash
            (le (offset ∷ len ∷ sector ∷ 64 ∷ [])) 0 0 "read flash" 2000 tt)
          (λ r. bind-Keeps _ _ (blocks_from-Kept fuel len []) (λ got.
            bind-Keeps _ _ (frame-Kept port cells open_at laws Q quiet fuel 3000) (λ digest.
              if-Keeps (not (length digest == 16) || not (eq digest (port.md5 got))) _ _
                (fail-Keeps _) (pure-Keeps _))))

    pub read_flash-Kept : (offset len : ℕ) → Kept (read_flash port fuel offset len)
    unfolding read_flash
    read_flash-Kept offset len =
        bind-Keeps _ _ (gets-Keeps _)
          (λ stub. if-Keeps (not stub) _ _ (fail-Keeps _) (read_checked-Kept offset len))

module _ (port : Port) (cells : port.P → ℕ → ℕ) (open_at : port.P → ℕ → Bool)
    (laws : ChipLaws port cells open_at) (a v fuel : ℕ) where
  abbrev Valued : port.P → Type 0
  Valued p = cells p a ≡ v

  abbrev SafeNow : port.P → Type 0
  SafeNow p = Safe port cells open_at a v p

  pub Valued-quiet : (p q : port.P) → Quiet port cells open_at p q → Valued p → Valued q
  Valued-quiet p q k h = k.same a ∙ h

  pub safe-quiet : (p q : port.P) → Quiet port cells open_at p q → SafeNow p → SafeNow q
  safe-quiet p q k h = record { value = k.same a ∙ h.value; closed = k.stays a h.closed }

  abbrev KeptSafe : {A : Type 0} → Action port.P A → Type 0
  KeptSafe m = Keeps (λ (s : Flasher port.P). SafeNow s.port) m

  block-Kept :
      (bytes : List ℕ) (chk : ℕ)
      → KeptSafe (command port fuel Op.flash_data bytes chk 0 "write" 10_000)
  unfolding command send send_raw
  block-Kept bytes chk = bind-Keeps _ _ (on_port-Keeps _ _ (laws.block bytes chk a v)) (λ u.
      response_from-Kept port cells open_at laws SafeNow safe-quiet fuel Op.flash_data 0 _ 10_000 0)

  module _ (progress : ℕ → Action port.P Bool) (asks : (n : ℕ) → KeptSafe (progress n)) where
    write_blocks-Kept :
        (block total seq : ℕ) (cs : List (List ℕ))
        → KeptSafe (write_blocks port fuel progress block total seq cs)
    unfolding write_blocks
    write_blocks-Kept block total seq [] = pure-Keeps tt
    write_blocks-Kept block total seq (c ∷ cs) =
        bind-Keeps _ _ (block-Kept (le (length c ∷ seq ∷ 0 ∷ 0 ∷ []) ++ c) (checksum c)) (λ r.
          bind-Keeps _ _ (asks (min ((seq + 1) * block) total)) (λ go_on.
            if_so-Kept port cells open_at laws SafeNow safe-quiet go_on _ _
              (write_blocks-Kept block total (seq + 1) cs) (fail-Keeps _)))

    read_back-Kept : (offset : ℕ) (sent : List ℕ) → KeptSafe (read_back port fuel offset sent)
    unfolding read_back
    read_back-Kept offset sent =
        bind-Keeps _ _
          (flash_md5-Kept port cells open_at laws SafeNow safe-quiet fuel offset (length sent))
          (λ got. if-Keeps (not (eq got (port.md5 sent))) _ _ (fail-Keeps _) (pure-Keeps tt))

    -- From its first frame on a write keeps the cell safe.
    write_padded-Enters :
        (offset : ℕ) (stub : Bool) (block : ℕ) (sent : List ℕ)
        → offset < 2 ^ 32
        → length sent < 2 ^ 32
        → Apart a offset (length sent)
        → Enters
            (λ (s : Flasher port.P). Valued s.port)
            (λ (s : Flasher port.P). SafeNow s.port)
            (write_padded port fuel offset stub block sent progress)
    unfolding write_padded command send send_raw
    write_padded-Enters offset stub block sent low short out =
        bind-Enters _ _
          (bind-Enters _ _
            (on_port-Enters Valued SafeNow _ (λ p h.
              laws.begin (length sent) (length sent / block) block offset
                (if stub then [] else 0 ∷ []) a v p low short out h))
            (λ u.
              response_from-Kept port cells open_at laws SafeNow safe-quiet fuel Op.flash_begin 0 _
                30_000 0))
          (λ r.
            bind-Keeps _ _ (write_blocks-Kept block (length sent) 0 _)
              (λ u. read_back-Kept offset sent))

    write_padded-Valued :
        (offset : ℕ) (stub : Bool) (block : ℕ) (sent : List ℕ)
        → offset < 2 ^ 32
        → length sent < 2 ^ 32
        → Apart a offset (length sent)
        → Keeps
            (λ (s : Flasher port.P). Valued s.port)
            (write_padded port fuel offset stub block sent progress)
    write_padded-Valued offset stub block sent low short out =
        let e = write_padded-Enters offset stub block sent low short out in
        record { at = λ s h. (e.at s h).value }

    -- A write keeps every cell outside of its region, of the size that it has with the stub.
    pub write-Kept :
        (offset : ℕ) (bytes : List ℕ)
        → offset < 2 ^ 32
        → region_of true (length bytes) < 2 ^ 32
        → Apart a offset (region_of true (length bytes))
        → Keeps (λ (s : Flasher port.P). Valued s.port) (write port fuel offset bytes progress)
    unfolding write
    write-Kept offset bytes low short out = bind-Keeps _ _ (gets-Keeps _) (λ stub.
        if-Keeps (not (offset % sector == 0)) _ _ (fail-Keeps _) (
          if-Keeps (block_of stub (length bytes) == 0) _ _ panic-Keeps (
            write_padded-Valued offset stub _ (padded stub bytes) low
              (let l = length-padded_le stub bytes in omega arith)
              (Apart-smaller a offset _ _ (length-padded_le stub bytes) out))))
