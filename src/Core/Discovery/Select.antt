-- ===== src/Core/Discovery/Select.antt =====
-- Which board is chosen: `select` of discovery.rs.
use hid_fi.Common.{
  ◌≡◌, ◌≢◌, refl, sym, ap, ◌∙◌, ◌⊎◌, inl, inr, ◌≤◌, true, false, Option, none, some, ◌>>=◌, List,
  [], ◌∷◌, ◌++◌, arith, length, any, All, All-append, Bool-cases,
}
use hid_fi.Common.Text.{eq, eq_refl}
use hid_fi.Core.Discovery.{
  Mac, UsbDevice, NetBoard, Selection, board, not_plugged_in, not_on_network, choose, mac_le,
  insert_by, sort_by_key, usb_macs, contains, boards_here, unmatched, find_board, nothing_here,
  or_choose, among, select,
}
use hid_fi.Core.Discovery.Macs.{Plugged, usb_macs-Plugged_iff}

-- The board is one of the list.
pub Listed : NetBoard → List NetBoard → Type 0
Listed b [] = ⊥
Listed b (c ∷ cs) = (b ≡ c) ⊎ Listed b cs

-- A board of the network whose MAC is on this computer's USB.
pub record Here (usb : List UsbDevice) (net : List NetBoard) (b : NetBoard) : Type 0 where
  pub listed : Listed b net
  pub plugged : Plugged usb b.mac

-- What may be answered: a board only if it is here, several only if they are all here and the
-- remembered one is not among them, and none only if none is here.
unfoldable pub Justified : List UsbDevice → List NetBoard → Option Mac → Selection → Type 0
Justified usb net remembered (board b) = Here usb net b
Justified usb net remembered (not_plugged_in n) =
    (n ≡ length net) × All (λ b. ¬ Plugged usb b.mac) net
Justified usb net remembered (not_on_network m) = (net ≡ []) × Plugged usb m
Justified usb net remembered (choose bs) =
    All (Here usb net) bs × (2 ≤ length bs) × All (λ b. remembered ≢ some b.mac) bs

module _ {A : Type 0} (P : A → Type 0) (key : A → Mac) where
  All-insert_by : (x : A) (ys : List A) → P x → All P ys → All P (insert_by key x ys)
  unfolding insert_by
  All-insert_by x [] h hs = (h, tt)
  All-insert_by x (y ∷ ys) h hs = elim (Bool-cases (mac_le (key x) (key y))) [
    | inl e ↦ rw e (h, hs)
    | inr e ↦ rw e (hs.0, All-insert_by x ys h hs.1)
  ]

  All-sort_by_key : (xs : List A) → All P xs → All P (sort_by_key key xs)
  unfolding sort_by_key
  All-sort_by_key [] hs = tt
  All-sort_by_key (x ∷ xs) hs = All-insert_by x _ hs.0 (All-sort_by_key xs hs.1)

-- The boards collected satisfy what the boards with a local MAC do.
All-boards_here :
    (P : NetBoard → Type 0) (macs : List Mac) (bs here : List NetBoard)
    → All (λ b. contains macs b.mac ≡ true → P b) bs
    → All P here
    → All P (boards_here macs bs here)
unfolding boards_here
All-boards_here P macs [] here hs h = h
All-boards_here P macs (b ∷ bs) here hs h = elim (Bool-cases (contains macs b.mac)) [
  | inl p ↦ elim (Bool-cases (any (λ x. eq x.mac b.mac) here)) [
    | inl q ↦ rw (p, q) (All-boards_here P macs bs here hs.1 h)
    | inr q ↦
        rw (p, q)
          (All-boards_here P macs bs (here ++ b ∷ []) hs.1
            (All-append P here (b ∷ []) h (hs.0 p, tt)))
  ]
  | inr p ↦ rw p (All-boards_here P macs bs here hs.1 h)
]

ends_not_empty : {A : Type 0} (xs : List A) (x : A) → xs ++ x ∷ [] ≢ []
ends_not_empty [] x h = cc
ends_not_empty (y ∷ xs) x h = cc

-- What is collected stays.
boards_here-empty :
    (macs : List Mac) (bs here : List NetBoard)
    → boards_here macs bs here ≡ []
    → (here ≡ []) × All (λ b. contains macs b.mac ≡ false) bs
unfolding boards_here
boards_here-empty macs [] here h = (h, tt)
boards_here-empty macs (b ∷ bs) here h = elim (Bool-cases (contains macs b.mac)) [
  | inl p ↦ elim (Bool-cases (any (λ x. eq x.mac b.mac) here)) [
    | inl q ↦ let (e, hs) = boards_here-empty macs bs here (rw (p, q) at h) in cc (rw e at q)
    | inr q ↦
        elim (ends_not_empty here b
          (boards_here-empty macs bs (here ++ b ∷ []) (rw (p, q) at h)).0) [ ]
  ]
  | inr p ↦ let (e, hs) = boards_here-empty macs bs here (rw p at h) in (e, (p, hs))
]

insert_not_empty : {A : Type 0} (key : A → Mac) (x : A) (ys : List A) → insert_by key x ys ≢ []
unfolding insert_by
insert_not_empty key x [] h = cc
insert_not_empty key x (y ∷ ys) h = ground arith

sort_by_key-empty : {A : Type 0} (key : A → Mac) (xs : List A) → sort_by_key key xs ≡ [] → xs ≡ []
unfolding sort_by_key
sort_by_key-empty key [] h = refl
sort_by_key-empty key (x ∷ xs) h = elim (insert_not_empty key x _ h) [ ]

some_inv : {A : Type 0} {a b : A} → some a ≡ some b → a ≡ b
some_inv h = cc

from_some : (P : NetBoard → Type 0) (c b : NetBoard) → some c ≡ some b → P c → P b
from_some P c b h x = rw⁻¹ (some_inv h) x

find_board_holds :
    (P : NetBoard → Type 0) (m : Mac) (bs : List NetBoard) (b : NetBoard)
    → find_board m bs ≡ some b
    → All P bs
    → P b
unfolding find_board
find_board_holds P m [] b h hs = cc
find_board_holds P m (c ∷ bs) b h hs = elim (Bool-cases (eq c.mac m)) [
  | inl p ↦ from_some P c b (rw p at h) hs.0
  | inr p ↦ find_board_holds P m bs b (rw p at h) hs.1
]

other_mac : (m n : Mac) → eq n m ≡ false → m ≢ n
other_mac m n p e = cc (rw e at p, eq_refl n)

find_board-none :
    (m : Mac) (bs : List NetBoard) → find_board m bs ≡ none → All (λ b. some m ≢ some b.mac) bs
unfolding find_board
find_board-none m [] h = tt
find_board-none m (c ∷ bs) h = elim (Bool-cases (eq c.mac m)) [
  | inl p ↦ cc (rw p at h)
  | inr p ↦ (λ e. other_mac m c.mac p (some_inv e), find_board-none m bs (rw p at h))
]

none_remembered : (bs : List NetBoard) → All (λ b. ◌≢◌ {A = Option Mac} none (some b.mac)) bs
none_remembered [] = tt
none_remembered (b ∷ bs) = (λ e. cc, none_remembered bs)

unmatched-empty : (macs : List Mac) → unmatched [] macs ≡ macs
unfolding unmatched
unmatched-empty [] = refl
unmatched-empty (m ∷ ms) = ap (λ (x : List Mac). m ∷ x) (unmatched-empty ms)

sole :
    (macs : List Mac) (net : List NetBoard) (m : Mac)
    → net ≡ []
    → unmatched net macs ≡ m ∷ []
    → contains macs m ≡ true
sole macs [] m n e = rw (sym (unmatched-empty macs) ∙ e, eq_refl m) refl
sole macs (b ∷ bs) m n e = cc

module _ (usb : List UsbDevice) (net : List NetBoard) (remembered : Option Mac) where
  nothing_here-Justified :
      (rest : List Mac) (ns : List NetBoard)
      → ns ≡ net
      → All (λ b. ¬ Plugged usb b.mac) ns
      → ((m : Mac) → rest ≡ m ∷ [] → ns ≡ [] → Plugged usb m)
      → Justified usb net remembered (nothing_here rest ns)
  unfolding nothing_here Justified
  nothing_here-Justified [] ns e h k = (ap length e, rw⁻¹ e h)
  nothing_here-Justified (m ∷ []) [] e h k = (sym e, k m refl refl)
  nothing_here-Justified (m ∷ []) (b ∷ ns) e h k = (ap length e, rw⁻¹ e h)
  nothing_here-Justified (m ∷ m' ∷ rest) ns e h k = (ap length e, rw⁻¹ e h)

  or_choose-Justified :
      (bs : List NetBoard) (o : Option NetBoard)
      → All (Here usb net) bs
      → 2 ≤ length bs
      → ((b : NetBoard) → o ≡ some b → Here usb net b)
      → (o ≡ none → All (λ b. remembered ≢ some b.mac) bs)
      → Justified usb net remembered (or_choose bs o)
  unfolding Justified
  or_choose-Justified bs none h l k n = (h, l, n refl)
  or_choose-Justified bs (some b) h l k n = k b refl

  recalled :
      (bs : List NetBoard) (r : Option Mac) (b : NetBoard)
      → (r >>= λ m. find_board m bs) ≡ some b
      → All (Here usb net) bs
      → Here usb net b
  recalled bs none b e h = cc
  recalled bs (some m) b e h = find_board_holds (Here usb net) m bs b e h

  not_recalled :
      (bs : List NetBoard) (r : Option Mac)
      → (r >>= λ m. find_board m bs) ≡ none
      → All (λ b. r ≢ some b.mac) bs
  not_recalled bs none e = none_remembered bs
  not_recalled bs (some m) e = find_board-none m bs e

  among-Justified :
      (here : List NetBoard)
      → All (Here usb net) here
      → (here ≡ [] → All (λ b. ¬ Plugged usb b.mac) net)
      → Justified usb net remembered (among (usb_macs usb) net remembered here)
  unfolding among Justified
  among-Justified [] h none_here =
      nothing_here-Justified (unmatched net (usb_macs usb)) net refl (none_here refl)
        (λ m e n. (usb_macs-Plugged_iff usb m).0 (sole (usb_macs usb) net m n e))
  among-Justified (b ∷ []) h none_here = h.0
  among-Justified (b ∷ c ∷ bs) h none_here =
      or_choose-Justified _ _ h (omega arith) (λ x e. recalled (b ∷ c ∷ bs) remembered x e h)
        (λ e. not_recalled (b ∷ c ∷ bs) remembered e)

  locals-Here :
      (bs : List NetBoard)
      → ((b : NetBoard) → Listed b bs → Listed b net)
      → All (λ b. contains (usb_macs usb) b.mac ≡ true → Here usb net b) bs
  unfolding Listed
  locals-Here [] inc = tt
  locals-Here (b ∷ bs) inc = (
    λ p. record { listed = inc b (inl refl); plugged = (usb_macs-Plugged_iff usb b.mac).0 p },
    locals-Here bs (λ c l. inc c (inr l)),
  )

  not_local :
      (bs : List NetBoard)
      → All (λ b. contains (usb_macs usb) b.mac ≡ false) bs
      → All (λ b. ¬ Plugged usb b.mac) bs
  not_local [] h = tt
  not_local (b ∷ bs) h = (λ p. cc ((usb_macs-Plugged_iff usb b.mac).1 p, h.0), not_local bs h.1)

-- Whatever devices and boards there are, the answer is justified: a board is chosen only if it is on
-- the network and an Espressif device on this computer's USB has its MAC for serial number; the user
-- is asked to choose only among two or more such boards, the remembered one not among them; a board
-- is said to be off the network only if it is on the USB and no board is on the network; and none is
-- said to be plugged in only if no board on the network is.
pub select-Justified :
    (usb : List UsbDevice) (net : List NetBoard) (remembered : Option Mac)
    → Justified usb net remembered (select usb net remembered)
unfolding select
select-Justified usb net remembered =
    among-Justified usb net remembered _
      (All-sort_by_key (Here usb net) (λ b. b.mac) _
        (All-boards_here (Here usb net) (usb_macs usb) net []
          (locals-Here usb net remembered net (λ b l. l)) tt))
      (λ e.
        not_local usb net remembered net
          (boards_here-empty (usb_macs usb) net [] (sort_by_key-empty (λ b. b.mac) _ e)).1)
