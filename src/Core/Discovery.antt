-- ===== src/Core/Discovery.antt =====
-- Which board is plugged into this computer: companion/crates/hidfi-core/src/discovery.rs. A MAC is
-- the list of its six bytes.
pub mod Macs
pub mod Select
mod Tests
use hid_fi.Common.{
  ℕ, zero, suc, ◌+◌, ◌*◌, ◌-◌, ◌%◌, Bool, true, false, not, ◌&&◌, ◌||◌, Option, none, some, ◌>>=◌,
  List, [], ◌∷◌, ◌++◌, ◌==◌, ltb, leb, if◌then◌else◌, length, get_or, any, all, replicate,
}
use hid_fi.Common.Text.{Text, eq, trim, utf8}

abbrev pub espressif_vid : ℕ
espressif_vid = 0x303a

abbrev pub Mac : Type 0
Mac = List ℕ

unfoldable pub is_ascii_hexdigit : ℕ → Bool
is_ascii_hexdigit c = leb 48 c && leb c 57 || (leb 65 c && leb c 70 || leb 97 c && leb c 102)

-- The value of a hexadecimal digit.
unfoldable pub digit : ℕ → ℕ
digit c = if leb c 57 then c - 48 else if leb c 70 then c - 55 else c - 87

unfoldable pub bytes_of : List ℕ → List ℕ
unfolding digit
bytes_of [] = []
bytes_of (a ∷ []) = []
bytes_of (a ∷ b ∷ rest) = (16 * digit a + digit b) ∷ bytes_of rest

-- `for (i, c) in s.bytes().enumerate()`, from index `i` on.
unfoldable pub separated : ℕ → ℕ → List ℕ → Bool
separated sep i [] = true
separated sep i (c ∷ cs) = not (i % 3 == 2 && not (c == sep)) && separated sep (suc i) cs

unfoldable pub without : ℕ → Text → Text
without sep [] = []
without sep (c ∷ cs) = let rest = without sep cs in if c % 256 == sep then rest else c ∷ rest

-- `match s.len()`, of a trimmed text.
unfoldable pub digits_in : Text → Option Text
unfolding separated without
digits_in s =
    let bytes = utf8 s in
    let sep = get_or bytes 2 0 in
    if length bytes == 12
    then some s
    else if not (length bytes == 17)
    then none
    else if not (sep == b':') && not (sep == b'-')
    then none
    else if separated sep 0 bytes
    then some (without sep s)
    else none

unfoldable pub mac_of : Text → Option Mac
unfolding is_ascii_hexdigit bytes_of
mac_of digits =
    let out = bytes_of digits in
    if not (length (utf8 digits) == 12) || not (all is_ascii_hexdigit (utf8 digits))
    then none
    else if eq out (replicate 6 0) || eq out (replicate 6 0xff)
    then none
    else some out

-- `Mac::parse`.
unfoldable pub parse_mac : Text → Option Mac
unfolding digits_in mac_of
parse_mac s = digits_in (trim s) >>= mac_of

pub record UsbDevice : Type 0 where
  pub vid : ℕ
  pub pid : ℕ
  pub serial : Option Text

pub record NetBoard : Type 0 where
  pub url : Text
  pub mac : Mac
  pub firmware : Text

pub data Selection : Type 0 where
  board : NetBoard → Selection
  not_plugged_in : ℕ → Selection
  not_on_network : Mac → Selection
  choose : List NetBoard → Selection

-- The order of arrays of bytes.
unfoldable pub mac_le : Mac → Mac → Bool
mac_le [] ys = true
mac_le (x ∷ xs) [] = false
mac_le (x ∷ xs) (y ∷ ys) = ltb x y || x == y && mac_le xs ys

-- A stable sort by a MAC.
module _ {A : Type 0} where
  unfoldable pub insert_by : (A → Mac) → A → List A → List A
  insert_by key x [] = x ∷ []
  insert_by key x (y ∷ ys) =
      let rest = insert_by key x ys in if mac_le (key x) (key y) then x ∷ y ∷ ys else y ∷ rest

  unfoldable pub sort_by_key : (A → Mac) → List A → List A
  unfolding insert_by
  sort_by_key key [] = []
  sort_by_key key (x ∷ xs) = insert_by key x (sort_by_key key xs)

unfoldable pub dedup_from : Mac → List Mac → List Mac
dedup_from x [] = x ∷ []
dedup_from x (y ∷ ys) = let rest = dedup_from y ys in if eq x y then rest else x ∷ rest

unfoldable pub dedup : List Mac → List Mac
unfolding dedup_from
dedup [] = []
dedup (x ∷ xs) = dedup_from x xs

unfoldable pub device_mac : UsbDevice → Option Mac
device_mac d = if d.vid == espressif_vid then d.serial >>= parse_mac else none

abbrev pub push_some : Option Mac → List Mac → List Mac
push_some none ms = ms
push_some (some m) ms = m ∷ ms

unfoldable pub filter_map : List UsbDevice → List Mac
unfolding device_mac
filter_map [] = []
filter_map (d ∷ ds) = push_some (device_mac d) (filter_map ds)

unfoldable pub usb_macs : List UsbDevice → List Mac
unfolding sort_by_key dedup filter_map
usb_macs devices = dedup (sort_by_key (λ m. m) (filter_map devices))

abbrev pub contains : List Mac → Mac → Bool
contains ms m = any (λ x. eq x m) ms

-- The loop over the boards on the network.
unfoldable pub boards_here : List Mac → List NetBoard → List NetBoard → List NetBoard
boards_here macs [] here = here
boards_here macs (b ∷ bs) here =
    boards_here macs bs
      (if contains macs b.mac && not (any (λ h. eq h.mac b.mac) here) then here ++ b ∷ [] else here)

unfoldable pub unmatched : List NetBoard → List Mac → List Mac
unmatched net [] = []
unmatched net (m ∷ ms) =
    let rest = unmatched net ms in if any (λ b. eq b.mac m) net then rest else m ∷ rest

unfoldable pub find_board : Mac → List NetBoard → Option NetBoard
find_board m [] = none
find_board m (b ∷ bs) = let rest = find_board m bs in if eq b.mac m then some b else rest

-- No board of the network is here.
unfoldable pub nothing_here : List Mac → List NetBoard → Selection
nothing_here (m ∷ []) [] = not_on_network m
nothing_here macs net = not_plugged_in (length net)

abbrev pub or_choose : List NetBoard → Option NetBoard → Selection
or_choose here none = choose here
or_choose here (some b) = board b

unfoldable pub among : List Mac → List NetBoard → Option Mac → List NetBoard → Selection
unfolding nothing_here unmatched find_board
among macs net remembered [] = nothing_here (unmatched net macs) net
among macs net remembered (b ∷ []) = board b
among macs net remembered (b ∷ c ∷ bs) =
    or_choose (b ∷ c ∷ bs) (remembered >>= λ m. find_board m (b ∷ c ∷ bs))

unfoldable pub select : List UsbDevice → List NetBoard → Option Mac → Selection
unfolding usb_macs boards_here sort_by_key among
select usb net remembered =
    let macs = usb_macs usb in
    among macs net remembered (sort_by_key (λ b. b.mac) (boards_here macs net []))
