-- ===== src/Agent/Locate.antt =====
-- Finding the board plugged into this computer: companion/crates/hidfi-agent/src/locate.rs. What a
-- status reply holds is serde_json's, a parameter; why an address is no board is kept as data, not as
-- the text that the log shows.
pub mod Split
pub mod Chosen
mod Tests
use hid_fi.Common.{
  ℕ, zero, suc, ◌+◌, ◌-◌, ◌*◌, Bool, true, false, not, ◌&&◌, ◌||◌, Option, none, some, ◌>>=◌, List,
  [], ◌∷◌, ◌++◌, ◌==◌, leb, ltb, if◌then◌else◌, length, take, drop, get_or, map, any, all,
}
use hid_fi.Common.Text.{Text, codes, eq, is_ascii_digit, read_from, show_nat}
use hid_fi.Core.Discovery.{
  Mac, UsbDevice, NetBoard, Selection, not_plugged_in, parse_mac, sort_by_key, usb_macs, contains,
  select,
}
use hid_fi.Core.Ota.Versions.{split_dots}
use hid_fi.Agent.Env.{World, NetError, HttpResult, reply, failed}
use hid_fi.Flash.Update.Journal.{hex}

pub record StatusReply : Type 0 where
  pub mac : Option Text
  pub firmware : Option Text
  pub wifi_ip : Option Text

unfoldable pub mdns_url : Mac → Text
unfolding hex
mdns_url mac = codes "http://esp-hid-" ++ (hex (take 3 (drop 3 mac)) ++ codes ".local")

unfoldable pub starts_with : Text → Text → Bool
unfolding eq
starts_with prefix s = eq (take (length prefix) s) prefix

unfoldable pub ends_with : Text → Text → Bool
unfolding eq
ends_with suffix s = eq (drop (length s - length suffix) s) suffix

-- `trim_start_matches("http://")`, as often as it fits: the fuel is the length.
unfoldable pub without_http : ℕ → Text → Text
unfolding starts_with
without_http zero s = s
without_http (suc fuel) s =
    let rest = without_http fuel (drop 7 s) in if starts_with (codes "http://") s then rest else s

-- `split(['/', ':']).next()`
unfoldable pub host_of : Text → Text
host_of [] = []
host_of (c ∷ cs) = let rest = host_of cs in if c == b'/' || c == b':' then [] else c ∷ rest

unfoldable pub is_local_name : Text → Bool
unfolding without_http host_of ends_with
is_local_name base = ends_with (codes ".local") (host_of (without_http (length base) base))

-- A number of an IPv4 address: up to three digits, none of them a leading 0, up to 255.
unfoldable pub octet : Text → Option ℕ
octet t =
    if length t == 0 || ltb 3 (length t) || not (all is_ascii_digit t)
    then none
    else if ltb 1 (length t) && get_or t 0 0 == b'0'
    then none
    else if ltb 255 (read_from 0 t)
    then none
    else some (read_from 0 t)

abbrev four : List Text → Option (List ℕ)
four (a ∷ b ∷ c ∷ d ∷ []) = do
  a ← octet a
  b ← octet b
  c ← octet c
  d ← octet d
  some (a ∷ b ∷ c ∷ d ∷ [])
four _ = none

-- `parse::<Ipv4Addr>()`
unfoldable pub parse_ipv4 : Text → Option (List ℕ)
unfolding split_dots octet
parse_ipv4 s = four (split_dots s)

-- An address as it is printed.
unfoldable pub show_ipv4 : List ℕ → Text
unfolding show_nat
show_ipv4 [] = []
show_ipv4 (a ∷ []) = show_nat a
show_ipv4 (a ∷ b ∷ bs) = show_nat a ++ b'.' ∷ show_ipv4 (b ∷ bs)

abbrev is_unspecified : List ℕ → Bool
is_unspecified ip = all (λ b. b == 0) ip

abbrev at_address : Text → Option (List ℕ) → Text
at_address base none = base
at_address base (some ip) =
    if is_local_name base && not (is_unspecified ip) then codes "http://" ++ show_ipv4 ip else base

-- The address to talk to from now on.
unfoldable pub url_for : Text → Option Text → Text
unfolding is_local_name parse_ipv4 show_ipv4
url_for base wifi_ip = at_address base (wifi_ip >>= parse_ipv4)

pub data Why : Type 0 where
  net : NetError → Why
  http : ℕ → Why
  not_a_board : Why

pub data Probe : Type 0 where
  found : NetBoard → Probe
  missed : Why → Probe

abbrev same_text : List Text → Text → Bool
same_text out u = any (λ v. eq v u) out

-- `add`: an address that is not there yet.
unfoldable pub add_new : List Text → Text → List Text
add_new out u = if same_text out u then out else out ++ u ∷ []

unfoldable pub add_all : List Text → List Text → List Text
unfolding add_new
add_all out [] = out
add_all out (u ∷ us) = add_all (add_new out u) us

abbrev to_list : Option Text → List Text
to_list none = []
to_list (some u) = u ∷ []

-- Everything worth asking, without duplicates, addresses first.
unfoldable pub candidates : List Mac → Option Text → List Text → List Text
unfolding add_all mdns_url
candidates macs remembered browsed =
    add_all (add_all (add_all [] (to_list remembered)) browsed) (map mdns_url macs)

-- The boards seen, each once, and what missed.
unfoldable pub keep : Probe → List NetBoard → List NetBoard
keep (missed why) seen = seen
keep (found b) seen = if any (λ s. eq s.mac b.mac) seen then seen else seen ++ b ∷ []

unfoldable pub note : Text → Probe → List (Text × Why) → List (Text × Why)
note url (found b) misses = misses
note url (missed why) misses = misses ++ (url, why) ∷ []

unfoldable pub plugged_here : List Mac → List NetBoard → List NetBoard
plugged_here macs [] = []
plugged_here macs (b ∷ bs) =
    let rest = plugged_here macs bs in if contains macs b.mac then b ∷ rest else rest

unfoldable pub without_board : List NetBoard → List Mac → List Mac
without_board here [] = []
without_board here (m ∷ ms) =
    let rest = without_board here ms in if any (λ b. eq b.mac m) here then rest else m ∷ rest

unfoldable pub count_elsewhere : List Mac → List NetBoard → ℕ
count_elsewhere macs [] = 0
count_elsewhere macs (b ∷ bs) =
    let rest = count_elsewhere macs bs in if contains macs b.mac then rest else suc rest

-- The addresses that worked last time, of boards that are plugged in.
unfoldable pub remembered_here : List Mac → List (Mac × Text) → List Text
remembered_here macs [] = []
remembered_here macs ((m, u) ∷ rs) =
    let rest = remembered_here macs rs in if contains macs m then u ∷ rest else rest

pub record Found : Type 0 where
  pub selection : Selection
  pub usb : List Mac
  pub misses : List (Text × Why)

pub record FoundAll : Type 0 where
  pub here : List NetBoard
  pub offline : List Mac
  pub elsewhere : ℕ
  pub misses : List (Text × Why)

abbrev pub no_board : FoundAll
no_board = record { here = []; offline = []; elsewhere = 0; misses = [] }

unfoldable pub sorted_out : List Mac → List NetBoard → List (Text × Why) → FoundAll
unfolding plugged_here without_board count_elsewhere sort_by_key
sorted_out macs seen misses =
    let here = sort_by_key (λ b. b.mac) (plugged_here macs seen) in
    record {
      here = here;
      offline = without_board here macs;
      elsewhere = count_elsewhere macs seen;
      misses = misses;
    }

abbrev pub mac_in : Option (Mac × Text) → Option Mac
mac_in none = none
mac_in (some (m, u)) = some m

abbrev url_in : Option (Mac × Text) → Option Text
url_in none = none
url_in (some (m, u)) = some u

module _ (w : World) (decode : Text → Option StatusReply) where
  open w use {W, get}

  unfoldable pub probe_parse : Text → Text → Option NetBoard
  unfolding starts_with url_for
  probe_parse base body = do
    s ← decode body
    firmware ← s.firmware
    if not (starts_with (codes "hid_fi_v") firmware) then none else do
      text ← s.mac
      mac ← parse_mac text
      some (record { url = url_for base s.wifi_ip; mac = mac; firmware = firmware })

  abbrev or_no_board : Option NetBoard → Probe
  or_no_board none = missed not_a_board
  or_no_board (some b) = found b

  abbrev on_answer : Text → HttpResult → Probe
  on_answer base (failed e) = missed (net e)
  on_answer base (reply code body) =
      if not (code == 200) then missed (http code) else or_no_board (probe_parse base body)

  unfoldable pub probe_why : Text → W → Probe × W
  unfolding probe_parse
  probe_why base s = let (r, s') = get (base ++ codes "/api/status") s in (on_answer base r, s')

  -- The loop over the addresses.
  unfoldable pub ask :
      List Text → List NetBoard → List (Text × Why) → W → (List NetBoard × List (Text × Why)) × W
  unfolding probe_why keep note
  ask [] seen misses s = ((seen, misses), s)
  ask (u ∷ us) seen misses s =
      let (p, s') = probe_why u s in ask us (keep p seen) (note u p misses) s'

  -- `devices` is what the USB lists, `browsed` what mDNS has seen.
  abbrev pub find_among :
      List UsbDevice → List Text → Option (Mac × Text) → List Mac → W → Found × W
  find_among devices browsed remembered [] s =
      (record { selection = not_plugged_in 0; usb = []; misses = [] }, s)
  find_among devices browsed remembered (m ∷ ms) s =
      let ((seen, misses), s') = ask (candidates (m ∷ ms) (url_in remembered) browsed) [] [] s in
      (
        record {
          selection = select devices seen (mac_in remembered);
          usb = m ∷ ms;
          misses = misses;
        },
        s',
      )

  unfoldable pub find : List UsbDevice → List Text → Option (Mac × Text) → W → Found × W
  unfolding usb_macs candidates ask select
  find devices browsed remembered s = find_among devices browsed remembered (usb_macs devices) s

  abbrev pub find_all_among : List Text → List (Mac × Text) → List Mac → W → FoundAll × W
  find_all_among browsed remembered [] s = (no_board, s)
  find_all_among browsed remembered (m ∷ ms) s =
      let urls = add_all (remembered_here (m ∷ ms) remembered) (candidates (m ∷ ms) none browsed) in
      let ((seen, misses), s') = ask urls [] [] s in (sorted_out (m ∷ ms) seen misses, s')

  unfoldable pub find_all : List UsbDevice → List Text → List (Mac × Text) → W → FoundAll × W
  unfolding usb_macs candidates ask remembered_here sorted_out
  find_all devices browsed remembered s = find_all_among browsed remembered (usb_macs devices) s
