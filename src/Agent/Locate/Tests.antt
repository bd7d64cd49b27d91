-- ===== src/Agent/Locate/Tests.antt =====
-- The crate's tests of finding boards, over a network where one address answers, and the theorems there.
use hid_fi.Common.{
  ◌≡◌, refl, ◌↔◌, ℕ, suc, true, false, ◌&&◌, ◌||◌, Option, none, some, List, [], ◌∷◌, any,
  if◌then◌else◌,
}
use hid_fi.Common.Text.{
  Text, codes, eq, trim, utf8, utf8_char, show_nat, digits_from, is_ascii_digit,
}
use hid_fi.Core.Crates.{Crypto}
use hid_fi.Core.Discovery.{
  Mac, UsbDevice, contains, usb_macs, sort_by_key, dedup, dedup_from, filter_map, device_mac,
  parse_mac, digits_in, mac_of, bytes_of, digit, is_ascii_hexdigit, insert_by, mac_le,
}
use hid_fi.Core.Discovery.Macs.{Plugged}
use hid_fi.Core.Ota.Versions.{split_dots}
use hid_fi.Flash.Update.Journal.{hex, lower_digit}
use hid_fi.Agent.Env.{World, reply, failed, too_large}
use hid_fi.Agent.Locate.{
  StatusReply, mdns_url, url_for, is_local_name, host_of, without_http, starts_with, ends_with,
  parse_ipv4, octet, show_ipv4, find_all, candidates, add_all, add_new, ask, probe_why, probe_parse,
  keep, note, sorted_out, plugged_here, without_board, count_elsewhere, remembered_here,
}
use hid_fi.Agent.Locate.Split.{find_all-Plugged}

local_names :
    (is_local_name (codes "http://esp-hid-09f7c8.local:80/x") ≡ true)
    × (is_local_name (codes "http://192.168.0.50") ≡ false)
unfolding is_local_name host_of without_http starts_with ends_with eq
local_names = (refl, refl)

addresses :
    (parse_ipv4 (codes "192.168.0.50") ≡ some (192 ∷ 168 ∷ 0 ∷ 50 ∷ []))
    × (parse_ipv4 (codes "192.168.0.256") ≡ none)
    × (parse_ipv4 (codes "192.168.00.5") ≡ none)
    × (parse_ipv4 (codes "192.168.0") ≡ none)
unfolding parse_ipv4 octet split_dots is_ascii_digit
addresses = (refl, refl, refl, refl)

told_its_address :
    url_for (codes "http://esp-hid-09f7c8.local") (some (codes "192.168.0.50"))
    ≡ codes "http://192.168.0.50"
unfolding url_for is_local_name host_of without_http starts_with ends_with eq parse_ipv4 octet
    split_dots show_ipv4 show_nat digits_from is_ascii_digit
told_its_address = refl

abbrev stand_in : Crypto
stand_in = record {
  sha256 = λ bytes. bytes;
  hmac = λ key message. message;
  hkdf = λ salt secret info. secret;
  public_key = λ secret. secret;
  diffie_hellman = λ secret other. other;
  was_contributory = λ shared. true;
}

-- One address answers; the world counts the requests.
abbrev network : World
network = record {
  W = ℕ;
  post_json = λ url body n. (failed too_large, n);
  get = λ url n. (
    if eq url (codes "http://esp-hid-09f7c8.local/api/status")
        then reply 200 []
        else failed too_large,
    suc n,
  );
  now = λ n. n;
  fill = λ size n. (none, n);
  uptime_sec = λ text. none;
  crypto = stand_in;
  hex = record { encode = λ bytes. bytes; decode = λ text. some text };
  json = record { to_body = λ r. []; from_body = λ body. none };
}

abbrev its_status : Text → Option StatusReply
its_status body = some (record {
  mac = some (codes "DCB4D909F7C8");
  firmware = some (codes "hid_fi_v3.12");
  wifi_ip = none;
})

abbrev serial_of : Text → UsbDevice
serial_of s = record { vid = 0x303a; pid = 0x1001; serial = some s }

abbrev devices : List UsbDevice
devices = serial_of (codes "DCB4D909F7C8") ∷ serial_of (codes "DCB4D9AABBCC") ∷ []

abbrev answering : Mac
answering = 0xDC ∷ 0xB4 ∷ 0xD9 ∷ 0x09 ∷ 0xF7 ∷ 0xC8 ∷ []

abbrev silent : Mac
silent = 0xDC ∷ 0xB4 ∷ 0xD9 ∷ 0xAA ∷ 0xBB ∷ 0xCC ∷ []

offline_not_forgotten : (find_all network its_status devices [] [] 0).0.offline ≡ silent ∷ []
unfolding find_all usb_macs sort_by_key insert_by mac_le dedup dedup_from filter_map device_mac
    parse_mac digits_in mac_of bytes_of digit is_ascii_hexdigit trim eq utf8 utf8_char candidates
    add_all add_new mdns_url hex lower_digit ask probe_why probe_parse starts_with url_for keep note
    sorted_out plugged_here without_board count_elsewhere remembered_here
offline_not_forgotten = refl

find_all-Plugged_example :
    (((any (λ b. eq b.mac silent) (find_all network its_status devices [] [] 0).0.here
          || contains (find_all network its_status devices [] [] 0).0.offline silent)
        ≡ true)
      ↔ Plugged devices silent)
    × ((any (λ b. eq b.mac silent) (find_all network its_status devices [] [] 0).0.here
          && contains (find_all network its_status devices [] [] 0).0.offline silent)
        ≡ false)
find_all-Plugged_example = find_all-Plugged network its_status devices [] [] 0 silent
