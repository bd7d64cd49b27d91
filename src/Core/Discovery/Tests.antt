-- ===== src/Core/Discovery/Tests.antt =====
-- Runs of the parser and the choice, and the theorems at a board that is plugged in.
use hid_fi.Common.{◌≡◌, refl, ◌↔◌, true, none, some, List, [], ◌∷◌}
use hid_fi.Common.Text.{codes, eq, trim, utf8, utf8_char}
use hid_fi.Core.Discovery.{
  Mac, UsbDevice, NetBoard, parse_mac, select, usb_macs, contains, digits_in, mac_of, separated,
  without, bytes_of, digit, is_ascii_hexdigit,
}
use hid_fi.Core.Discovery.Macs.{Plugged, usb_macs-Plugged_iff}
use hid_fi.Core.Discovery.Select.{Justified, select-Justified}

abbrev mac : Mac
mac = 0xDC ∷ 0xB4 ∷ 0xD9 ∷ 0x09 ∷ 0xF7 ∷ 0xC8 ∷ []

forms :
    (parse_mac (codes "DCB4D909F7C8") ≡ some mac)
    × (parse_mac (codes " dc:b4:d9:09:f7:c8") ≡ some mac)
    × (parse_mac (codes "DC:B4-D9:09:F7:C8") ≡ none)
    × (parse_mac (codes "FFFFFFFFFFFF") ≡ none)
unfolding parse_mac digits_in mac_of separated without bytes_of digit is_ascii_hexdigit trim eq utf8
    utf8_char
forms = (refl, refl, refl, refl)

abbrev plugged : List UsbDevice
plugged = record { vid = 0x303a; pid = 0x1001; serial = some (codes "DCB4D909F7C8") } ∷ []

abbrev on_network : List NetBoard
on_network = record { url = codes "http://b"; mac = mac; firmware = codes "hid_fi_v3.11" } ∷ []

usb_macs-Plugged_iff_example : (contains (usb_macs plugged) mac ≡ true) ↔ Plugged plugged mac
usb_macs-Plugged_iff_example = usb_macs-Plugged_iff plugged mac

select-Justified_example : Justified plugged on_network none (select plugged on_network none)
select-Justified_example = select-Justified plugged on_network none
