-- ===== src/Core/Discovery/Macs.antt =====
-- Which MACs are on this computer's USB: `usb_macs` of discovery.rs.
use hid_fi.Common.{
  ◌≡◌, refl, sym, ap, ◌∙◌, ◌↔◌, ◌⊎◌, inl, inr, Bool, true, ◌||◌, Option, none, some, ◌>>=◌, List,
  [], ◌∷◌, ◌==◌, arith, any, Bool-cases,
}
use hid_fi.Common.Text.{Text, eq, eq_sound, eq_refl}
use hid_fi.Core.Discovery.{
  Mac, UsbDevice, espressif_vid, mac_le, insert_by, sort_by_key, dedup_from, dedup, parse_mac,
  device_mac, push_some, filter_map, usb_macs, contains,
}

-- An Espressif device whose serial number is the MAC is on the USB.
pub Plugged : List UsbDevice → Mac → Type 0
Plugged [] m = ⊥
Plugged (d ∷ ds) m =
    ((d.vid ≡ espressif_vid) × (s : Text) × (d.serial ≡ some s) × (parse_mac s ≡ some m))
    ⊎ Plugged ds m

-- Sorting keeps what a test finds.
module _ {A : Type 0} (p : A → Bool) (key : A → Mac) where
  swap_tests : (a b c : Bool) → (a || (b || c)) ≡ (b || (a || c))
  swap_tests a b c = ground arith

  any-insert_by : (x : A) (ys : List A) → any p (insert_by key x ys) ≡ (p x || any p ys)
  unfolding insert_by
  any-insert_by x [] = refl
  any-insert_by x (y ∷ ys) = elim (Bool-cases (mac_le (key x) (key y))) [
    | inl h ↦ rw h refl
    | inr h ↦ rw (h, any-insert_by x ys) (swap_tests (p y) (p x) (any p ys))
  ]

  pub any-sort_by_key : (xs : List A) → any p (sort_by_key key xs) ≡ any p xs
  unfolding sort_by_key
  any-sort_by_key [] = refl
  any-sort_by_key (x ∷ xs) =
      any-insert_by x (sort_by_key key xs) ∙ ap (λ (b : Bool). p x || b) (any-sort_by_key xs)

twice : (a b : Bool) → (a || b) ≡ (a || (a || b))
twice a b = ground arith

contains-dedup_from :
    (m x : Mac) (ys : List Mac) → contains (dedup_from x ys) m ≡ contains (x ∷ ys) m
unfolding dedup_from
contains-dedup_from m x [] = refl
contains-dedup_from m x (y ∷ ys) = elim (Bool-cases (eq x y)) [
  | inl h ↦ rw (h, contains-dedup_from m y ys, eq_sound x y h) (twice (eq y m) _)
  | inr h ↦ rw (h, contains-dedup_from m y ys) refl
]

contains-dedup : (m : Mac) (xs : List Mac) → contains (dedup xs) m ≡ contains xs m
unfolding dedup
contains-dedup m [] = refl
contains-dedup m (x ∷ xs) = contains-dedup_from m x xs

contains-usb_macs :
    (ds : List UsbDevice) (m : Mac) → contains (usb_macs ds) m ≡ contains (filter_map ds) m
unfolding usb_macs
contains-usb_macs ds m =
    contains-dedup m (sort_by_key (λ x. x) (filter_map ds))
    ∙ any-sort_by_key (λ x. eq x m) (λ x. x) (filter_map ds)

serial_mac :
    (o : Option Text) (m : Mac)
    → (o >>= parse_mac) ≡ some m
    → (s : Text) × (o ≡ some s) × (parse_mac s ≡ some m)
serial_mac none m h = cc
serial_mac (some s) m h = (s, refl, h)

abbrev Serial : UsbDevice → Mac → Type 0
Serial d m = (s : Text) × (d.serial ≡ some s) × (parse_mac s ≡ some m)

with_vid :
    (d : UsbDevice) (m : Mac)
    → d.vid ≡ espressif_vid
    → Serial d m
    → (d.vid ≡ espressif_vid) × (s : Text) × (d.serial ≡ some s) × (parse_mac s ≡ some m)
with_vid d m v (s, e, p) = (v, s, e, p)

device_mac_sound :
    (d : UsbDevice) (m : Mac)
    → device_mac d ≡ some m
    → (d.vid ≡ espressif_vid) × (s : Text) × (d.serial ≡ some s) × (parse_mac s ≡ some m)
unfolding device_mac
device_mac_sound d m h = elim (Bool-cases (d.vid == espressif_vid)) [
  | inl p ↦ with_vid d m (ground arith) (serial_mac d.serial m (rw p at h))
  | inr p ↦ cc (rw p at h)
]

device_mac_complete :
    (d : UsbDevice) (m : Mac) (s : Text)
    → d.vid ≡ espressif_vid
    → d.serial ≡ some s
    → parse_mac s ≡ some m
    → device_mac d ≡ some m
unfolding device_mac
device_mac_complete d m s v e p = simp (v, e, p)

or_true : (b : Bool) → (b || true) ≡ true
or_true b = ground arith

pushed :
    (o : Option Mac) (ms : List Mac) (m : Mac)
    → contains ms m ≡ true
    → contains (push_some o ms) m ≡ true
pushed none ms m h = h
pushed (some x) ms m h = rw h (or_true (eq x m))

found :
    (o : Option Mac) (ms : List Mac) (m : Mac)
    → contains (push_some o ms) m ≡ true
    → (o ≡ some m) ⊎ (contains ms m ≡ true)
found none ms m h = inr h
found (some x) ms m h = elim (Bool-cases (eq x m)) [
  | inl p ↦ inl (ap some (eq_sound x m p))
  | inr p ↦ inr (rw p at h)
]

Plugged-contains :
    (ds : List UsbDevice) (m : Mac) → Plugged ds m → contains (filter_map ds) m ≡ true
unfolding filter_map Plugged
Plugged-contains [] m h = elim h [ ]
Plugged-contains (d ∷ ds) m (inl (v, s, e, p)) =
    rw (device_mac_complete d m s v e p, eq_refl m) refl
Plugged-contains (d ∷ ds) m (inr h) =
    pushed (device_mac d) (filter_map ds) m (Plugged-contains ds m h)

contains-Plugged :
    (ds : List UsbDevice) (m : Mac) → contains (filter_map ds) m ≡ true → Plugged ds m
unfolding filter_map Plugged
contains-Plugged [] m h = cc
contains-Plugged (d ∷ ds) m h = elim (found (device_mac d) (filter_map ds) m h) [
  | inl e ↦ inl (device_mac_sound d m e)
  | inr e ↦ inr (contains-Plugged ds m e)
]

-- A MAC is among those of this computer's USB just when an Espressif device there has it for its
-- serial number, however the list was sorted and freed of duplicates.
pub usb_macs-Plugged_iff :
    (ds : List UsbDevice) (m : Mac) → (contains (usb_macs ds) m ≡ true) ↔ Plugged ds m
usb_macs-Plugged_iff ds m = (
  λ h. contains-Plugged ds m (sym (contains-usb_macs ds m) ∙ h),
  λ h. contains-usb_macs ds m ∙ Plugged-contains ds m h,
)
