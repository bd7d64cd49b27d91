-- ===== src/Agent/Locate/Split.antt =====
-- What is found of the boards on this computer's USB: `find_all` of locate.rs.
use hid_fi.Common.{
  ◌≡◌, refl, sym, ap, ◌∙◌, ◌↔◌, inl, inr, arith, Bool, true, false, not, ◌&&◌, ◌||◌, Option, List,
  [], ◌∷◌, any, Bool-cases,
}
use hid_fi.Common.Text.{Text, eq, eq_sound}
use hid_fi.Core.Discovery.{Mac, UsbDevice, NetBoard, sort_by_key, usb_macs, contains}
use hid_fi.Core.Discovery.Macs.{Plugged, usb_macs-Plugged_iff, any-sort_by_key}
use hid_fi.Agent.Env.{World}
use hid_fi.Agent.Locate.{
  StatusReply, FoundAll, Why, plugged_here, without_board, sorted_out, find_all_among, find_all,
}

abbrev has : List NetBoard → Mac → Bool
has bs m = any (λ b. eq b.mac m) bs

both : (h c : Bool) → (h && c || (c && not (h && c))) ≡ c
both h c = ground arith

never : (h c : Bool) → (h && c && (c && not (h && c))) ≡ false
never h c = ground arith

and_false : (b : Bool) → (b && false) ≡ false
and_false b = ground arith

has-plugged_here :
    (macs : List Mac) (seen : List NetBoard) (m : Mac)
    → has (plugged_here macs seen) m ≡ (has seen m && contains macs m)
unfolding plugged_here
has-plugged_here macs [] m = refl
has-plugged_here macs (b ∷ bs) m = elim (Bool-cases (eq b.mac m)) [
  | inl e ↦
      let q = eq_sound b.mac m e in
      elim (Bool-cases (contains macs m)) [
        | inl c ↦
            let c2 : contains macs b.mac ≡ true = ap (contains macs) q ∙ c in rw (c2, e, c) refl
        | inr c ↦
            let c2 : contains macs b.mac ≡ false = ap (contains macs) q ∙ c in
            rw (c2, has-plugged_here macs bs m, e, c) (and_false (has bs m))
      ]
  | inr e ↦ elim (Bool-cases (contains macs b.mac)) [
    | inl c ↦ rw (c, e, has-plugged_here macs bs m) refl
    | inr c ↦ rw (c, e, has-plugged_here macs bs m) refl
  ]
]

contains-without_board :
    (here : List NetBoard) (ms : List Mac) (m : Mac)
    → contains (without_board here ms) m ≡ (contains ms m && not (has here m))
unfolding without_board
contains-without_board here [] m = refl
contains-without_board here (x ∷ xs) m = elim (Bool-cases (eq x m)) [
  | inl e ↦
      let q = eq_sound x m e in
      elim (Bool-cases (has here m)) [
        | inl c ↦
            let c2 : has here x ≡ true = ap (has here) q ∙ c in
            rw (c2, contains-without_board here xs m, e, c) (and_false (contains xs m))
        | inr c ↦ let c2 : has here x ≡ false = ap (has here) q ∙ c in rw (c2, e, c) refl
      ]
  | inr e ↦ elim (Bool-cases (has here x)) [
    | inl c ↦ rw (c, e, contains-without_board here xs m) refl
    | inr c ↦ rw (c, e, contains-without_board here xs m) refl
  ]
]

-- Each of the MACs is with a board or offline, and not both.
Shared : List Mac → FoundAll → Mac → Type 0
Shared macs r m =
    ((has r.here m || contains r.offline m) ≡ contains macs m)
    × ((has r.here m && contains r.offline m) ≡ false)

sorted_out-Shared :
    (macs : List Mac) (seen : List NetBoard) (misses : List (Text × Why)) (m : Mac)
    → Shared macs (sorted_out macs seen misses) m
unfolding sorted_out Shared
sorted_out-Shared macs seen misses m =
    let here = sort_by_key (λ (b : NetBoard). b.mac) (plugged_here macs seen) in
    let h : has here m ≡ (has seen m && contains macs m) =
      any-sort_by_key (λ b. eq b.mac m) (λ b. b.mac) (plugged_here macs seen)
      ∙ has-plugged_here macs seen m in
    let o = contains-without_board here macs m in
    (
      rw (o, h) (both (has seen m) (contains macs m)),
      rw (o, h) (never (has seen m) (contains macs m)),
    )

module _ (w : World) (decode : Text → Option StatusReply) (browsed : List Text)
    (remembered : List (Mac × Text)) (s : w.W) where
  among-Shared :
      (macs : List Mac) (m : Mac)
      → Shared macs (find_all_among w decode browsed remembered macs s).0 m
  unfolding Shared
  among-Shared [] m = (refl, refl)
  among-Shared (x ∷ xs) m = sorted_out-Shared (x ∷ xs) _ _ m

-- A MAC is on this computer's USB just when it is listed as a board that is here or as one that is
-- offline, whatever answered, and never in both lists.
pub find_all-Plugged :
    (w : World) (decode : Text → Option StatusReply) (devices : List UsbDevice)
    (browsed : List Text) (remembered : List (Mac × Text)) (s : w.W) (m : Mac)
    → (((any (λ b. eq b.mac m) (find_all w decode devices browsed remembered s).0.here
            || contains (find_all w decode devices browsed remembered s).0.offline m)
          ≡ true)
        ↔ Plugged devices m)
      × ((any (λ b. eq b.mac m) (find_all w decode devices browsed remembered s).0.here
            && contains (find_all w decode devices browsed remembered s).0.offline m)
          ≡ false)
unfolding find_all Shared
find_all-Plugged w decode devices browsed remembered s m =
    let (e, n) = among-Shared w decode browsed remembered s (usb_macs devices) m in
    let (f, g) = usb_macs-Plugged_iff devices m in ((λ h. f (sym e ∙ h), λ h. e ∙ g h), n)
