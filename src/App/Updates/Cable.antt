-- ===== src/App/Updates/Cable.antt =====
-- Which port a cable update goes by: `cable_plan` of updates.rs.
use hid_fi.Common.{
  ◌≡◌, refl, inl, inr, ◌⊎◌, arith, Bool, true, false, not, ◌||◌, ◌&&◌, Option, none, some, ◌>>=◌,
  List, [], ◌∷◌, if◌then◌else◌, Bool-cases,
}
use hid_fi.Common.Text.{Text, codes, eq, is_some_text}
use hid_fi.App.Updates.{
  Seen, has_engine, CablePlan, native, com_port, plan, ComPort, find_serial, or_this, only_one,
  native_works, by_com, choose_path, path_for, cable_plan,
}

-- A port of the list with this path and serial number.
pub Known : List ComPort → Text → Text → Type 0
Known [] k p = ⊥
Known (c ∷ cs) k p = ((c.path ≡ p) × (is_some_text c.serial k ≡ true)) ⊎ Known cs k p

-- No port has the serial number that is known to be the board's.
abbrev pub NotSeen : List ComPort → Option Text → Type 0
NotSeen ports none = Unit
NotSeen ports (some k) = (p : Text) → ¬ Known ports k p

-- The port of a plan: the one known to be the board's or, where none is, the only one there is.
pub Ours : List ComPort → Option Text → Text → Type 0
Ours ports known p =
    ((k : Text) × (known ≡ some k) × Known ports k p)
    ⊎ ((c : ComPort) × (ports ≡ c ∷ []) × (c.path ≡ p) × NotSeen ports known)

abbrev Rescued : List ComPort → Option Text → Option Text → Type 0
Rescued ports known none = Unit
Rescued ports known (some p) = Ours ports known p

-- What a plan needs: such a port, or a board that answers, with the update engine, and is paired; then
-- the port to rescue it by is such a port too.
unfoldable pub Sound : Option Seen → Bool → List ComPort → Option Text → CablePlan → Type 0
Sound seen paired ports known (com_port p) = Ours ports known p
Sound seen paired ports known (native rescue) =
    ((s : Seen) × (seen ≡ some s) × (paired ≡ true) × (has_engine s ≡ true))
    × Rescued ports known rescue

find_serial-Known :
    (k : Text) (cs : List ComPort) (p : Text) → find_serial k cs ≡ some p → Known cs k p
unfolding find_serial Known
find_serial-Known k [] p h = cc
find_serial-Known k (c ∷ cs) p h = elim (Bool-cases (is_some_text c.serial k)) [
  | inl e ↦ inl (cc (rw e at h), e)
  | inr e ↦ inr (find_serial-Known k cs p (rw e at h))
]

find_serial-NotSeen :
    (k : Text) (cs : List ComPort) → find_serial k cs ≡ none → (p : Text) → ¬ Known cs k p
unfolding find_serial Known
find_serial-NotSeen k [] h p n = n
find_serial-NotSeen k (c ∷ cs) h p n = elim (Bool-cases (is_some_text c.serial k)) [
  | inl e ↦ cc (rw e at h)
  | inr e ↦ elim n [ inl (_, e') ↦ cc | inr m ↦ find_serial-NotSeen k cs (rw e at h) p m ]
]

-- A board that answers is not proving a firmware, and no update over the air runs on it.
unfoldable pub Still : Option Seen → Type 0
Still none = Unit
Still (some s) =
    (is_some_text s.state (codes "pending_verify") ≡ false)
    × ((eq s.step (codes "idle") || eq s.step (codes "ready")) ≡ true)

abbrev Mine : List ComPort → Option Text → Option Text → Type 0
Mine ports known o = (p : Text) → o ≡ some p → Ours ports known p

known-Mine :
    (ports : List ComPort) (known : Option Text)
    → Mine ports known (known >>= λ k. find_serial k ports)
unfolding Ours
known-Mine ports none p h = cc
known-Mine ports (some k) p h = inl (k, refl, find_serial-Known k ports p h)

known-NotSeen :
    (ports : List ComPort) (known : Option Text)
    → (known >>= λ k. find_serial k ports) ≡ none
    → NotSeen ports known
known-NotSeen ports none h = tt
known-NotSeen ports (some k) h = find_serial-NotSeen k ports h

only_one-Mine :
    (ports : List ComPort) (known : Option Text)
    → NotSeen ports known
    → Mine ports known (only_one ports)
unfolding Ours
only_one-Mine [] known n p h = cc
only_one-Mine (c ∷ []) known n p h = let is : c.path ≡ p = cc in inr (c, refl, is, n)
only_one-Mine (c ∷ d ∷ cs) known n p h = cc

or_this-Mine :
    (ports : List ComPort) (known a b : Option Text)
    → Mine ports known a
    → Mine ports known b
    → Mine ports known (or_this a b)
or_this-Mine ports known none b ha hb = hb
or_this-Mine ports known (some q) b ha hb = ha

by_port :
    (seen : Option Seen) (paired : Bool) (ports : List ComPort) (known : Option Text) (q : Text)
    → Ours ports known q
    → Sound seen paired ports known (com_port q)
unfolding Sound
by_port seen paired ports known q h = h

by_com-Sound :
    (seen : Option Seen) (paired : Bool) (ports : List ComPort) (known o : Option Text)
    (p : CablePlan)
    → Mine ports known o
    → by_com o ports ≡ plan p
    → Sound seen paired ports known p
by_com-Sound seen paired ports known (some q) p m h =
    let e : com_port q ≡ p = cc in rw e at (by_port seen paired ports known q (m q refl))
by_com-Sound seen paired [] known none p m h = cc
by_com-Sound seen paired (c ∷ cs) known none p m h = cc

native_works-Sound :
    (seen : Option Seen) (paired : Bool) (ports : List ComPort) (known rescue : Option Text)
    → Mine ports known rescue
    → native_works seen paired ≡ true
    → Sound seen paired ports known (native rescue)
unfolding Sound
native_works-Sound none paired ports known rescue m h = cc
native_works-Sound (some s) true ports known none m h = ((s, refl, refl, h), tt)
native_works-Sound (some s) true ports known (some q) m h = ((s, refl, refl, h), m q refl)
native_works-Sound (some s) false ports known rescue m h = cc

native_or_com-Sound :
    (seen : Option Seen) (paired : Bool) (ports : List ComPort) (known o : Option Text)
    (p : CablePlan)
    → Mine ports known o
    → (if native_works seen paired then plan (native o) else by_com o ports) ≡ plan p
    → Sound seen paired ports known p
native_or_com-Sound seen paired ports known o p m h = elim (Bool-cases (native_works seen paired)) [
  | inl e ↦
      let q : native o ≡ p = cc (rw e at h) in
      rw q at (native_works-Sound seen paired ports known o m e)
  | inr e ↦ by_com-Sound seen paired ports known o p m (rw e at h)
]

choose_path-Sound :
    (seen : Option Seen) (paired : Bool) (ports : List ComPort) (known mine only : Option Text)
    (prefer_native : Bool) (p : CablePlan)
    → Mine ports known mine
    → (mine ≡ none → Mine ports known only)
    → choose_path mine only (native_works seen paired) prefer_native ports ≡ plan p
    → Sound seen paired ports known p
choose_path-Sound seen paired ports known (some q) only false p m o h =
    by_com-Sound seen paired ports known (some q) p m h
choose_path-Sound seen paired ports known (some q) only true p m o h =
    native_or_com-Sound seen paired ports known (some q) p m h
choose_path-Sound seen paired ports known none only true p m o h =
    native_or_com-Sound seen paired ports known only p (o refl) h
choose_path-Sound seen paired ports known none only false p m o h =
    native_or_com-Sound seen paired ports known only p (o refl) h

not_busy : (x y : Bool) → (not x && not y) ≡ false → (x || y) ≡ true
not_busy x y h = ground arith

path_for-Sound :
    (seen : Option Seen) (paired : Bool) (ports : List ComPort) (known : Option Text)
    (prefer_native : Bool) (p : CablePlan)
    → path_for seen paired ports known prefer_native ≡ plan p
    → Sound seen paired ports known p
unfolding path_for
path_for-Sound seen paired ports known prefer_native p h =
    choose_path-Sound seen paired ports known _ _ prefer_native p (known-Mine ports known)
      (λ e. only_one-Mine ports known (known-NotSeen ports known e)) h

-- Where a cable update is planned, its port is the one known to be this board's or, if none is, the
-- only one there is; or it goes by the USB of a board that answers, is paired and has the update
-- engine, and then the port to rescue it by, if any, is such a port too. No plan is made for a board
-- that answers and is proving a firmware or being updated over the air.
pub cable_plan-Sound :
    (seen : Option Seen) (paired : Bool) (ports : List ComPort) (known : Option Text)
    (prefer_native : Bool) (p : CablePlan)
    → cable_plan seen paired ports known prefer_native ≡ plan p
    → Sound seen paired ports known p × Still seen
unfolding cable_plan Still
cable_plan-Sound none paired ports known prefer_native p h =
    (path_for-Sound none paired ports known prefer_native p h, tt)
cable_plan-Sound (some s) paired ports known prefer_native p h =
    elim (Bool-cases (is_some_text s.state (codes "pending_verify"))) [
      | inl e ↦ cc (rw e at h)
      | inr e ↦
          elim (Bool-cases (not (eq s.step (codes "idle")) && not (eq s.step (codes "ready")))) [
            | inl b ↦ cc (rw (e, b) at h)
            | inr b ↦ (
              path_for-Sound (some s) paired ports known prefer_native p (rw (e, b) at h),
              (e, not_busy _ _ b),
            )
          ]
    ]
