-- ===== src/Agent/Locate/Chosen.antt =====
-- Which board is found: `find` of locate.rs.
use hid_fi.Common.{◌≡◌, ◌⊎◌, true, Option, List, [], ◌∷◌, any, All}
use hid_fi.Common.Text.{Text, eq}
use hid_fi.Core.Discovery.{Mac, UsbDevice, NetBoard, Selection, not_plugged_in}
use hid_fi.Core.Discovery.Select.{Justified}
use hid_fi.Agent.Env.{World}
use hid_fi.Agent.Locate.{
  StatusReply, Probe, found, missed, Found, keep, mac_in, url_in, candidates, probe_why,
}

-- A board is among the answers.
pub Among : NetBoard → List Probe → Type 0
Among b [] = ⊥
Among b (p ∷ ps) = (p ≡ found b) ⊎ Among b ps

-- An answer is in a list of boards: the list has a board of its MAC, where it is one.
abbrev pub Listed : List NetBoard → Probe → Type 0
Listed net (missed why) = Unit
Listed net (found b) = any (λ s. eq s.mac b.mac) net ≡ true

keep_all : List Probe → List NetBoard → List NetBoard
keep_all [] seen = seen
keep_all (p ∷ ps) seen = keep_all ps (keep p seen)

module _ (w : World) (decode : Text → Option StatusReply) where
  -- The addresses are asked one after the other, from one state to another, with these answers.
  pub Asked : List Text → w.W → List Probe → w.W → Type 0
  Asked [] s [] s' = s ≡ s'
  Asked (u ∷ us) s (p ∷ ps) s' = (s1 : w.W) × (probe_why w decode u s ≡ (p, s1)) × Asked us s1 ps s'
  Asked us s ps s' = ⊥

  -- The answers that a search has had, and the boards that stand for them.
  pub record Searched (urls : List Text) (s s' : w.W) (devices : List UsbDevice)
      (remembered : Option Mac) (x : Selection) : Type 0 where
    pub answers : List Probe
    pub asked : Asked urls s answers s'
    pub net : List NetBoard
    pub no_other : All (λ b. Among b answers) net
    pub all_of_them : All (Listed net) answers
    pub justified : Justified devices net remembered x

  -- With no board on the USB nothing is asked.
  abbrev pub Outcome :
      List UsbDevice → List Text → Option (Mac × Text) → List Mac → w.W → Found × w.W → Type 0
  Outcome devices browsed remembered [] s (f, s') = (f.selection ≡ not_plugged_in 0) × (s' ≡ s)
  Outcome devices browsed remembered (m ∷ ms) s (f, s') =
      Searched (candidates (m ∷ ms) (url_in remembered) browsed) s s' devices (mac_in remembered)
        f.selection
