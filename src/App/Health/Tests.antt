-- ===== src/App/Health/Tests.antt =====
-- A run of the samples, and the theorem at it.
use hid_fi.Common.{◌≡◌, refl, ◌-◌, ◌^◌, min, true, some, List, [], ◌∷◌}
use hid_fi.App.Health.{keep, Samples, no_samples, link, not_answering, sort, insert}
use hid_fi.Common.Text.{codes}
use hid_fi.Common.{ℕ, arith, ap, get_or, ◌≢◌}
use hid_fi.App.Health.Boards.{Entries}
use hid_fi.App.Health.Kept.{
  Probed, answer, silence, record_all, trips, silent, last_of, record_all-last_of,
}

-- Five answers, and two probes without one.
abbrev seen : Samples
seen = record { ms = 9 ∷ 4 ∷ 30 ∷ 5 ∷ 6 ∷ []; answer = some 40; last_ok = some 100; failing = 2 }

shown :
    ((link seen).ms ≡ some 6)
    × ((link seen).spread_ms ≡ some 26)
    × (not_answering (link seen) ≡ true)
unfolding link sort insert not_answering
shown = (refl, refl, refl)

abbrev probes : List Probed
probes =
    answer 1 2 10
    ∷ answer 2 2 20
    ∷ silence
    ∷ answer 3 4 30
    ∷ answer 4 4 40
    ∷ answer 5 6 50
    ∷ answer 6 6 60
    ∷ silence
    ∷ []

record_all-last_of_example :
    ((record_all no_samples probes).ms ≡ last_of keep (trips probes))
    × ((record_all no_samples probes).failing ≡ min (silent 0 probes) (2 ^ 32 - 1))
record_all-last_of_example = record_all-last_of probes

abbrev entries : Entries
entries = (codes "A", seen) ∷ (codes "B", no_samples) ∷ []

other_board : codes "A" ≢ codes "B"
other_board e = omega (arith, ap (λ (t : List ℕ). get_or t 0 0) e)
