-- ===== src/App/Health.antt =====
-- How a board answers, as the window shows it: the samples of
-- companion/crates/hidfi-companion/src/health.rs. Milliseconds are 32-bit numbers.
pub mod Kept
pub mod Boards
mod Tests
use hid_fi.Common.{
  ℕ, ◌+◌, ◌-◌, ◌/◌, ◌^◌, min, Bool, true, false, Option, none, some, ◌>>=◌, List, [], ◌∷◌, ◌++◌,
  ◌==◌, leb, if◌then◌else◌, length, get_elem?, drop,
}

abbrev pub keep : ℕ
keep = 5

abbrev pub fails_offline : ℕ
fails_offline = 2

pub record Link : Type 0 where
  pub ms : Option ℕ
  pub answer_ms : Option ℕ
  pub last_ms : Option ℕ
  pub spread_ms : Option ℕ
  pub last_ok : Option ℕ
  pub failing : ℕ

unfoldable pub not_answering : Link → Bool
not_answering l = leb fails_offline l.failing

pub record Samples : Type 0 where
  pub ms : List ℕ
  pub answer : Option ℕ
  pub last_ok : Option ℕ
  pub failing : ℕ

abbrev pub no_samples : Samples
no_samples = record { ms = []; answer = none; last_ok = none; failing = 0 }

abbrev pub pushed : ℕ → List ℕ → List ℕ
pushed x ms = (if length ms == keep then drop 1 ms else ms) ++ x ∷ []

-- `Samples::ok`.
unfoldable pub answered : ℕ → ℕ → ℕ → Samples → Samples
answered ms answer at_time s = record {
  ms = pushed ms s.ms;
  answer = some answer;
  last_ok = some at_time;
  failing = 0;
}

-- `Samples::fail`, with `saturating_add`.
unfoldable pub unanswered : Samples → Samples
unanswered s = record s { failing = min (s.failing + 1) (2 ^ 32 - 1) }

unfoldable pub insert : ℕ → List ℕ → List ℕ
insert x [] = x ∷ []
insert x (y ∷ ys) = let rest = insert x ys in if leb x y then x ∷ y ∷ ys else y ∷ rest

unfoldable pub sort : List ℕ → List ℕ
unfolding insert
sort [] = []
sort (x ∷ xs) = insert x (sort xs)

abbrev pub first : List ℕ → Option ℕ
first [] = none
first (x ∷ xs) = some x

abbrev pub last : List ℕ → Option ℕ
last xs = get_elem? xs (length xs - 1)

abbrev pub spread : List ℕ → Option ℕ
spread s = do a ← last s; b ← first s; some (a - b)

unfoldable pub link : Samples → Link
unfolding sort
link s =
    let sorted = sort s.ms in
    record {
      ms = get_elem? sorted (length sorted / 2);
      answer_ms = s.answer;
      last_ms = last s.ms;
      spread_ms = spread sorted;
      last_ok = s.last_ok;
      failing = s.failing;
    }
