-- ===== src/Sdk/Events/Tests.antt =====
-- Lists of events, and the theorems at concrete ones.
use douyin_live.Prelude.{
  Option, false, ℕ, ◌+◌, ◌-◌, ◌*◌, ◌/◌, ◌≤◌, ◌≡◌, refl, List, [], ◌∷◌, some, ◌==◌, length, arith,
}
use douyin_live.Sdk.Events.{
  speed, Event, Arithmetic, last_of, same_place, is_refused, add_event, add_events, speeds,
  sum_from, sum, mean, squares, deviation, statistics,
}
use douyin_live.Sdk.Events.Rising.{IsRising, add_events-IsRising, statistics_total}

abbrev at : ℕ → ℕ → Event ℕ
at x d = record { x = x; y = some 5; d = d }

-- The second event stands where the first does, and the third comes with the time of the first.
abbrev moves : List (Event ℕ)
moves = at 1 10 ∷ at 1 20 ∷ at 2 10 ∷ at 3 30 ∷ at 7 40 ∷ []

moves_kept : add_events ◌==◌ [] moves ≡ at 1 10 ∷ at 3 30 ∷ at 7 40 ∷ []
unfolding add_events add_event last_of is_refused same_place
moves_kept = refl

abbrev naturals : Arithmetic ℕ
naturals = record {
  nought = 0;
  one = 1;
  hundredth = 1;
  is_nought = λ n. n == 0;
  plus = ◌+◌;
  minus = ◌-◌;
  times = ◌*◌;
  per = ◌/◌;
  over = λ n later earlier. n * 100 / (later - earlier);
  root = λ n. n;
}

abbrev coordinates_apart : Option ℕ → Option ℕ → ℕ
coordinates_apart (some a) (some b) = a - b
coordinates_apart _ _ = 0

statistics_moves :
    statistics naturals coordinates_apart (add_events ◌==◌ [] moves) 1 false ≡ some (90, 4900)
unfolding statistics speed speeds sum_from sum mean squares deviation add_events add_event last_of
    is_refused same_place
statistics_moves = refl

add_events-IsRising_example :
    IsRising ◌==◌ (add_events ◌==◌ [] moves) × (length (add_events ◌==◌ [] moves) ≤ 201)
add_events-IsRising_example = add_events-IsRising ◌==◌ moves

statistics_total_example :
    (r : ℕ × ℕ) × (statistics naturals coordinates_apart (add_events ◌==◌ [] moves) 1 false
      ≡ some r)
statistics_total_example =
    statistics_total ◌==◌ naturals coordinates_apart moves 1 false (omega arith)
