-- ===== src/Sdk/Events/Tracking/Tests.antt =====
-- Runs of the handlers, with numbers for coordinates.
use douyin_live.Prelude.{ℕ, ◌≡◌, refl, Bool, true, false, List, [], ◌∷◌, ◌++◌, ◌==◌, none, arith}
use douyin_live.Sdk.Events.Tracking.{
  Page, Pointer, PageEvent, pointer_moves, pointer_down, key_down, visibility_changes, hidden,
  ticks, place_of, on_unload, handle_all,
}
use douyin_live.Sdk.Events.Tracking.Kept.{
  taken_clicks, all_clicks, handle_all-all_clicks, on_unload-taken,
}
use douyin_live.Sdk.Events.Tracking.Sent.{sent_clicks}
use douyin_live.Sdk.Events.Tracking.Bounds.{IsTracked, handle_all-IsTracked}

abbrev page : Page ℕ
page = record {
  moves = [];
  presses = [];
  keys = [];
  is_touch = false;
  move_list = [];
  click_list = [];
  keyboard_list = [];
  active_state = [];
  enable_track = true;
  trigger_unload = false;
  unit_time = 300;
  unit_amount = 2;
  has_report_url = true;
  s_tm = 0;
  acc = 0;
  taken = [];
}

abbrev same : ℕ → ℕ → Bool
same a b = a == b

abbrev at : ℕ → ℕ → Pointer ℕ
at x y = record {
  client = (x, y);
  changed_touches = false;
  is_touch_type = false;
  first_touch = none;
}

abbrev events : List (ℕ × PageEvent ℕ)
events =
    (1000, pointer_moves (at 1 1))
    ∷ (1100, pointer_moves (at 2 2))
    ∷ (1500, pointer_moves (at 3 3))
    ∷ (1600, pointer_down (at 3 3))
    ∷ (1700, key_down true)
    ∷ (1800, visibility_changes hidden)
    ∷ []

-- The second movement is too early.
moved :
    (handle_all same (λ x. x) (λ n. n) events page).move_list
    ≡ (record { ts = 1000; x = 1; y = 1 }) ∷ (record { ts = 1500; x = 3; y = 3 }) ∷ []
unfolding handle_all
moved = refl

handle_all-all_clicks_run :
    all_clicks (handle_all same (λ x. x) (λ n. n) events page)
    ≡ (record { ts = 1600; x = 3; y = 3 }) ∷ []
unfolding place_of
handle_all-all_clicks_run = handle_all-all_clicks same (λ x. x) (λ n. n) events page refl

on_unload-taken_run :
    taken_clicks (on_unload 2000 (handle_all same (λ x. x) (λ n. n) events page)).taken
    ≡ (record { ts = 1600; x = 3; y = 3 }) ∷ []
unfolding place_of handle_all
on_unload-taken_run = on_unload-taken same (λ x. x) (λ n. n) events 2000 page refl refl

abbrev ticking : List (ℕ × PageEvent ℕ)
ticking = events ++ (1900, ticks) ∷ (1950, pointer_down (at 4 4)) ∷ []

-- With the account used up, the last report is discarded; after the unit of time it is sent.
abbrev used_up : Page ℕ
used_up = record page { acc = 2048 }

discarded :
    (sent_clicks (on_unload 2000 (handle_all same (λ x. x) (λ n. n) events used_up)).taken ≡ [])
    × (sent_clicks (on_unload 300000 (handle_all same (λ x. x) (λ n. n) events used_up)).taken
        ≡ (record { ts = 1600; x = 3; y = 3 }) ∷ [])
unfolding on_unload handle_all
discarded = (refl, refl)

handle_all-IsTracked_example :
    IsTracked same (λ x. x) (λ n. n) (handle_all same (λ x. x) (λ n. n) events page)
handle_all-IsTracked_example =
    handle_all-IsTracked same (λ x. x) (λ n. n) events page
      (omega arith, tt, omega arith, omega arith)
