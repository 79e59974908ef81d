-- ===== src/Sdk/Browser/Devices/Tests.antt =====
-- Runs of the reports on devices.
use douyin_live.Prelude.{ℕ, ◌+◌, ◌≡◌, refl, true, false, [], none, some, if◌then◌else◌, ltb, length}
use douyin_live.Prelude.Int.{ℤ, pos, negsuc}
use douyin_live.Sdk.Text.{codes, same_text}
use douyin_live.Sdk.Browser.Report.{find_value}
use douyin_live.Sdk.Browser.Devices.{Screen, touch_report, time_zone, screen_report}

touch_run : (touch_report (some (codes "5")) true false).1 ≡ codes "5_true_false"
unfolding touch_report
touch_run = refl

-- Central Europe: 60 minutes before UTC in the winter, 120 in the summer.
abbrev europe : ℕ → ℤ
europe month = if ltb month 10 then negsuc 119 else negsuc 59

time_zone_run : time_zone europe ≡ pos 60
unfolding time_zone
time_zone_run = refl

abbrev small_screen : Screen ℕ
small_screen = record {
  of_window = λ name. some (length name);
  of_screen = λ name. some (100 + length name);
  of_body = some none;
  unsigned = λ n. n;
  floor = λ n. n + 1;
  minus_one = 0;
}

screen_height_run : find_value (codes "sizeHeight") (screen_report small_screen) ≡ some 106
unfolding screen_report find_value same_text
screen_height_run = refl

screen_place_run : find_value (codes "screenX") (screen_report small_screen) ≡ some 8
unfolding screen_report find_value same_text
screen_place_run = refl

screen_fields_run : length (screen_report small_screen) ≡ 16
unfolding screen_report
screen_fields_run = refl

-- A screen that cannot be read gives an empty report.
screen_fault_run : screen_report (record small_screen { of_screen = λ name. none }) ≡ []
unfolding screen_report
screen_fault_run = refl
