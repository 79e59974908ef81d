-- ===== src/Sdk/Events/Tracking/Bounds.antt =====
-- What the tracked lists keep: their lengths are bounded, and movements are apart.
use douyin_live.Prelude.{
  ℕ, ◌+◌, ◌<◌, ◌≤◌, ◌≡◌, refl, sym, ◌∙◌, ap, Bool, true, false, ◌&&◌, List, [], ◌∷◌, ◌++◌, Option,
  none, some, ltb, leb, if◌then◌else◌, length, length-append, arith,
}
use douyin_live.Sdk.Events.{last_of}
use douyin_live.Sdk.Events.Rising.{last_of-cons}
use douyin_live.Sdk.Events.Tracking.Kept.{report_empties}
use douyin_live.Sdk.Events.Tracking.{
  Point, Page, Pointer, PageEvent, pointer_moves, pointer_down, key_down, visibility_changes,
  unloads, ticks, report, report_if, track_click, track_key, is_skipped, track_move, place_of,
  mark_touch, on_move, on_press, on_key, on_visibility, on_unload, handle, handle_all, move_to,
  press_at, point_at, event_at, note_move, note_press, note_key,
}

module _ {C : Type 0} (same : C → C → Bool) (floor : C → C) (number : ℕ → C) where
  -- Half a second or more between movements, and another place.
  abbrev pub IsSpaced : List (Point C) → Type 0
  IsSpaced [] = Unit
  IsSpaced (a ∷ []) = Unit
  IsSpaced (a ∷ b ∷ list) =
      (a.ts + 500 ≤ b.ts) × ((same a.x b.x && same a.y b.y) ≡ false) × IsSpaced (b ∷ list)

  abbrev pub IsTracked : Page C → Type 0
  IsTracked page =
      (length page.move_list ≤ 500)
      × IsSpaced page.move_list
      × (length page.click_list ≤ 500)
      × (length page.keyboard_list ≤ 501)

  accepted :
      (a point : Point C)
      → is_skipped same floor number (some a) point ≡ false
      → (a.ts + 500 ≤ point.ts) × ((same a.x point.x && same a.y point.y) ≡ false)
  unfolding is_skipped
  accepted a point h = (ground arith, ground arith)

  IsSpaced-append :
      (list : List (Point C)) (point : Point C)
      → IsSpaced list
      → is_skipped same floor number (last_of list) point ≡ false
      → IsSpaced (list ++ point ∷ [])
  unfolding last_of
  IsSpaced-append [] point h fits = tt
  IsSpaced-append (a ∷ []) point h fits =
      let (later, moved) = accepted a point fits in (later, moved, tt)
  IsSpaced-append (a ∷ b ∷ list) point (later, moved, h) fits = (
    later,
    moved,
    IsSpaced-append (b ∷ list) point h
        (ap (λ l. is_skipped same floor number l point) (sym (last_of-cons a b list)) ∙ fits),
  )

  report-IsTracked : (now : ℕ) (page : Page C) → IsTracked (report now page)
  report-IsTracked now page =
      let (moves, clicks, keys) = report_empties now page in
      rw (moves, clicks, keys) (omega arith, tt, omega arith, omega arith)

  report_if-IsTracked :
      (full : Bool) (now : ℕ) (page : Page C) → IsTracked page → IsTracked (report_if full now page)
  unfolding report_if
  report_if-IsTracked true now page h = report-IsTracked now page
  report_if-IsTracked false now page h = h

  IsTracked-if :
      (test : Bool) (p q : Page C) → IsTracked p → IsTracked q → IsTracked (if test then p else q)
  IsTracked-if true p q h k = h
  IsTracked-if false p q h k = k

  key_room :
      (full : Bool) (now : ℕ) (page : Page C)
      → ltb 500 (length page.keyboard_list) ≡ full
      → length (report_if full now page).keyboard_list ≤ 500
  unfolding report_if
  key_room true now page e = rw (report_empties now page).2 (omega arith)
  key_room false now page e = ground arith

  click_room :
      (full : Bool) (now : ℕ) (page : Page C)
      → leb 500 (length page.click_list) ≡ full
      → length (report_if full now page).click_list < 500
  unfolding report_if
  click_room true now page e = rw (report_empties now page).1 (omega arith)
  click_room false now page e = ground arith

  move_room :
      (full : Bool) (now : ℕ) (page : Page C)
      → leb 500 (length page.move_list) ≡ full
      → length (report_if full now page).move_list < 500
  unfolding report_if
  move_room true now page e = rw (report_empties now page).0 (omega arith)
  move_room false now page e = ground arith

  track_key-IsTracked : (ts : ℕ) (page : Page C) → IsTracked page → IsTracked (track_key ts page)
  unfolding track_key
  track_key-IsTracked ts page h =
      let full = ltb 500 (length page.keyboard_list) in
      let p = report_if full ts page in
      let (moves, spaced, clicks, keys) = report_if-IsTracked full ts page h in
      let room = key_room full ts page refl in
      IsTracked-if page.enable_track (record p { keyboard_list = p.keyboard_list ++ ts ∷ [] }) page
        (moves, spaced, clicks, omega (arith, room, length-append p.keyboard_list (ts ∷ []))) h

  track_click-IsTracked :
      (point : Point C) (page : Page C) → IsTracked page → IsTracked (track_click point page)
  unfolding track_click
  track_click-IsTracked point page h =
      let full = leb 500 (length page.click_list) in
      let p = report_if full point.ts page in
      let (moves, spaced, clicks, keys) = report_if-IsTracked full point.ts page h in
      let room = click_room full point.ts page refl in
      IsTracked-if page.enable_track (record p { click_list = p.click_list ++ point ∷ [] }) page
        (moves, spaced, omega (arith, room, length-append p.click_list (point ∷ [])), keys) h

  add_move-IsTracked :
      (skipped : Bool) (point : Point C) (p : Page C)
      → is_skipped same floor number (last_of p.move_list) point ≡ skipped
      → length p.move_list < 500
      → IsTracked p
      → IsTracked (if skipped then p else record p { move_list = p.move_list ++ point ∷ [] })
  add_move-IsTracked true point p e room h = h
  add_move-IsTracked false point p e room (moves, spaced, clicks, keys) = (
    omega (arith, room, length-append p.move_list (point ∷ [])),
    IsSpaced-append p.move_list point spaced e,
    clicks,
    keys,
  )

  track_move-IsTracked :
      (point : Point C) (page : Page C)
      → IsTracked page
      → IsTracked (track_move same floor number point page)
  unfolding track_move
  track_move-IsTracked point page h =
      let full = leb 500 (length page.move_list) in
      let p = report_if full point.ts page in
      IsTracked-if page.enable_track _ page
        (add_move-IsTracked (is_skipped same floor number (last_of p.move_list) point) point p refl
          (move_room full point.ts page refl) (report_if-IsTracked full point.ts page h))
        h

  mark_touch-IsTracked :
      (pointer : Pointer C) (page : Page C) → IsTracked page → IsTracked (mark_touch pointer page)
  unfolding mark_touch
  mark_touch-IsTracked pointer page h = IsTracked-if _ (record page { is_touch = true }) page h h

  move_to-IsTracked :
      (now : ℕ) (place : Option (C × C)) (page : Page C)
      → IsTracked page
      → IsTracked (move_to same floor number now place page)
  unfolding move_to note_move
  move_to-IsTracked now none page h = h
  move_to-IsTracked now (some (x, y)) page h =
      track_move-IsTracked (point_at same floor number now x y)
        (note_move same floor number (event_at same floor number now x y) page) h

  press_at-IsTracked :
      (now : ℕ) (place : Option (C × C)) (page : Page C)
      → IsTracked page
      → IsTracked (press_at same floor number now place page)
  unfolding press_at note_press
  press_at-IsTracked now none page h = h
  press_at-IsTracked now (some (x, y)) page h =
      track_click-IsTracked (point_at same floor number now x y)
        (note_press same floor number (event_at same floor number now x y) page) h

  on_unload-IsTracked : (now : ℕ) (page : Page C) → IsTracked page → IsTracked (on_unload now page)
  unfolding on_unload
  on_unload-IsTracked now page h = IsTracked-if page.trigger_unload page _ h (
      IsTracked-if page.enable_track _ _
        (report-IsTracked now (record page { trigger_unload = true })) h)

  handle-IsTracked :
      (event : ℕ × PageEvent C) (page : Page C)
      → IsTracked page
      → IsTracked (handle same floor number event page)
  unfolding handle on_move on_press on_key note_key on_visibility
  handle-IsTracked (now, pointer_moves pointer) page h =
      move_to-IsTracked now (place_of pointer) (mark_touch pointer page)
        (mark_touch-IsTracked pointer page h)
  handle-IsTracked (now, pointer_down pointer) page h =
      press_at-IsTracked now (place_of pointer) (mark_touch pointer page)
        (mark_touch-IsTracked pointer page h)
  handle-IsTracked (now, key_down held) page h =
      track_key-IsTracked now
        (note_key same floor number
          (record { x = number (if held then 1 else 0); y = none; d = now }) page)
        h
  handle-IsTracked (now, visibility_changes v) page h = h
  handle-IsTracked (now, unloads) page h = on_unload-IsTracked now page h
  handle-IsTracked (now, ticks) page h = report-IsTracked now page

  -- Whatever events come: the lists keep at most 500 movements, 500 clicks and 501 keys, and each
  -- movement in the list is half a second or more after the one before it and at another place.
  pub handle_all-IsTracked :
      (events : List (ℕ × PageEvent C)) (page : Page C)
      → IsTracked page
      → IsTracked (handle_all same floor number events page)
  unfolding handle_all
  handle_all-IsTracked [] page h = h
  handle_all-IsTracked (event ∷ events) page h =
      handle_all-IsTracked events (handle same floor number event page)
        (handle-IsTracked event page h)
