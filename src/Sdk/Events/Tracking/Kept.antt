-- ===== src/Sdk/Events/Tracking/Kept.antt =====
-- No click is lost before a report takes it out of the list.
use douyin_live.Prelude.{
  ℕ, ◌≡◌, refl, sym, ◌∙◌, ap, Bool, true, false, List, [], ◌∷◌, ◌++◌, append_assoc, append-nil,
  Option, none, some, ltb, leb, if◌then◌else◌, length, arith, ◌+◌, ◌*◌, inl, inr, Bool-cases,
}
use douyin_live.Sdk.Events.{last_of}
use douyin_live.Sdk.Events.Tracking.{
  Point, Batch, Page, Pointer, report_if, move_to, press_at, point_at, event_at, note_move,
  note_press, note_key, PageEvent, pointer_moves, pointer_down, key_down, visibility_changes,
  unloads, ticks, has_news, amount, book, take_out, report, track_click, track_key, is_skipped,
  track_move, place_of, mark_touch, on_move, on_press, on_key, on_visibility, on_unload, handle,
  handle_all,
}

module _ {C : Type 0} where
  abbrev pub taken_clicks : List (Batch C) → List (Point C)
  taken_clicks [] = []
  taken_clicks (b ∷ batches) = b.clicks ++ taken_clicks batches

  -- The clicks that were taken out, then those that wait.
  abbrev pub all_clicks : Page C → List (Point C)
  all_clicks page = taken_clicks page.taken ++ page.click_list

  pub taken_clicks-append :
      (batches more : List (Batch C))
      → taken_clicks (batches ++ more) ≡ taken_clicks batches ++ taken_clicks more
  taken_clicks-append [] more = refl
  taken_clicks-append (b ∷ batches) more =
      ap (λ l. b.clicks ++ l) (taken_clicks-append batches more)
      ∙ sym (append_assoc b.clicks (taken_clicks batches) (taken_clicks more))

  all_clicks-take_out :
      (sent : Bool) (page : Page C) → all_clicks (take_out sent page) ≡ all_clicks page
  unfolding take_out
  all_clicks-take_out sent page =
      append-nil (taken_clicks (take_out sent page).taken)
      ∙ taken_clicks-append page.taken _
      ∙ ap (λ l. taken_clicks page.taken ++ l) (append-nil page.click_list)

  -- The clicks are those of the page, and the switch is as it was.
  Keeps : Page C → Page C → Type 0
  Keeps page after = (all_clicks after ≡ all_clicks page) × (after.enable_track ≡ page.enable_track)

  Keeps-trans : (a b c : Page C) → Keeps a b → Keeps b c → Keeps a c
  unfolding Keeps
  Keeps-trans a b c (clicks, on) (clicks', on') = (clicks' ∙ clicks, on' ∙ on)

  Keeps-if :
      (test : Bool) (page p q : Page C)
      → Keeps page p
      → Keeps page q
      → Keeps page (if test then p else q)
  Keeps-if true page p q h k = h
  Keeps-if false page p q h k = k

  Keeps-refl : (page : Page C) → Keeps page page
  unfolding Keeps
  Keeps-refl page = (refl, refl)

  book-Keeps : (now size : ℕ) (page : Page C) → Keeps page (book now size page).1
  unfolding book Keeps
  book-Keeps now size page = elim (Bool-cases (ltb now (page.s_tm + page.unit_time * 1000))) [
    | inl within ↦ elim (Bool-cases (ltb page.acc (page.unit_amount * 1024))) [
      | inl free ↦ rw (within, free) (refl, refl)
      | inr full ↦ rw (within, full) (refl, refl)
    ]
    | inr behind ↦ rw behind (refl, refl)
  ]

  take_out-Keeps : (sent : Bool) (page : Page C) → Keeps page (take_out sent page)
  unfolding Keeps
  take_out-Keeps sent page = (all_clicks-take_out sent page, unfold take_out in refl)

  report-Keeps : (now : ℕ) (page : Page C) → Keeps page (report now page)
  unfolding report
  report-Keeps now page =
      let booked = book now (amount page) page in
      Keeps-if (has_news page) page _ _
        (Keeps-trans page booked.1 _ (book-Keeps now (amount page) page)
          (take_out-Keeps _ booked.1))
        (take_out-Keeps false page)

  -- A report leaves the tracked lists empty, whether it sends or not.
  pub report_empties :
      (now : ℕ) (page : Page C)
      → ((report now page).move_list ≡ [])
        × ((report now page).click_list ≡ [])
        × ((report now page).keyboard_list ≡ [])
  unfolding report take_out
  report_empties now page = (ground arith, ground arith, ground arith)

  report_if-Keeps : (full : Bool) (now : ℕ) (page : Page C) → Keeps page (report_if full now page)
  unfolding report_if
  report_if-Keeps full now page =
      Keeps-if full page (report now page) page (report-Keeps now page) (Keeps-refl page)

  track_key-Keeps : (ts : ℕ) (page : Page C) → Keeps page (track_key ts page)
  unfolding track_key Keeps
  track_key-Keeps ts page =
      Keeps-if page.enable_track page _ page
        (report_if-Keeps (ltb 500 (length page.keyboard_list)) ts page) (Keeps-refl page)

  track_click-all_clicks :
      (point : Point C) (page : Page C)
      → page.enable_track ≡ true
      → (all_clicks (track_click point page) ≡ all_clicks page ++ point ∷ [])
        × ((track_click point page).enable_track ≡ true)
  unfolding track_click Keeps
  track_click-all_clicks point page on =
      let p = report_if (leb 500 (length page.click_list)) point.ts page in
      let pushed : Page C = record p { click_list = p.click_list ++ point ∷ [] } in
      let (clicks, still) = report_if-Keeps (leb 500 (length page.click_list)) point.ts page in
      let made : track_click point page ≡ pushed = ap (λ b. if b then pushed else page) on in
      (
        ap all_clicks made
            ∙ sym (append_assoc (taken_clicks p.taken) p.click_list (point ∷ []))
            ∙ ap (λ l. l ++ point ∷ []) clicks,
        ap (λ q. q.enable_track) made ∙ still ∙ on,
      )

module _ {C : Type 0} (same : C → C → Bool) (floor : C → C) (number : ℕ → C) where
  track_move-Keeps :
      (point : Point C) (page : Page C) → Keeps page (track_move same floor number point page)
  unfolding track_move Keeps
  track_move-Keeps point page =
      let p = report_if (leb 500 (length page.move_list)) point.ts page in
      let room = report_if-Keeps (leb 500 (length page.move_list)) point.ts page in
      Keeps-if page.enable_track page _ page
        (Keeps-if (is_skipped same floor number (last_of p.move_list) point) page p _ room room)
        (Keeps-refl page)

  mark_touch-Keeps : (pointer : Pointer C) (page : Page C) → Keeps page (mark_touch pointer page)
  unfolding mark_touch Keeps
  mark_touch-Keeps pointer page = Keeps-if _ page _ page (refl, refl) (refl, refl)

  move_to-Keeps :
      (now : ℕ) (place : Option (C × C)) (page : Page C)
      → Keeps page (move_to same floor number now place page)
  unfolding move_to note_move Keeps
  move_to-Keeps now none page = Keeps-refl page
  move_to-Keeps now (some (x, y)) page =
      track_move-Keeps (point_at same floor number now x y)
        (note_move same floor number (event_at same floor number now x y) page)

  on_move-Keeps :
      (now : ℕ) (pointer : Pointer C) (page : Page C)
      → Keeps page (on_move same floor number now pointer page)
  unfolding on_move
  on_move-Keeps now pointer page =
      Keeps-trans page (mark_touch pointer page) _ (mark_touch-Keeps pointer page)
        (move_to-Keeps now (place_of pointer) (mark_touch pointer page))

  on_unload-Keeps : (now : ℕ) (page : Page C) → Keeps page (on_unload now page)
  unfolding on_unload Keeps
  on_unload-Keeps now page = Keeps-if page.trigger_unload page page _ (Keeps-refl page) (
      Keeps-if page.enable_track page _ _ (report-Keeps now (record page { trigger_unload = true }))
        (refl, refl))

  -- The click of an event, if it is one.
  abbrev click_at : ℕ → Option (C × C) → List (Point C)
  click_at now none = []
  click_at now (some (x, y)) = (record { ts = now; x = floor x; y = floor y }) ∷ []

  abbrev click_of : ℕ × PageEvent C → List (Point C)
  click_of (now, pointer_down pointer) = click_at now (place_of pointer)
  click_of _ = []

  abbrev pub clicks_of : List (ℕ × PageEvent C) → List (Point C)
  clicks_of [] = []
  clicks_of (event ∷ events) = click_of event ++ clicks_of events

  -- All clicks after an event, and the switch.
  Adds : List (Point C) → Page C → Page C → Type 0
  Adds clicks page after =
      (all_clicks after ≡ all_clicks page ++ clicks) × (after.enable_track ≡ true)

  Keeps-Adds :
      (page after : Page C) → page.enable_track ≡ true → Keeps page after → Adds [] page after
  unfolding Keeps Adds
  Keeps-Adds page after on (clicks, still) =
      (clicks ∙ sym (append-nil (all_clicks page)), still ∙ on)

  press_at-Adds :
      (now : ℕ) (place : Option (C × C)) (page : Page C)
      → page.enable_track ≡ true
      → Adds (click_at now place) page (press_at same floor number now place page)
  unfolding press_at note_press Adds
  press_at-Adds now none page on = (sym (append-nil (all_clicks page)), on)
  press_at-Adds now (some (x, y)) page on =
      track_click-all_clicks (point_at same floor number now x y)
        (note_press same floor number (event_at same floor number now x y) page) on

  on_press-Adds :
      (now : ℕ) (pointer : Pointer C) (page : Page C)
      → page.enable_track ≡ true
      → Adds (click_at now (place_of pointer)) page (on_press same floor number now pointer page)
  unfolding on_press Adds Keeps
  on_press-Adds now pointer page on =
      let (clicks, still) = mark_touch-Keeps pointer page in
      let (more, tracked) =
        press_at-Adds now (place_of pointer) (mark_touch pointer page) (still ∙ on) in
      (more ∙ ap (λ l. l ++ click_at now (place_of pointer)) clicks, tracked)

  on_key-Keeps :
      (now : ℕ) (held : Bool) (page : Page C) → Keeps page (on_key same floor number now held page)
  unfolding on_key note_key Keeps
  on_key-Keeps now held page = track_key-Keeps now (
      note_key same floor number (record { x = number (if held then 1 else 0); y = none; d = now })
        page)

  handle-Adds :
      (event : ℕ × PageEvent C) (page : Page C)
      → page.enable_track ≡ true
      → Adds (click_of event) page (handle same floor number event page)
  unfolding handle
  handle-Adds (now, pointer_moves pointer) page on =
      Keeps-Adds page _ on (on_move-Keeps now pointer page)
  handle-Adds (now, pointer_down pointer) page on = on_press-Adds now pointer page on
  handle-Adds (now, key_down held) page on = Keeps-Adds page _ on (on_key-Keeps now held page)
  handle-Adds (now, visibility_changes v) page on =
      Keeps-Adds page _ on (unfold on_visibility Keeps in (refl, refl))
  handle-Adds (now, unloads) page on = Keeps-Adds page _ on (on_unload-Keeps now page)
  handle-Adds (now, ticks) page on = Keeps-Adds page _ on (report-Keeps now page)

  handle_all-Adds :
      (events : List (ℕ × PageEvent C)) (page : Page C)
      → page.enable_track ≡ true
      → Adds (clicks_of events) page (handle_all same floor number events page)
  unfolding handle_all Adds
  handle_all-Adds [] page on = (sym (append-nil (all_clicks page)), on)
  handle_all-Adds (event ∷ events) page on =
      let next = handle same floor number event page in
      let (clicks, still) = handle-Adds event page on in
      let (more, tracked) = handle_all-Adds events next still in
      (
        more
            ∙ ap (λ l. l ++ clicks_of events) clicks
            ∙ append_assoc (all_clicks page) (click_of event) (clicks_of events),
        tracked,
      )

  -- While the page is tracked, the clicks that were taken out of the list and then those that wait
  -- in it are the clicks of the page, in their order: none is lost before it is taken, none is taken
  -- twice.
  pub handle_all-all_clicks :
      (events : List (ℕ × PageEvent C)) (page : Page C)
      → page.enable_track ≡ true
      → all_clicks (handle_all same floor number events page) ≡ all_clicks page ++ clicks_of events
  unfolding Adds
  handle_all-all_clicks events page on = (handle_all-Adds events page on).0

  taken_at_last :
      (now : ℕ) (page : Page C)
      → page.enable_track ≡ true
      → page.trigger_unload ≡ false
      → taken_clicks (on_unload now page).taken ≡ all_clicks page
  unfolding on_unload Keeps
  taken_at_last now page on first =
      let left : Page C = record page { trigger_unload = true } in
      let step : on_unload now page ≡ (if page.enable_track then report now left else left) =
        ap (λ b. if b then page else if page.enable_track then report now left else left) first in
      let made : on_unload now page ≡ report now left =
        step ∙ ap (λ b. if b then report now left else left) on in
      ap (λ p. taken_clicks p.taken) made
      ∙ sym (append-nil (taken_clicks (report now left).taken))
      ∙ ap (λ l. taken_clicks (report now left).taken ++ l) (sym (report_empties now left).1)
      ∙ (report-Keeps now left).0

  -- When a tracked page is left for the first time, the batches that were taken out, sent or not,
  -- hold all clicks of the page, in their order.
  pub on_unload-taken :
      (events : List (ℕ × PageEvent C)) (now : ℕ) (page : Page C)
      → page.enable_track ≡ true
      → (handle_all same floor number events page).trigger_unload ≡ false
      → taken_clicks (on_unload now (handle_all same floor number events page)).taken
        ≡ all_clicks page ++ clicks_of events
  unfolding Adds
  on_unload-taken events now page on first =
      let (clicks, still) = handle_all-Adds events page on in
      taken_at_last now (handle_all same floor number events page) still first ∙ clicks
