-- ===== src/Sdk/Events/Tracking.antt =====
-- jsScript/webmssdk.js, lines 5602 to 5675, 5699 to 5749 and 6886 to 6941: the handlers of the
-- page's events, the lists that the page reports, and the report before it is left. `_0x450b73` is
-- a program of the interpreter: it empties the lists with `splice(0)`, sends nothing if all were
-- empty, and else sends what it took out unless the amount of the unit of time is used up or there
-- is no address. What it takes out is a batch of the model, with whether it was sent. It reads the
-- clock where the handler does. The text that is sent, and the copy of the account in the storage,
-- are left out: `sendBeacon` and the request that replaces it both count as sending. The mode that
-- sends in any case, `flush`, has no caller.
pub mod Kept
pub mod Bounds
pub mod Sent
mod Tests
use douyin_live.Prelude.{
  ℕ, ◌+◌, ◌*◌, ◌==◌, Bool, true, false, not, ◌&&◌, ◌||◌, List, [], ◌∷◌, ◌++◌, Option, none, some,
  ltb, leb, if◌then◌else◌, length,
}
use douyin_live.Sdk.Events.{Event, last_of, add_event}

-- An entry of the lists of movements and clicks.
pub record Point (C : Type 0) : Type 0 where
  pub ts : ℕ
  pub x : C
  pub y : C

-- A number for a key, and a state of visibility with its time.
pub record Batch (C : Type 0) : Type 0 where
  pub moves : List (Point C)
  pub clicks : List (Point C)
  pub keys : List ℕ
  pub states : List (ℕ × ℕ)
  pub sent : Bool

pub record Page (C : Type 0) : Type 0 where
  -- `_0x9fb121`, `_0x207cc5`, `_0x191fa5` and `_0x2786f5`
  pub moves : List (Event C)
  pub presses : List (Event C)
  pub keys : List (Event C)
  pub is_touch : Bool
  pub move_list : List (Point C)
  pub click_list : List (Point C)
  pub keyboard_list : List ℕ
  pub active_state : List (ℕ × ℕ)
  pub enable_track : Bool
  pub trigger_unload : Bool
  -- `track.unitTime`, `track.unitAmount`, and whether there is `regionConf.reportUrl`.
  pub unit_time : ℕ
  pub unit_amount : ℕ
  pub has_report_url : Bool
  -- `_0x5dc9cc`: where the unit of time began, and the amount in it.
  pub s_tm : ℕ
  pub acc : ℕ
  -- What the reports took out of the lists.
  pub taken : List (Batch C)

-- `changedTouches` is there for the events of a touch; `touches` may be empty.
pub record Pointer (C : Type 0) : Type 0 where
  pub client : C × C
  pub changed_touches : Bool
  -- The type is `touchmove` or `touchstart`.
  pub is_touch_type : Bool
  pub first_touch : Option (C × C)

pub data Visibility : Type 0 where
  visible hidden other : Visibility

pub data PageEvent (C : Type 0) : Type 0 where
  -- `mousemove` and `touchmove`
  pointer_moves : Pointer C → PageEvent C
  -- `mousedown` and `touchstart`
  pointer_down : Pointer C → PageEvent C
  -- One of the keys alt, ctrl, meta and shift is held, or none.
  key_down : Bool → PageEvent C
  visibility_changes : Visibility → PageEvent C
  -- `beforeunload` and `unload`
  unloads : PageEvent C
  -- The timer that is set where the tracking is switched on.
  ticks : PageEvent C

unfoldable pub visibility_number : Visibility → ℕ
visibility_number visible = 1
visibility_number hidden = 2
visibility_number other = 9

module _ {C : Type 0} where
  -- Whether one of the lists is not empty, and their amount.
  unfoldable pub has_news : Page C → Bool
  has_news page = not (
      length page.move_list == 0
      && length page.click_list == 0
      && length page.keyboard_list == 0
      && length page.active_state == 0)

  unfoldable pub amount : Page C → ℕ
  amount page =
      length page.move_list * 16
      + length page.click_list * 12
      + length page.keyboard_list * 4
      + length page.active_state * 8

  -- Whether the amount fits the account, and the account after it.
  unfoldable pub book : ℕ → ℕ → Page C → Bool × Page C
  book now size page =
      if ltb now (page.s_tm + page.unit_time * 1000)
      then (if ltb page.acc (page.unit_amount * 1024)
          then (true, record page { acc = page.acc + size })
          else (false, page))
      else (true, record page { s_tm = now; acc = size })

  -- The lists go into a batch.
  unfoldable pub take_out : Bool → Page C → Page C
  take_out sent page = record page {
    move_list = [];
    click_list = [];
    keyboard_list = [];
    active_state = [];
    taken =
        page.taken
        ++ (record {
          moves = page.move_list;
          clicks = page.click_list;
          keys = page.keyboard_list;
          states = page.active_state;
          sent = sent;
        })
          ∷ [];
  }

  unfoldable pub report : ℕ → Page C → Page C
  unfolding has_news amount book take_out
  report now page =
      if has_news page
      then (let (fits, p) = book now (amount page) page in take_out (fits && page.has_report_url) p)
      else take_out false page

  unfoldable pub report_if : Bool → ℕ → Page C → Page C
  report_if full now page = if full then report now page else page

  -- `_0x1d26db` for a click: a list of 500 is reported first.
  unfoldable pub track_click : Point C → Page C → Page C
  unfolding report_if
  track_click point page =
      if page.enable_track
      then (let p = report_if (leb 500 (length page.click_list)) point.ts page in
          record p { click_list = p.click_list ++ point ∷ [] })
      else page

  -- For a key, a list of 501.
  unfoldable pub track_key : ℕ → Page C → Page C
  unfolding report_if
  track_key ts page =
      if page.enable_track
      then (let p = report_if (ltb 500 (length page.keyboard_list)) ts page in
          record p { keyboard_list = p.keyboard_list ++ ts ∷ [] })
      else page

  -- The place of a pointer; with no touch there is an exception.
  unfoldable pub place_of : Pointer C → Option (C × C)
  place_of pointer =
      if pointer.changed_touches && pointer.is_touch_type
      then pointer.first_touch
      else some pointer.client

  unfoldable pub mark_touch : Pointer C → Page C → Page C
  mark_touch pointer page =
      if pointer.changed_touches && pointer.is_touch_type
      then record page { is_touch = true }
      else page

  -- `_0x1be1e1`
  unfoldable pub on_visibility : ℕ → Visibility → Page C → Page C
  unfolding visibility_number
  on_visibility now v page = record page {
    active_state = page.active_state ++ (now, visibility_number v) ∷ [];
  }

  -- `_0x58c311` and `_0x3ff3f1`
  unfoldable pub exit_report : ℕ → Page C → Page C
  unfolding report
  exit_report now page = if page.enable_track then report now page else page

  -- `_0x115c6a`: only the first of the two events reports.
  unfoldable pub on_unload : ℕ → Page C → Page C
  unfolding exit_report
  on_unload now page =
      if page.trigger_unload then page else exit_report now (record page { trigger_unload = true })

-- `===` of coordinates, `Math.floor`, and a small number as one.
module _ {C : Type 0} (same : C → C → Bool) (floor : C → C) (number : ℕ → C) where
  -- At the place of the last movement, or less than half a second after it.
  unfoldable pub is_skipped : Option (Point C) → Point C → Bool
  is_skipped none point = false
  is_skipped (some before) point =
      (same before.x point.x && same before.y point.y) || ltb point.ts (before.ts + 500)

  -- For a movement, a list of 500.
  unfoldable pub track_move : Point C → Page C → Page C
  unfolding report_if is_skipped last_of
  track_move point page =
      if page.enable_track
      then (let p = report_if (leb 500 (length page.move_list)) point.ts page in
          if is_skipped (last_of p.move_list) point
          then p
          else record p { move_list = p.move_list ++ point ∷ [] })
      else page

  abbrev pub point_at : ℕ → C → C → Point C
  point_at now x y = record { ts = now; x = floor x; y = floor y }

  abbrev pub event_at : ℕ → C → C → Event C
  event_at now x y = record { x = floor x; y = some (floor y); d = now }

  unfoldable pub note_move : Event C → Page C → Page C
  unfolding add_event
  note_move event page = record page { moves = add_event same page.moves event }

  unfoldable pub note_press : Event C → Page C → Page C
  unfolding add_event
  note_press event page = record page { presses = add_event same page.presses event }

  unfoldable pub note_key : Event C → Page C → Page C
  unfolding add_event
  note_key event page = record page { keys = add_event same page.keys event }

  unfoldable pub move_to : ℕ → Option (C × C) → Page C → Page C
  unfolding note_move track_move
  move_to now none page = page
  move_to now (some (x, y)) page = track_move (point_at now x y) (note_move (event_at now x y) page)

  -- `_0x3dcfd5`
  unfoldable pub on_move : ℕ → Pointer C → Page C → Page C
  unfolding place_of mark_touch move_to
  on_move now pointer page = move_to now (place_of pointer) (mark_touch pointer page)

  unfoldable pub press_at : ℕ → Option (C × C) → Page C → Page C
  unfolding note_press track_click
  press_at now none page = page
  press_at now (some (x, y)) page =
      track_click (point_at now x y) (note_press (event_at now x y) page)

  -- `_0x19d89b`
  unfoldable pub on_press : ℕ → Pointer C → Page C → Page C
  unfolding place_of mark_touch press_at
  on_press now pointer page = press_at now (place_of pointer) (mark_touch pointer page)

  -- `_0x56114b`
  unfoldable pub on_key : ℕ → Bool → Page C → Page C
  unfolding note_key track_key
  on_key now held page =
      track_key now
        (note_key (record { x = number (if held then 1 else 0); y = none; d = now }) page)

  -- An event at a time.
  unfoldable pub handle : ℕ × PageEvent C → Page C → Page C
  unfolding on_move on_press on_key on_visibility on_unload report
  handle (now, pointer_moves pointer) page = on_move now pointer page
  handle (now, pointer_down pointer) page = on_press now pointer page
  handle (now, key_down held) page = on_key now held page
  handle (now, visibility_changes v) page = on_visibility now v page
  handle (now, unloads) page = on_unload now page
  handle (now, ticks) page = report now page

  unfoldable pub handle_all : List (ℕ × PageEvent C) → Page C → Page C
  unfolding handle
  handle_all [] page = page
  handle_all (event ∷ events) page = handle_all events (handle event page)
