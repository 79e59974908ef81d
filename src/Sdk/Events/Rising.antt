-- ===== src/Sdk/Events/Rising.antt =====
-- What the lists of events have in common: their times rise.
use douyin_live.Prelude.{
  Option, ℕ, zero, suc, ◌-◌, ◌<◌, ◌≤◌, ◌≡◌, refl, sym, ◌∙◌, ap, Bool, false, List, [], ◌∷◌, ◌++◌,
  some, ltb, length, length-append, length-drop, drop, arith, Bool-cases, inl, inr, Option-cases,
  ◌==◌, if◌then◌else◌, leb,
}
use douyin_live.Sdk.Events.{
  Event, Arithmetic, last_of, same_place, is_refused, add_event, add_events, speed, speeds,
  sum_from, sum, mean, squares, deviation, statistics,
}

pub last_of-cons {ℓ} :
    {A : Type ℓ} (a b : A) (list : List A) → last_of (a ∷ b ∷ list) ≡ last_of (b ∷ list)
unfolding last_of
last_of-cons a b list = elim (Option-cases (last_of list)) [
  | inl e ↦ rw (e, last_of) refl
  | inr (c, e) ↦ rw (e, last_of) refl
]

module _ {R : Type 0} (reals : Arithmetic R) where
  sum_total : (list : List R) → 0 < length list → (s : R) × (sum reals list ≡ some s)
  unfolding sum
  sum_total [] h = absurd (omega arith)
  sum_total (r ∷ list) h = (sum_from reals r list, refl)

  mean_total : (list : List R) → 0 < length list → (m : R) × (mean reals list ≡ some m)
  unfolding mean
  mean_total list h =
      let (s, e) = sum_total list h in rw (e, mean) (reals.per s (length list), refl)

  length-squares : (m : R) (list : List R) → length (squares reals m list) ≡ length list
  unfolding squares
  length-squares m [] = refl
  length-squares m (r ∷ list) = ap suc (length-squares m list)

  deviation_total : (list : List R) → (v : R) × (deviation reals list ≡ some v)
  unfolding deviation
  deviation_total list = elim (Bool-cases (leb (length list) 1)) [
    | inl short ↦ rw (short, deviation) (reals.nought, refl)
    | inr long ↦
        let (m, em) = mean_total list (ground arith) in
        let (s, es) = sum_total (squares reals m list) (ground (arith, length-squares m list)) in
        rw (long, em, es, deviation) (reals.root (reals.per s (length list - 1)), refl)
  ]

module _ {C : Type 0} (same : C → C → Bool) where
  -- Every event is later than the one before it and stands at another place.
  abbrev pub IsRising : List (Event C) → Type 0
  IsRising [] = Unit
  IsRising (a ∷ []) = Unit
  IsRising (a ∷ b ∷ list) = (a.d < b.d) × (same_place same a b ≡ false) × IsRising (b ∷ list)

  IsRising-tail : (a : Event C) (list : List (Event C)) → IsRising (a ∷ list) → IsRising list
  IsRising-tail a [] h = tt
  IsRising-tail a (b ∷ list) h = h.2

  IsRising-drop : (n : ℕ) (list : List (Event C)) → IsRising list → IsRising (drop n list)
  IsRising-drop zero list h = h
  IsRising-drop (suc n) [] h = tt
  IsRising-drop (suc n) (a ∷ list) h = IsRising-drop n list (IsRising-tail a list h)

  accepted :
      (a event : Event C)
      → is_refused same (some a) event ≡ false
      → (a.d < event.d) × (same_place same a event ≡ false)
  unfolding is_refused
  accepted a event h = (ground arith, ground arith)

  IsRising-append :
      (list : List (Event C)) (event : Event C)
      → IsRising list
      → is_refused same (last_of list) event ≡ false
      → IsRising (list ++ event ∷ [])
  unfolding last_of
  IsRising-append [] event h fits = tt
  IsRising-append (a ∷ []) event h fits =
      let (later, moved) = accepted a event fits in (later, moved, tt)
  IsRising-append (a ∷ b ∷ list) event (later, moved, h) fits = (
    later,
    moved,
    IsRising-append (b ∷ list) event h
        (ap (λ l. is_refused same l event) (sym (last_of-cons a b list)) ∙ fits),
  )

  kept_rises :
      (kept : List (Event C)) (event : Event C)
      → IsRising kept
      → length kept ≤ 200
      → let list = if is_refused same (last_of kept) event then kept else kept ++ event ∷ [] in
        IsRising list × (length list ≤ 201)
  kept_rises kept event h small = elim (Bool-cases (is_refused same (last_of kept) event)) [
    | inl refused ↦ rw refused (h, omega arith)
    | inr fits ↦
        rw fits (IsRising-append kept event h fits, omega (arith, length-append kept (event ∷ [])))
  ]

  -- An added event keeps the list rising, and keeps it at 201 events at most.
  add_event-IsRising :
      (list : List (Event C)) (event : Event C)
      → IsRising list
      → length list ≤ 201
      → IsRising (add_event same list event) × (length (add_event same list event) ≤ 201)
  unfolding add_event
  add_event-IsRising list event h small = elim (Bool-cases (ltb 200 (length list))) [
    | inl full ↦
        let len = length-drop 100 list in
        rw full (kept_rises (drop 100 list) event (IsRising-drop 100 list h) (omega arith))
    | inr room ↦ rw room (kept_rises list event h (ground arith))
  ]

  from_here :
      (list events : List (Event C))
      → IsRising list
      → length list ≤ 201
      → IsRising (add_events same list events) × (length (add_events same list events) ≤ 201)
  unfolding add_events
  from_here list [] h small = (h, small)
  from_here list (event ∷ events) h small =
      let (rising, less) = add_event-IsRising list event h small in
      from_here (add_event same list event) events rising less

  -- From the empty list on, whatever events come, the list holds 201 events at most, each of them
  -- later than the one before it and at another place.
  pub add_events-IsRising :
      (events : List (Event C))
      → IsRising (add_events same [] events) × (length (add_events same [] events) ≤ 201)
  add_events-IsRising events = from_here [] events tt (omega arith)

  module _ {R : Type 0} (speed : Event C → Event C → R) where
    -- A rising list has a speed for every two neighbours.
    length-speeds :
        (a : Event C) (list : List (Event C))
        → IsRising (a ∷ list)
        → length (speeds speed (a ∷ list)) ≡ length list
    unfolding speeds
    length-speeds a [] h = refl
    length-speeds a (b ∷ list) (later, moved, h) =
        let differ : (b.d == a.d) ≡ false = ground arith in
        rw differ (ap suc (length-speeds b list h))

    some_speed :
        (list : List (Event C)) → IsRising list → 1 < length list → 0 < length (speeds speed list)
    some_speed [] h two = absurd (omega arith)
    some_speed (a ∷ list) h two = omega (arith, length-speeds a list h)

  module _ {R : Type 0} (reals : Arithmetic R) (apart : Option C → Option C → R) where
    -- For the events of a page and a bound of 1 or more, the statistics have a result: no mean of
    -- an empty array is taken.
    pub statistics_total :
        (events : List (Event C)) (least : ℕ) (is_key : Bool)
        → 0 < least
        → (r : R × R) × (statistics reals apart (add_events same [] events) least is_key ≡ some r)
    unfolding statistics
    statistics_total events least is_key h =
        elim (Bool-cases (ltb least (length (add_events same [] events)))) [
          | inl more ↦
              let list = add_events same [] events in
              let few : 0 < length (speeds (speed reals apart is_key) list) =
                some_speed (speed reals apart is_key) list (add_events-IsRising events).0
                  (ground arith) in
              let (m, em) = mean_total reals (speeds (speed reals apart is_key) list) few in
              let (v, ev) = deviation_total reals (speeds (speed reals apart is_key) list) in
              rw (more, em, ev, statistics)
                ((m, if reals.is_nought v then reals.hundredth else v), refl)
          | inr less ↦ rw (less, statistics) ((reals.nought, reals.nought), refl)
        ]
