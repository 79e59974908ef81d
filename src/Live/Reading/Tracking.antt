-- ===== src/Live/Reading/Tracking.antt =====
-- The two counts of the listener over the loop that reads messages.
use douyin_live.Prelude.{
  ℕ, suc, ◌==◌, ◌*◌, ◌≤◌, ◌≡◌, ◌≢◌, refl, inl, inr, Bool, true, false, List, [], ◌∷◌, Option, none,
  some, All, if◌then◌else◌, arith, Bool-cases,
}
use douyin_live.Prelude.Int.{pos}
use douyin_live.Live.{Listener, set_live_status}
use douyin_live.Live.Reconnect.{
  sent_close, other_error, close_frame, delay_for, decide_close, at_least, Plan, ReadError,
  Decision, reconnect_plan, reconnect_decision, second, base_reconnect_delay,
}
use douyin_live.Live.Reading.{
  Failure, Outcome, closed_by_hand, not_live, ended_twice, not_retried, wait_interrupted,
  dial_failed, reconnected, keeps_reading, Handled, ended, set_statuses, fetch_status, count_answer,
  reconnect, plan_and_wait, decide_and_plan, handle_read_error, Read, failed, live_ends,
  other_message, read_one, process_messages,
}

-- Both counts are 0.
pub record IsReset (l : Listener) : Type 0 where
  pub no_confirmations : l.confirmations ≡ 0
  pub no_failures : l.failures ≡ 0

set_live_status-IsReset :
    (status : Bool) (l : Listener) → IsReset l → IsReset (set_live_status status l)
unfolding set_live_status
set_live_status-IsReset status l r = ground arith

set_statuses-IsReset :
    (writes : List Bool) (l : Listener) → IsReset l → IsReset (set_statuses writes l)
unfolding set_statuses
set_statuses-IsReset [] l r = r
set_statuses-IsReset (status ∷ writes) l r =
    set_statuses-IsReset writes (set_live_status status l) (set_live_status-IsReset status l r)

-- The plan of a first failure: no new HTTP client, and at most 5 seconds.
pub record IsFirst (planned : ℕ × Plan) : Type 0 where
  pub count_is_one : planned.0 ≡ 1
  pub keeps_http : planned.1.rebuild_http ≡ false
  pub is_short : (n : ℕ) × (planned.1.delay ≡ pos n) × (n ≤ 5 * second)

-- A plan, if there is one, is that of a first failure.
abbrev pub PlansFirst : Option (ℕ × Plan) → Type 0
PlansFirst none = Unit {0}
PlansFirst (some planned) = IsFirst planned

-- After a reconnection both counts are 0.
abbrev pub ResetsAfter : Outcome → Listener → Type 0
ResetsAfter reconnected l = IsReset l
ResetsAfter _ l = Unit {0}

-- What is done about a read error while both counts are 0: the room is not found to have ended, a
-- plan is that of a first failure, and after a reconnection both counts are 0 again.
pub record IsPlain (h : Handled) : Type 0 where
  pub not_ended : h.outcome ≢ ended_twice
  pub first : PlansFirst h.planned
  pub again : ResetsAfter h.outcome h.after

count_answer-first :
    (answer : Option Bool) (l : Listener)
    → IsReset l
    → ((count_answer answer l).0 ≡ false) × ((count_answer answer l).1.failures ≡ 0)
unfolding count_answer
count_answer-first none l r = (refl, r.no_failures)
count_answer-first (some true) l r = (refl, r.no_failures)
count_answer-first (some false) l r = (rw (r.no_confirmations) refl, r.no_failures)

ended-IsPlain :
    (why : Outcome) (l : Listener) → why ≢ ended_twice → ResetsAfter why l → IsPlain (ended why l)
ended-IsPlain why l h k = record { not_ended = h; first = tt; again = k }

-- A decision to retry has a short delay.
IsShort : Decision → Type 0
IsShort d =
    d.should_retry ≡ true
    → (n : ℕ) × (delay_for d.reason (pos d.base_delay) ≡ pos n) × (n ≤ 5 * second)

IsShort-if : (b : Bool) (d e : Decision) → IsShort d → IsShort e → IsShort (if b then d else e)
IsShort-if true d e h k = h
IsShort-if false d e h k = k

decide_close-IsShort : (code : ℕ) → IsShort (decide_close code)
unfolding IsShort decide_close delay_for at_least
decide_close-IsShort code =
    IsShort-if (code == 1000) _ _ (λ h. cc)
      (IsShort-if (code == 1006) _ _ (λ h. (base_reconnect_delay, refl, omega arith))
        (IsShort-if (code == 1013) _ _ (λ h. (5 * second, refl, omega arith))
          (IsShort-if (code == 1012) _ _ (λ h. (3 * second, refl, omega arith))
            (IsShort-if (code == 1001) _ _ (λ h. (2 * second, refl, omega arith))
              (IsShort-if (code == 1008) _ _ (λ h. cc)
                (IsShort-if (code == 1007) _ _ (λ h. cc)
                  (λ h. (base_reconnect_delay, refl, omega arith))))))))

reconnect_decision-IsShort : (manual : Bool) (e : ReadError) → IsShort (reconnect_decision manual e)
unfolding IsShort reconnect_decision delay_for
reconnect_decision-IsShort true e h = cc
reconnect_decision-IsShort false sent_close h = cc
reconnect_decision-IsShort false (close_frame code) h = decide_close-IsShort code h
reconnect_decision-IsShort false other_error h = (base_reconnect_delay, refl, omega arith)

reconnect_plan-IsFirst :
    (has_cookie : Bool) (d : Decision) (count : ℕ)
    → count ≡ 1
    → IsShort d
    → d.should_retry ≡ true
    → IsFirst (count, reconnect_plan has_cookie d.reason count d.base_delay d.allow_ua)
unfolding reconnect_plan IsShort
reconnect_plan-IsFirst has_cookie d count e s h = record {
  count_is_one = e;
  keeps_http = rw e refl;
  is_short = rw e (s h);
}

plan_and_wait-IsPlain :
    (has_cookie : Bool) (f : Failure) (d : Decision) (l : Listener)
    → l.failures ≡ 0
    → IsShort d
    → d.should_retry ≡ true
    → IsPlain (plan_and_wait has_cookie f d l)
unfolding plan_and_wait reconnect
plan_and_wait-IsPlain has_cookie f d l e s h =
    let one : suc l.failures ≡ 1 = omega arith in
    let plan : IsFirst (
      suc l.failures,
      reconnect_plan has_cookie d.reason (suc l.failures) d.base_delay d.allow_ua,
    ) =
      reconnect_plan-IsFirst has_cookie d (suc l.failures) one s h in
    elim (Bool-cases f.interrupted) [
      | inl stops ↦ rw stops (record { not_ended = λ k. cc; first = plan; again = tt })
      | inr waits ↦ elim (Bool-cases l.manual_close) [
        | inl hand ↦ rw (waits, hand) (record { not_ended = λ k. cc; first = plan; again = tt })
        | inr open_yet ↦ elim (Bool-cases f.dials) [
          | inl makes ↦
              rw (waits, open_yet, makes)
                (record {
                  not_ended = λ k. cc;
                  first = plan;
                  again = record { no_confirmations = refl; no_failures = refl };
                })
          | inr fails ↦
              rw (waits, open_yet, fails) (record { not_ended = λ k. cc; first = plan; again = tt })
        ]
      ]
    ]

decide_and_plan-IsPlain :
    (has_cookie : Bool) (f : Failure) (counted : Bool × Listener)
    → counted.0 ≡ false
    → counted.1.failures ≡ 0
    → IsPlain (decide_and_plan has_cookie f counted)
unfolding decide_and_plan
decide_and_plan-IsPlain has_cookie f (true, l) e z = cc
decide_and_plan-IsPlain has_cookie f (false, l) e z =
    let d : Decision = reconnect_decision l.manual_close f.error in
    elim (Bool-cases d.should_retry) [
      | inl retries ↦ rw retries (
          plan_and_wait-IsPlain has_cookie f d l z
            (reconnect_decision-IsShort l.manual_close f.error) retries)
      | inr stops ↦ rw stops (ended-IsPlain not_retried l (λ k. cc) tt)
    ]

IsPlain-if : (b : Bool) (g h : Handled) → IsPlain g → IsPlain h → IsPlain (if b then g else h)
IsPlain-if true g h p q = p
IsPlain-if false g h p q = q

handle_read_error-IsPlain :
    (has_cookie : Bool) (f : Failure) (l : Listener)
    → IsReset l
    → IsPlain (handle_read_error has_cookie f l)
unfolding handle_read_error decide_and_plan fetch_status
handle_read_error-IsPlain has_cookie f l r =
    let checked : Listener = fetch_status f.check l in
    let reset : IsReset checked =
      set_statuses-IsReset f.check.writes (record l { status_known = false })
        (record { no_confirmations = r.no_confirmations; no_failures = r.no_failures }) in
    let counted : ((count_answer f.check.answer checked).0 ≡ false)
        × ((count_answer f.check.answer checked).1.failures ≡ 0) =
      count_answer-first f.check.answer checked reset in
    IsPlain-if l.manual_close _ _ (ended-IsPlain closed_by_hand l (λ k. cc) tt) (
      IsPlain-if l.is_live _ _
        (decide_and_plan-IsPlain has_cookie f (count_answer f.check.answer checked) counted.0
          counted.1)
        (ended-IsPlain not_live l (λ k. cc) tt))

All-if : (b : Bool) (list : List Handled) → All IsPlain list → All IsPlain (if b then list else [])
All-if true list h = h
All-if false list h = tt

IsReset-again : (o : Outcome) (l : Listener) → keeps_reading o ≡ true → ResetsAfter o l → IsReset l
IsReset-again reconnected l e r = r
IsReset-again closed_by_hand l e r = cc
IsReset-again not_live l e r = cc
IsReset-again ended_twice l e r = cc
IsReset-again not_retried l e r = cc
IsReset-again wait_interrupted l e r = cc
IsReset-again dial_failed l e r = cc

-- In the loop that reads messages, begun while both counts are 0 (as after a connection has been
-- made), each read error is dealt with as a first one, however many come: the check of the status
-- never ends the loop, no plan asks for a new HTTP client, and no planned delay is above 5 seconds.
pub process_messages-IsPlain :
    (has_cookie : Bool) (reads : List Read) (l : Listener)
    → IsReset l
    → All IsPlain (process_messages has_cookie reads l)
unfolding process_messages read_one
process_messages-IsPlain has_cookie [] l r = tt
process_messages-IsPlain has_cookie (other_message ∷ reads) l r =
    All-if l.is_live _ (process_messages-IsPlain has_cookie reads l r)
process_messages-IsPlain has_cookie (live_ends ∷ reads) l r = All-if l.is_live _ (
    process_messages-IsPlain has_cookie reads (set_live_status false l)
      (set_live_status-IsReset false l r))
process_messages-IsPlain has_cookie (failed f ∷ reads) l r =
    let h : Handled = handle_read_error has_cookie f l in
    let plain : IsPlain h = handle_read_error-IsPlain has_cookie f l r in
    let rest : All IsPlain
        (if keeps_reading h.outcome then process_messages has_cookie reads h.after else []) =
      elim (Bool-cases (keeps_reading h.outcome)) [
        | inl again ↦ rw again (
            process_messages-IsPlain has_cookie reads h.after
              (IsReset-again h.outcome h.after again plain.again))
        | inr stops ↦ rw stops tt
      ] in
    All-if l.is_live _ (plain, rest)
