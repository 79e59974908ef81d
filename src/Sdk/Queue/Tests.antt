-- ===== src/Sdk/Queue/Tests.antt =====
-- A generator with requests, and the theorem at it.
use douyin_live.Prelude.{ℕ, ◌+◌, ◌≡◌, refl, false, List, [], ◌∷◌, ◌++◌, none, ltb, if◌then◌else◌}
use douyin_live.Sdk.Queue.{
  Method, next, Answer, yields, throws, resolved, rejected, Event, invoke, fulfil, resume, settle,
  invoke_request, on_fulfilled, step, steps, new_queue,
}
use douyin_live.Sdk.Queue.Order.{settled_ids, request_ids, requested, Agrees, steps_in_order}

-- Its state is the next value; from 2 on it throws.
abbrev count : Method → ℕ → ℕ → Answer ℕ ℕ
count key arg n =
    if ltb n 2
    then yields (record { value = n; awaited = none; done = false }) (n + 1)
    else throws 9 n

abbrev ask : ℕ → Event ℕ
ask id = invoke (record { id = id; key = next; arg = 0 })

-- Four requests, and the promises of the first two values.
abbrev events : List (Event ℕ)
events = ask 1 ∷ ask 2 ∷ ask 3 ∷ ask 4 ∷ fulfil 10 ∷ fulfil 11 ∷ []

events_settled :
    (steps count (λ v. false) events (new_queue 0)).settled
    ≡ (1, resolved 10 false) ∷ (2, resolved 11 false) ∷ (3, rejected 9) ∷ (4, rejected 9) ∷ []
unfolding steps step invoke_request on_fulfilled resume settle new_queue
events_settled = refl

steps_in_order_example :
    let s = steps count (λ v. false) events (new_queue 0) in
    (settled_ids s.settled ++ request_ids s.queue ≡ requested events) × Agrees s.phase s.queue
steps_in_order_example = steps_in_order count (λ v. false) events 0
