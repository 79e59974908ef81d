-- ===== src/Sdk/Queue.antt =====
-- jsScript/webmssdk.js, lines 384 to 450: the queue of an asynchronous generator. A request is
-- answered by a promise, the first of the queue is the one that runs, and the promises of the
-- generator's values are settled by events from outside. The generator is a parameter: it answers a
-- call of one of its methods with a result or an exception. A generator that calls its own queue
-- before it answers is not modelled.
pub mod Order
mod Tests
use douyin_live.Prelude.{
  ℕ, Bool, true, false, not, ◌||◌, List, [], ◌∷◌, ◌++◌, Option, none, some, if◌then◌else◌,
}

pub data Method : Type 0 where
  next return throw : Method

-- A value may be a wrapper of an awaited one, which carries a flag.
pub record Result (V : Type 0) : Type 0 where
  pub value : V
  pub awaited : Option Bool
  pub done : Bool

pub data Answer (V G : Type 0) : Type 0 where
  yields : Result V → G → Answer V G
  throws : V → G → Answer V G

pub record Request (V : Type 0) : Type 0 where
  pub id : ℕ
  pub key : Method
  pub arg : V

pub data Settlement (V : Type 0) : Type 0 where
  resolved : V → Bool → Settlement V
  rejected : V → Settlement V

-- `waiting` for the promise of a result that a method gave. In `stuck` an exception has left the
-- reaction of a promise, which nothing catches.
pub data Phase (V : Type 0) : Type 0 where
  idle stuck : Phase V
  waiting : Method → Result V → Phase V

pub record State (V G : Type 0) : Type 0 where
  pub queue : List (Request V)
  pub settled : List (ℕ × Settlement V)
  pub phase : Phase V
  pub generator : G

pub data Event (V : Type 0) : Type 0 where
  invoke : Request V → Event V
  fulfil reject : V → Event V

unfoldable pub go_on : Method → Method
go_on return = return
go_on _ = next

module _ {V G : Type 0} (call : Method → V → G → Answer V G) where
  -- `_0x4f3f`, for the first request, with those behind it. An exception rejects the request, and
  -- the next one goes on at once.
  unfoldable pub resume :
      Method → V → Request V → List (Request V) → List (ℕ × Settlement V) → G → State V G
  resume key arg first [] settled g = elim (call key arg g) [
    | yields r g' ↦ record {
      queue = first ∷ [];
      settled = settled;
      phase = waiting key r;
      generator = g';
    }
    | throws e g' ↦ record {
      queue = [];
      settled = settled ++ (first.id, rejected e) ∷ [];
      phase = idle;
      generator = g';
    }
  ]
  resume key arg first (second ∷ rest) settled g = elim (call key arg g) [
    | yields r g' ↦ record {
      queue = first ∷ second ∷ rest;
      settled = settled;
      phase = waiting key r;
      generator = g';
    }
    | throws e g' ↦
        resume second.key second.arg second rest (settled ++ (first.id, rejected e) ∷ []) g'
  ]

  -- `_0x6815`: the first request is answered, and the next one goes on.
  unfoldable pub settle :
      Settlement V → Request V → List (Request V) → List (ℕ × Settlement V) → G → State V G
  unfolding resume
  settle answer first [] settled g = record {
    queue = [];
    settled = settled ++ (first.id, answer) ∷ [];
    phase = idle;
    generator = g;
  }
  settle answer first (second ∷ rest) settled g =
      resume second.key second.arg second rest (settled ++ (first.id, answer) ∷ []) g

  unfoldable pub invoke_request : Request V → List (Request V) → State V G → State V G
  unfolding resume
  invoke_request request [] s = resume request.key request.arg request [] s.settled s.generator
  invoke_request request (first ∷ rest) s = record s { queue = first ∷ (rest ++ request ∷ []) }

  unfoldable pub on_rejected : Phase V → List (Request V) → V → State V G → State V G
  unfolding resume
  on_rejected (waiting key r) (first ∷ rest) e s = resume throw e first rest s.settled s.generator
  on_rejected _ _ e s = s

module _ {V G : Type 0} (call : Method → V → G → Answer V G) (is_done : V → Bool) where
  -- The awaited value comes back to the generator.
  unfoldable pub deliver :
      Bool → Method → Result V → V → Request V → List (Request V) → State V G → State V G
  unfolding resume settle go_on
  deliver wrapped key r v first rest s =
      if not wrapped || is_done v
      then resume call (go_on key) v first rest s.settled s.generator
      else elim (call (go_on key) v s.generator) [
        | throws e g ↦ record s { phase = stuck; generator = g }
        | yields r' g ↦ settle call (resolved r'.value r.done) first rest s.settled g
      ]

  unfoldable pub on_fulfilled : Phase V → List (Request V) → V → State V G → State V G
  unfolding settle deliver
  on_fulfilled (waiting key r) (first ∷ rest) v s = elim r.awaited [
    | none ↦ settle call (resolved v r.done) first rest s.settled s.generator
    | some wrapped ↦ deliver wrapped key r v first rest s
  ]
  on_fulfilled _ _ v s = s

  unfoldable pub step : Event V → State V G → State V G
  unfolding invoke_request on_fulfilled on_rejected
  step (invoke request) s = invoke_request call request s.queue s
  step (fulfil v) s = on_fulfilled s.phase s.queue v s
  step (reject e) s = on_rejected call s.phase s.queue e s

  unfoldable pub steps : List (Event V) → State V G → State V G
  unfolding step
  steps [] s = s
  steps (event ∷ events) s = steps events (step event s)

-- A queue that nothing has been asked of.
unfoldable pub new_queue : {V G : Type 0} → G → State V G
new_queue g = record { queue = []; settled = []; phase = idle; generator = g }
