-- ===== src/Sdk/Queue/Order.antt =====
-- Requests are answered in the order in which they came.
use douyin_live.Prelude.{
  ℕ, ◌≡◌, refl, sym, ◌∙◌, ap, Bool, not, ◌||◌, List, [], ◌∷◌, ◌++◌, append_assoc, append-nil, ◌⊎◌,
  inl, inr, Bool-cases, Option-cases,
}
use douyin_live.Sdk.Queue.{
  Method, throw, Result, Answer, yields, throws, Request, Settlement, resolved, rejected, Phase,
  idle, stuck, waiting, State, Event, invoke, fulfil, reject, resume, settle, invoke_request, go_on,
  deliver, on_fulfilled, on_rejected, step, steps, new_queue,
}

abbrev pub settled_ids : {V : Type 0} → List (ℕ × Settlement V) → List ℕ
settled_ids [] = []
settled_ids (s ∷ settled) = s.0 ∷ settled_ids settled

abbrev pub request_ids : {V : Type 0} → List (Request V) → List ℕ
request_ids [] = []
request_ids (r ∷ queue) = r.id ∷ request_ids queue

-- The requests that the events make.
abbrev pub requested : {V : Type 0} → List (Event V) → List ℕ
requested [] = []
requested (invoke r ∷ events) = r.id ∷ requested events
requested (_ ∷ events) = requested events

-- The generator is idle exactly when the queue is empty.
abbrev pub Agrees : {V : Type 0} → Phase V → List (Request V) → Type 0
Agrees idle [] = Unit
Agrees idle (r ∷ queue) = ⊥
Agrees _ [] = ⊥
Agrees _ (r ∷ queue) = Unit

Agrees-busy :
    {V : Type 0} (phase : Phase V) (r r' : Request V) (queue queue' : List (Request V))
    → Agrees phase (r ∷ queue)
    → Agrees phase (r' ∷ queue')
Agrees-busy idle r r' queue queue' h = absurd h
Agrees-busy stuck r r' queue queue' h = tt
Agrees-busy (waiting key result) r r' queue queue' h = tt

Answer-cases :
    {V G : Type 0} (a : Answer V G)
    → ((r : Result V) × (g : G) × (a ≡ yields r g)) ⊎ ((e : V) × (g : G) × (a ≡ throws e g))
Answer-cases (yields r g) = inl (r, g, refl)
Answer-cases (throws e g) = inr (e, g, refl)

settled_ids-append :
    {V : Type 0} (xs ys : List (ℕ × Settlement V))
    → settled_ids (xs ++ ys) ≡ settled_ids xs ++ settled_ids ys
settled_ids-append [] ys = refl
settled_ids-append (x ∷ xs) ys = ap (λ l. x.0 ∷ l) (settled_ids-append xs ys)

request_ids-append :
    {V : Type 0} (xs ys : List (Request V))
    → request_ids (xs ++ ys) ≡ request_ids xs ++ request_ids ys
request_ids-append [] ys = refl
request_ids-append (x ∷ xs) ys = ap (λ l. x.id ∷ l) (request_ids-append xs ys)

-- The requests that are answered and those that are not, in order, with the phase that fits.
abbrev pub Holds : {V G : Type 0} → List ℕ → State V G → Type 0
Holds ids s = (settled_ids s.settled ++ request_ids s.queue ≡ ids) × Agrees s.phase s.queue

module _ {V G : Type 0} (call : Method → V → G → Answer V G) where
  -- Answering the first of them.
  answered :
      (settled : List (ℕ × Settlement V)) (id : ℕ) (answer : Settlement V) (ids : List ℕ)
      → settled_ids (settled ++ (id, answer) ∷ []) ++ ids ≡ settled_ids settled ++ id ∷ ids
  answered settled id answer ids =
      ap (λ l. l ++ ids) (settled_ids-append settled ((id, answer) ∷ []))
      ∙ append_assoc (settled_ids settled) (id ∷ []) ids

  resume_lem :
      (key : Method) (arg : V) (first : Request V) (rest : List (Request V))
      (settled : List (ℕ × Settlement V)) (g : G)
      → Holds
          (settled_ids settled ++ first.id ∷ request_ids rest)
          (resume call key arg first rest settled g)
  unfolding resume
  resume_lem key arg first [] settled g = elim (Answer-cases (call key arg g)) [
    | inl (r, g', e) ↦ rw (e, resume) (refl, tt)
    | inr (x, g', e) ↦ rw (e, resume) (answered settled first.id (rejected x) [], tt)
  ]
  resume_lem key arg first (second ∷ rest) settled g = elim (Answer-cases (call key arg g)) [
    | inl (r, g', e) ↦ rw (e, resume) (refl, tt)
    | inr (x, g', e) ↦
        let (order, agrees) =
          resume_lem second.key second.arg second rest (settled ++ (first.id, rejected x) ∷ [])
            g' in
        rw (e, resume)
          (order ∙ answered settled first.id (rejected x) (second.id ∷ request_ids rest), agrees)
  ]

  settle_lem :
      (answer : Settlement V) (first : Request V) (rest : List (Request V))
      (settled : List (ℕ × Settlement V)) (g : G)
      → Holds
          (settled_ids settled ++ first.id ∷ request_ids rest)
          (settle call answer first rest settled g)
  unfolding settle
  settle_lem answer first [] settled g = (answered settled first.id answer [], tt)
  settle_lem answer first (second ∷ rest) settled g =
      let (order, agrees) =
        resume_lem second.key second.arg second rest (settled ++ (first.id, answer) ∷ []) g in
      (order ∙ answered settled first.id answer (second.id ∷ request_ids rest), agrees)

module _ {V G : Type 0} (call : Method → V → G → Answer V G) (is_done : V → Bool) where
  deliver_lem :
      (wrapped : Bool) (key : Method) (r : Result V) (v : V) (first : Request V)
      (rest : List (Request V)) (s : State V G)
      → s.queue ≡ first ∷ rest
      → Holds
          (settled_ids s.settled ++ first.id ∷ request_ids rest)
          (deliver call is_done wrapped key r v first rest s)
  unfolding deliver
  deliver_lem wrapped key r v first rest s q = elim (Bool-cases (not wrapped || is_done v)) [
    | inl back ↦ rw back (resume_lem call (go_on key) v first rest s.settled s.generator)
    | inr on ↦ rw on (elim (Answer-cases (call (go_on key) v s.generator)) [
      | inl (r', g, e) ↦
          rw (e, deliver) (settle_lem call (resolved r'.value r.done) first rest s.settled g)
      | inr (x, g, e) ↦ rw (e, q, deliver) (refl, tt)
    ])
  ]

  fulfilled_lem :
      (phase : Phase V) (queue : List (Request V)) (v : V) (s : State V G)
      → s.phase ≡ phase
      → s.queue ≡ queue
      → Agrees phase queue
      → Holds
          (settled_ids s.settled ++ request_ids queue)
          (on_fulfilled call is_done phase queue v s)
  unfolding on_fulfilled
  fulfilled_lem (waiting key r) (first ∷ rest) v s p q h = elim (Option-cases r.awaited) [
    | inl plain ↦
        rw (plain, on_fulfilled)
          (settle_lem call (resolved v r.done) first rest s.settled s.generator)
    | inr (wrapped, e) ↦ rw (e, on_fulfilled) (deliver_lem wrapped key r v first rest s q)
  ]
  fulfilled_lem (waiting key r) [] v s p q h = absurd h
  fulfilled_lem idle queue v s p q h = rw (p, q) (refl, h)
  fulfilled_lem stuck queue v s p q h = rw (p, q) (refl, h)

  rejected_lem :
      (phase : Phase V) (queue : List (Request V)) (e : V) (s : State V G)
      → s.phase ≡ phase
      → s.queue ≡ queue
      → Agrees phase queue
      → Holds (settled_ids s.settled ++ request_ids queue) (on_rejected call phase queue e s)
  unfolding on_rejected
  rejected_lem (waiting key r) (first ∷ rest) e s p q h =
      resume_lem call throw e first rest s.settled s.generator
  rejected_lem (waiting key r) [] e s p q h = absurd h
  rejected_lem idle queue e s p q h = rw (p, q) (refl, h)
  rejected_lem stuck queue e s p q h = rw (p, q) (refl, h)

  invoked_lem :
      (r : Request V) (queue : List (Request V)) (s : State V G)
      → s.queue ≡ queue
      → Agrees s.phase queue
      → Holds
          ((settled_ids s.settled ++ request_ids queue) ++ r.id ∷ [])
          (invoke_request call r queue s)
  unfolding invoke_request
  invoked_lem r [] s q h =
      let (order, agrees) = resume_lem call r.key r.arg r [] s.settled s.generator in
      (order ∙ ap (λ l. l ++ r.id ∷ []) (sym (append-nil (settled_ids s.settled))), agrees)
  invoked_lem r (first ∷ rest) s q h = (
    ap (λ l. settled_ids s.settled ++ first.id ∷ l) (request_ids-append rest (r ∷ []))
        ∙ sym (append_assoc (settled_ids s.settled) (first.id ∷ request_ids rest) (r.id ∷ [])),
    Agrees-busy s.phase first first rest (rest ++ r ∷ []) h,
  )

  steps_lem :
      (events : List (Event V)) (s : State V G)
      → Agrees s.phase s.queue
      → Holds
          ((settled_ids s.settled ++ request_ids s.queue) ++ requested events)
          (steps call is_done events s)
  unfolding steps step
  steps_lem [] s h = (sym (append-nil (settled_ids s.settled ++ request_ids s.queue)), h)
  steps_lem (invoke r ∷ events) s h =
      let (order, agrees) = invoked_lem r s.queue s refl h in
      let (order', agrees') = steps_lem events (invoke_request call r s.queue s) agrees in
      (
        order'
            ∙ (ap (λ l. l ++ requested events) order
                ∙ append_assoc (settled_ids s.settled ++ request_ids s.queue) (r.id ∷ [])
                    (requested events)),
        agrees',
      )
  steps_lem (fulfil v ∷ events) s h =
      let (order, agrees) = fulfilled_lem s.phase s.queue v s refl refl h in
      let (order', agrees') =
        steps_lem events (on_fulfilled call is_done s.phase s.queue v s) agrees in
      (order' ∙ ap (λ l. l ++ requested events) order, agrees')
  steps_lem (reject e ∷ events) s h =
      let (order, agrees) = rejected_lem s.phase s.queue e s refl refl h in
      let (order', agrees') = steps_lem events (on_rejected call s.phase s.queue e s) agrees in
      (order' ∙ ap (λ l. l ++ requested events) order, agrees')

  -- From a new queue on, whatever requests and settled promises come: the requests that are
  -- answered and then those that wait are the requests that were made, in that order, and the queue
  -- is empty exactly when the generator is idle.
  pub steps_in_order :
      (events : List (Event V)) (g : G)
      → let s = steps call is_done events (new_queue g) in
        (settled_ids s.settled ++ request_ids s.queue ≡ requested events) × Agrees s.phase s.queue
  unfolding new_queue
  steps_in_order events g = steps_lem events (new_queue g) tt
