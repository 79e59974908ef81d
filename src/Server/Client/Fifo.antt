-- ===== src/Server/Client/Fifo.antt =====
-- The queue of a client is a bounded queue that keeps the order of its messages.
use mathlib.Core.Path.{subst}
use douyin_live.Prelude.{
  ℕ, suc, ◌+◌, ◌≤◌, ◌≡◌, refl, sym, ap, ap₂, ◌&&◌, not, ◌∙◌, Bool, true, false, List, [], ◌∷◌, ◌++◌,
  append_assoc, append-nil, Option, none, some, length, length-append, ltb, if◌then◌else◌, arith,
  Bool-cases, inl, inr, ltb→lt,
}
use douyin_live.Server.Client.{
  client_send_queue_size, max_client_queued_bytes, max_client_message_bytes, EnqueueResult, accepts,
  Message, Client, enqueue, take_from, finish_with, begin_client_close, Step, sends, takes,
  finishes, closes, step, run, new_client,
}

-- The number of bytes of some messages.
pub bytes : List Message → ℕ
bytes [] = 0
bytes (m ∷ messages) = length m + bytes messages

-- The message in hand, as a list.
abbrev pub in_hand : Option Message → List Message
in_hand none = []
in_hand (some m) = m ∷ []

bytes-append :
    (messages more : List Message) → bytes (messages ++ more) ≡ bytes messages + bytes more
unfolding bytes
bytes-append [] more = omega arith
bytes-append (m ∷ messages) more = omega (arith, bytes-append messages more)

-- A message is in hand only while none is lost.
abbrev pub Alone : Option Message → Option Message → Type 0
Alone none lost = Unit {0}
Alone (some m) lost = lost ≡ none

-- The account of the bytes is that of the queue and the message in hand, and both bounds hold.
pub record IsBounded (c : Client) : Type 0 where
  pub counted : c.queued_bytes ≡ bytes (in_hand c.taken) + bytes c.queue
  pub few : length c.queue ≤ client_send_queue_size
  pub waits : Alone c.taken c.lost
  pub small : c.queued_bytes ≤ max_client_queued_bytes

-- All that was accepted: written, lost, in hand or queued, in this order.
pub passed : Client → List Message
passed c = c.written ++ (in_hand c.lost ++ (in_hand c.taken ++ c.queue))

-- What a step does to a client: it keeps the bounds, and what it accepts comes last.
record Keeps (c : Client) (taken_in : List Message) (after : Client) : Type 0 where
  bounded : IsBounded after
  in_order : passed after ≡ passed c ++ taken_in

Keeps-same : (c : Client) → IsBounded c → Keeps c [] c
Keeps-same c b = record { bounded = b; in_order = sym (append-nil (passed c)) }

-- The same for the answer to a sender.
abbrev Answers : Client → Message → EnqueueResult × Client → Type 0
Answers c m answer = Keeps c (accepts answer.0 m) answer.1

Answers-if :
    (c : Client) (m : Message) (b : Bool) (p q : EnqueueResult × Client)
    → (b ≡ true → Answers c m p)
    → (b ≡ false → Answers c m q)
    → Answers c m (if b then p else q)
Answers-if c m true p q h k = h refl
Answers-if c m false p q h k = k refl

added-Keeps :
    (m : Message) (c : Client)
    → IsBounded c
    → c.queued_bytes + length m ≤ max_client_queued_bytes
    → suc (length c.queue) ≤ client_send_queue_size
    → Keeps c
        (m ∷ [])
        (record c { queue = c.queue ++ m ∷ []; queued_bytes = c.queued_bytes + length m })
unfolding passed bytes
added-Keeps m c b room places = record {
  bounded = record {
    counted = omega (arith, b.counted, bytes-append c.queue (m ∷ []));
    few = omega (arith, length-append c.queue (m ∷ []));
    waits = b.waits;
    small = room;
  };
  in_order =
      ap (λ t. c.written ++ (in_hand c.lost ++ t))
        (sym (append_assoc (in_hand c.taken) c.queue (m ∷ [])))
      ∙ (ap (λ t. c.written ++ t)
            (sym (append_assoc (in_hand c.lost) (in_hand c.taken ++ c.queue) (m ∷ [])))
          ∙ sym (append_assoc c.written (in_hand c.lost ++ (in_hand c.taken ++ c.queue)) (m ∷ [])));
}

enqueue-Answers : (m : Message) (c : Client) → IsBounded c → Answers c m (enqueue m c)
unfolding enqueue
enqueue-Answers m c b =
    Answers-if c m (ltb max_client_message_bytes (length m)) _ _ (λ h. Keeps-same c b)
      (λ h.
        Answers-if c m c.stopped _ _ (λ k. Keeps-same c b)
          (λ k.
            Answers-if c m (ltb max_client_queued_bytes (c.queued_bytes + length m)) _ _
              (λ full. Keeps-same c b)
              (λ fits.
                Answers-if c m (ltb (length c.queue) client_send_queue_size) _ _
                  (λ free. added-Keeps m c b (ground arith) (ltb→lt _ _ free))
                  (λ none_free. Keeps-same c b))))

take_from-Keeps :
    (queue : List Message) (taken lost : Option Message) (c : Client)
    → c.queue ≡ queue
    → c.taken ≡ taken
    → c.lost ≡ lost
    → IsBounded c
    → Keeps c [] (take_from queue taken lost c)
unfolding take_from passed bytes
take_from-Keeps [] taken lost c p q r b = Keeps-same c b
take_from-Keeps (m ∷ queue) (some t) lost c p q r b = Keeps-same c b
take_from-Keeps (m ∷ queue) none (some l) c p q r b = Keeps-same c b
take_from-Keeps (m ∷ queue) none none c p q r b =
    let counted : c.queued_bytes ≡ bytes (in_hand none) + bytes (m ∷ queue) =
      b.counted ∙ ap₂ (λ t list. bytes (in_hand t) + bytes list) q p in
    record {
      bounded = record {
        counted = omega (arith, counted);
        few = omega (arith, b.few, ap length p);
        waits = r;
        small = b.small;
      };
      in_order =
          sym (ap₂ (λ t list. c.written ++ (in_hand c.lost ++ (in_hand t ++ list))) q p)
          ∙ sym (append-nil (passed c));
    }

finish_with-Keeps :
    (taken : Option Message) (ok : Bool) (c : Client)
    → c.taken ≡ taken
    → IsBounded c
    → Keeps c [] (finish_with taken ok c)
unfolding finish_with passed bytes
finish_with-Keeps none ok c e b = Keeps-same c b
finish_with-Keeps (some m) ok c e b =
    let alone : c.lost ≡ none = subst (λ t. Alone t c.lost) e b.waits in
    let counted : c.queued_bytes ≡ bytes (m ∷ []) + bytes c.queue =
      b.counted ∙ ap (λ t. bytes (in_hand t) + bytes c.queue) e in
    let before : passed c ≡ c.written ++ (m ∷ c.queue) =
      ap₂ (λ l t. c.written ++ (in_hand l ++ (in_hand t ++ c.queue))) alone e in
    elim (Bool-cases (ok && not c.stopped)) [
      | inl done ↦ rw done (record {
        bounded = record {
          counted = omega (arith, counted);
          few = b.few;
          waits = tt;
          small = omega (arith, b.small);
        };
        in_order =
            ap (λ l. (c.written ++ m ∷ []) ++ (in_hand l ++ c.queue)) alone
            ∙ (append_assoc c.written (m ∷ []) c.queue
                ∙ (sym before ∙ sym (append-nil (passed c))));
      })
      | inr failed ↦ rw failed (record {
        bounded = record {
          counted = omega (arith, counted);
          few = b.few;
          waits = tt;
          small = omega (arith, b.small);
        };
        in_order = sym before ∙ sym (append-nil (passed c));
      })
    ]

close-Keeps : (c : Client) → IsBounded c → Keeps c [] (begin_client_close c)
unfolding passed begin_client_close
close-Keeps c b = record {
  bounded = record { counted = b.counted; few = b.few; waits = b.waits; small = b.small };
  in_order = sym (append-nil (passed c));
}

step-Keeps : (s : Step) (c : Client) → IsBounded c → Keeps c (step s c).0 (step s c).1
unfolding step
step-Keeps (sends m) c b = enqueue-Answers m c b
step-Keeps takes c b = take_from-Keeps c.queue c.taken c.lost c refl refl refl b
step-Keeps (finishes ok) c b = finish_with-Keeps c.taken ok c refl b
step-Keeps closes c b = close-Keeps c b

run-Keeps : (steps : List Step) (c : Client) → IsBounded c → Keeps c (run steps c).0 (run steps c).1
unfolding run
run-Keeps [] c b = Keeps-same c b
run-Keeps (s ∷ steps) c b =
    let first : Keeps c (step s c).0 (step s c).1 = step-Keeps s c b in
    let rest : Keeps (step s c).1 (run steps (step s c).1).0 (run steps (step s c).1).1 =
      run-Keeps steps (step s c).1 first.bounded in
    record {
      bounded = rest.bounded;
      in_order =
          rest.in_order
          ∙ (ap (λ t. t ++ (run steps (step s c).1).0) first.in_order
              ∙ append_assoc (passed c) (step s c).0 (run steps (step s c).1).0);
    }

-- From a new client on, whatever the senders and the loop do: at most 256 messages of at most 16
-- MiB wait, the account of the bytes is right, and the messages that were accepted are those that
-- were written, the one that was lost, the one in hand and those that wait, in this order, with one
-- lost only if none is in hand.
pub run_in_order :
    (steps : List Step)
    → IsBounded (run steps new_client).1
      × (passed (run steps new_client).1 ≡ (run steps new_client).0)
unfolding passed bytes
run_in_order steps =
    let start : IsBounded new_client = record {
      counted = refl;
      few = omega arith;
      waits = tt;
      small = omega arith;
    } in
    let all : Keeps new_client (run steps new_client).0 (run steps new_client).1 =
      run-Keeps steps new_client start in
    (all.bounded, all.in_order)
