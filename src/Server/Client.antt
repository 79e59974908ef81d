-- ===== src/Server/Client.antt =====
-- internal/server/room_client.go, lines 12 to 20, 37 to 43, 105 to 180 and 237 to 260: the queue of
-- messages that wait for a client. Senders and the loop that writes run in different goroutines; a
-- step is what one of them does under the lock, or one take from the channel. A message is its
-- payload.
pub mod Fifo
use douyin_live.Prelude.{
  ℕ, ◌+◌, ◌-◌, ◌*◌, ◌^◌, Bool, true, false, ◌&&◌, not, List, [], ◌∷◌, ◌++◌, Option, none, some,
  length, ltb, leb, if◌then◌else◌,
}

abbrev pub client_send_queue_size : ℕ
client_send_queue_size = 256

abbrev pub max_client_queued_bytes : ℕ
max_client_queued_bytes = 16 * 2 ^ 20

abbrev pub max_client_message_bytes : ℕ
max_client_message_bytes = 8 * 2 ^ 20

pub data EnqueueResult : Type 0 where
  accepted client_closed queue_full queue_bytes_exceeded message_too_large : EnqueueResult

abbrev pub Message : Type 0
Message = List ℕ

pub record Client : Type 0 where
  pub queue : List Message
  pub queued_bytes : ℕ
  pub stopped : Bool
  -- The message that the loop has taken and not yet accounted for.
  pub taken : Option Message
  -- The messages that have been written, the first one first.
  pub written : List Message
  -- The message that could not be written, which ended the loop.
  pub lost : Option Message

abbrev pub new_client : Client
new_client = record {
  queue = [];
  queued_bytes = 0;
  stopped = false;
  taken = none;
  written = [];
  lost = none;
}

-- `enqueueWithResult`
unfoldable pub enqueue : Message → Client → EnqueueResult × Client
enqueue payload c =
    if ltb max_client_message_bytes (length payload)
    then (message_too_large, c)
    else if c.stopped
    then (client_closed, c)
    else if ltb max_client_queued_bytes (c.queued_bytes + length payload)
    then (queue_bytes_exceeded, c)
    else if ltb (length c.queue) client_send_queue_size
    then (
      accepted,
      record c { queue = c.queue ++ payload ∷ []; queued_bytes = c.queued_bytes + length payload },
    )
    else (queue_full, c)

-- `releaseQueuedBytes`, which stops at 0.
unfoldable pub release_bytes : ℕ → Client → Client
release_bytes size c = record c { queued_bytes = c.queued_bytes - size }

take_from : List Message → Option Message → Option Message → Client → Client
take_from (m ∷ queue) none none c = record c { queue = queue; taken = some m }
take_from queue taken lost c = c

-- The loop takes the next message, if it has none in hand and has not ended. It may still take one
-- after the stop: where both are ready the choice is free.
unfoldable pub take_message : Client → Client
unfolding take_from
take_message c = take_from c.queue c.taken c.lost c

finish_with : Option Message → Bool → Client → Client
unfolding release_bytes
finish_with none ok c = c
finish_with (some m) ok c =
    let c' = release_bytes (length m) (record c { taken = none }) in
    if ok && not c.stopped
    then record c' { written = c.written ++ m ∷ [] }
    else record c' { lost = some m; stopped = true }

-- `writeMessage` of the message in hand, which a stopped client refuses; a failure closes the client
-- and ends the loop.
unfoldable pub finish_write : Bool → Client → Client
unfolding finish_with
finish_write ok c = finish_with c.taken ok c

-- `beginClose` stops the loop.
unfoldable pub begin_client_close : Client → Client
begin_client_close c = record c { stopped = true }

pub data Step : Type 0 where
  sends : Message → Step
  takes : Step
  finishes : Bool → Step
  closes : Step

abbrev pub accepts : EnqueueResult → Message → List Message
accepts accepted m = m ∷ []
accepts _ m = []

-- A step, with the message that it accepts for delivery.
unfoldable pub step : Step → Client → List Message × Client
unfolding enqueue take_message finish_write begin_client_close
step (sends m) c = let (result, c') = enqueue m c in (accepts result m, c')
step takes c = ([], take_message c)
step (finishes ok) c = ([], finish_write ok c)
step closes c = ([], begin_client_close c)

-- The messages that a sequence of steps accepts, and the client after it.
unfoldable pub run : List Step → Client → List Message × Client
unfolding step
run [] c = ([], c)
run (s ∷ steps) c =
    let (now, c') = step s c in let (later, last) = run steps c' in (now ++ later, last)
