-- ===== src/Messaging/Pending.antt =====
-- No future is lost: whoever waits for one is answered or told of the disconnect.
use sawtooth_sdk_python.Base.{
  ℕ, ◌≡◌, ◌≢◌, inl, inr, refl, Bool, true, false, not, none, some, [], ◌∷◌, ◌++◌, arith,
  if◌then◌else◌, get_elem?, length, Option-cases,
}
use sawtooth_sdk_python.Base.Text.{Text, Bytes}
use sawtooth_sdk_python.Base.Dict.{lookup, insert, erase}
use sawtooth_sdk_python.Base.Exec.{Result, ok, raised, validator_connection_error}
use sawtooth_sdk_python.Messaging.Future.{
  Future, Futures, future_result, future_error, set_result, resolve, remove, get,
}
use sawtooth_sdk_python.Messaging.Stream.{
  Message, Stream, put_message, send, send_back, queue_initial, deliver, receive_message,
  monitor_disconnects, connect, init,
}
use sawtooth_sdk_python.Messaging.Tracked.{IsTracked, add-IsTracked, settle-IsTracked, all_done}

-- What the program and the validator do to a stream, one step at a time. An id is fresh when no
-- future of the collection has it; a message is put only when the queue is there.
pub data Step (s : Stream) : Stream → Type 0 where
  sends :
      (t : ℕ) (b : Bytes) (id : Text)
      → lookup id s.futures.collection ≡ none
      → s.send_queue ≢ none
      → Step s (send t b id s).1
  sends_back : (t : ℕ) (id : Text) (b : Bytes) → s.send_queue ≢ none → Step s (send_back t id b s).1
  receives : (msg : Message) → Step s (receive_message msg s)
  disconnects : Step s (monitor_disconnects s)
  connects : Step s (connect s)

pub data Reach : Stream → Type 0 where
  starts : Reach init
  then_step : {s t : Stream} → Reach s → Step s t → Reach t

futures-put_message : (msg : Message) (s : Stream) → (put_message msg s).futures ≡ s.futures
unfolding put_message
futures-put_message msg s = ground arith

send-IsTracked :
    (t : ℕ) (b : Bytes) (id : Text) (s : Stream)
    → lookup id s.futures.collection ≡ none
    → IsTracked s.futures
    → IsTracked (send t b id s).1.futures
unfolding send
send-IsTracked t b id s fresh h = either s.ready
  where
    grown : Futures
    grown = record {
      store =
          s.futures.store
          ++ (record { correlation_id = id; result = none; request_type = some t } ∷ []);
      collection = insert id (length s.futures.store) s.futures.collection;
    }

    tracked : IsTracked grown
    tracked =
        add-IsTracked s.futures
          (record { correlation_id = id; result = none; request_type = some t }) fresh h

    either :
        (ready : Bool)
        → IsTracked
            (if◌then◌else◌ {A = Result ℕ × Stream}
              (not ready)
              (raised validator_connection_error, s)
              (
                ok (length s.futures.store),
                put_message
                    (record { message_type = t; correlation_id = id; content = b })
                    (record s { futures = grown }),
              )).1.futures
    either true =
        rw
          (futures-put_message (record { message_type = t; correlation_id = id; content = b })
            (record s { futures = grown }))
          tracked
    either false = h

send_back-futures :
    (t : ℕ) (id : Text) (b : Bytes) (s : Stream) → (send_back t id b s).1.futures ≡ s.futures
unfolding send_back put_message
send_back-futures t id b s = ground arith

queue_initial-futures : (msg : Message) (s : Stream) → (queue_initial msg s).futures ≡ s.futures
unfolding queue_initial
queue_initial-futures msg s = ground arith

-- A message whose id the collection does not hold is a message for the processor.
pub deliver_unknown :
    (msg : Message) (s : Stream)
    → lookup msg.correlation_id s.futures.collection ≡ none
    → deliver msg s ≡ queue_initial msg s
unfolding deliver resolve get
deliver_unknown msg s e = ground arith

abbrev pub settled : Message → Stream → ℕ → Stream
settled msg s place = record s {
  futures = record {
    store = set_result s.futures.store place (future_result msg.message_type msg.content);
    collection = erase msg.correlation_id s.futures.collection;
  };
}

pub deliver_known :
    (msg : Message) (s : Stream) (place : ℕ)
    → lookup msg.correlation_id s.futures.collection ≡ some place
    → deliver msg s ≡ settled msg s place
unfolding deliver resolve remove get
deliver_known msg s place e = ground arith

deliver-IsTracked :
    (msg : Message) (s : Stream) → IsTracked s.futures → IsTracked (deliver msg s).futures
deliver-IsTracked msg s h = elim (Option-cases (lookup msg.correlation_id s.futures.collection)) [
  | inl e ↦ rw (deliver_unknown msg s e) (rw (queue_initial-futures msg s) h)
  | inr (place, e) ↦ rw (deliver_known msg s place e) (
      settle-IsTracked s.futures msg.correlation_id place
        (future_result msg.message_type msg.content) e h)
]

receive_message-IsTracked :
    (msg : Message) (s : Stream) → IsTracked s.futures → IsTracked (receive_message msg s).futures
unfolding receive_message
receive_message-IsTracked msg s h = either s.ready
  where
    either : (ready : Bool) → IsTracked (if not ready then s else deliver msg s).futures
    either true = deliver-IsTracked msg s h
    either false = h

disconnected-IsTracked :
    (s : Stream) → IsTracked s.futures → IsTracked (monitor_disconnects s).futures
unfolding monitor_disconnects
disconnected-IsTracked s h = record {
  keyed = h.keyed;
  pending = λ i g e p. absurd (all_done s.futures future_error i g h e p);
}

Step-IsTracked : {s t : Stream} → Step s t → IsTracked s.futures → IsTracked t.futures
unfolding connect
Step-IsTracked {s} (sends t b id fresh q) h = send-IsTracked t b id s fresh h
Step-IsTracked {s} (sends_back t id b q) h = rw (send_back-futures t id b s) h
Step-IsTracked {s} (receives msg) h = receive_message-IsTracked msg s h
Step-IsTracked {s} disconnects h = disconnected-IsTracked s h
Step-IsTracked {s} connects h = record { keyed = h.keyed; pending = h.pending }

init-IsTracked : IsTracked init.futures
init-IsTracked = record { keyed = tt; pending = λ i f e p. cc }

-- In every state that a stream reaches, each future that is not done is in the collection under its
-- own id, so that an answer with this id, or a disconnect, resolves it.
pub Reach-IsTracked : {s : Stream} → Reach s → IsTracked s.futures
Reach-IsTracked starts = init-IsTracked
Reach-IsTracked (then_step r step) = Step-IsTracked step (Reach-IsTracked r)

-- A disconnect leaves nobody waiting: in every state that a stream reaches, all futures, also those
-- that callers hold, are done after `_monitor_disconnects`, and the stream is not ready.
pub monitor_disconnects-done :
    (s : Stream) (i : ℕ) (f : Future)
    → Reach s
    → get_elem? (monitor_disconnects s).futures.store i ≡ some f
    → (f.result ≢ none) × ((monitor_disconnects s).ready ≡ false)
unfolding monitor_disconnects
monitor_disconnects-done s i f r e =
    (all_done s.futures future_error i f (Reach-IsTracked r) e, refl)
