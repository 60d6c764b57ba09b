-- ===== src/Messaging/Delivery.antt =====
-- What an incoming message does to the futures and to the queue.
use sawtooth_sdk_python.Base.{
  ℕ, ◌≡◌, ◌≢◌, refl, true, Option, none, some, arith, if◌then◌else◌, get_elem?,
}
use sawtooth_sdk_python.Base.Text.{Text, Bytes, text_eq}
use sawtooth_sdk_python.Base.Dict.{lookup, lookup-erase}
use sawtooth_sdk_python.Base.Exec.{Result, ok, then_do}
use sawtooth_sdk_python.Messaging.Future.{
  Future, future_result, get_elem?-set_result, result_after_wait, content,
}
use sawtooth_sdk_python.Messaging.Stream.{Message, Stream, receive_message}
use sawtooth_sdk_python.Messaging.Pending.{Reach, Reach-IsTracked, deliver_known, settled}

-- What `future.result().content` gives for the future at a place, once its wait is over.
pub answer_at : Stream → ℕ → Option (Result Bytes)
answer_at s i = elim (get_elem? s.futures.store i) [
  | none ↦ none
  | some f ↦ some (then_do (result_after_wait f) content)
]

-- The effect of an answer to the future at a place.
pub record Answered (msg : Message) (s : Stream) (place : ℕ) (t : Stream) : Type 0 where
  pub answered : answer_at t place ≡ some (ok msg.content)
  pub others : (i : ℕ) → i ≢ place → get_elem? t.futures.store i ≡ get_elem? s.futures.store i
  pub forgotten :
      (id : Text)
      → lookup id t.futures.collection
        ≡ (if text_eq msg.correlation_id id then none else lookup id s.futures.collection)
  pub queue : t.recv_queue ≡ s.recv_queue

-- A message that arrives at a ready stream with the id of a future that still waits answers that
-- future, and it alone: the caller's `result().content` is the content of the message, every other
-- future is as it was, the collection forgets the id and no other, and the processor does not see
-- the message.
pub receive_message-Answered :
    (msg : Message) (s : Stream) (place : ℕ) (f : Future)
    → Reach s
    → s.ready ≡ true
    → get_elem? s.futures.store place ≡ some f
    → f.result ≡ none
    → f.correlation_id ≡ msg.correlation_id
    → Answered msg s place (receive_message msg s)
unfolding receive_message answer_at result_after_wait content
receive_message-Answered msg s place f r ready here waits same =
    let listed : lookup msg.correlation_id s.futures.collection ≡ some place =
      rw (← same) ((Reach-IsTracked r).pending place f here waits) in
    let delivered : receive_message msg s ≡ settled msg s place =
      ground (arith, deliver_known msg s place listed) in
    rw delivered (record {
      answered = ground (
        arith,
        get_elem?-set_result s.futures.store place place
            (future_result msg.message_type msg.content),
      );
      others = λ i ne. rw get_elem?-set_result (ground arith);
      forgotten =
          λ id. lookup-erase msg.correlation_id id s.futures.collection (Reach-IsTracked r).keyed;
      queue = refl;
    })
