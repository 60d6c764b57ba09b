-- ===== src/Messaging/Stream.antt =====
-- sawtooth_sdk/messaging/stream.py: `Stream` and its thread, as steps on one state. The steps are
-- atomic: what several threads do within one of them is not modelled, and nor are the sockets.
use sawtooth_sdk_python.Base.{
  ℕ, Bool, true, false, not, Option, none, some, List, [], ◌∷◌, ◌++◌, if◌then◌else◌, length,
}
use sawtooth_sdk_python.Base.Text.{Text, Bytes}
use sawtooth_sdk_python.Base.Dict.{insert}
use sawtooth_sdk_python.Base.Exec.{Result, ok, raised, validator_connection_error}
use sawtooth_sdk_python.Messaging.Future.{
  Futures, future_result, future_error, resolve, remove, resolve_all,
}

pub record Message : Type 0 where
  pub message_type : ℕ
  pub correlation_id : Text
  pub content : Bytes

-- The items of the receive queue: RECONNECT_EVENT, or a message.
pub data Item : Type 0 where
  reconnect_event : Item
  message : Message → Item

-- `_ready_event`, the two queues, `first_time` of `run`, and the futures.
pub record Stream : Type 0 where
  pub ready : Bool
  pub send_queue : Option (List Message)
  pub recv_queue : Option (List Item)
  pub first_time : Bool
  pub futures : Futures

abbrev pub put_nowait : {A : Type 0} → A → Option (List A) → Option (List A)
put_nowait a none = none
put_nowait a (some queue) = some (queue ++ (a ∷ []))

-- `put_message`: nothing is done while the stream is not ready. The step begins when the queue is
-- there, for which the source waits.
unfoldable pub put_message : Message → Stream → Stream
put_message msg s = if not s.ready then s else record s { send_queue = put_nowait msg s.send_queue }

-- `Stream.send`, with the id that `_generate_id` gives; the result is the place of the future.
unfoldable pub send : ℕ → Bytes → Text → Stream → Result ℕ × Stream
unfolding put_message
send message_type content id s = if not s.ready then (raised validator_connection_error, s) else (
  ok (length s.futures.store),
  put_message (record { message_type = message_type; correlation_id = id; content = content })
      (record s {
        futures = record {
          store =
              s.futures.store
              ++ (record { correlation_id = id; result = none; request_type = some message_type }
                  ∷ []);
          collection = insert id (length s.futures.store) s.futures.collection;
        };
      }),
)

-- `Stream.send_back`
unfoldable pub send_back : ℕ → Text → Bytes → Stream → Result (Unit {0}) × Stream
unfolding put_message
send_back message_type id content s =
    if not s.ready then (raised validator_connection_error, s) else (
      ok tt,
      put_message (record { message_type = message_type; correlation_id = id; content = content })
          s,
    )

-- The `except FutureCollectionKeyError` of `_receive_message`
unfoldable pub queue_initial : Message → Stream → Stream
queue_initial msg s =
    if not s.ready then s else record s { recv_queue = put_nowait (message msg) s.recv_queue }

-- `set_result` and `remove` of `_receive_message`; a KeyError of either leads to the `except`.
unfoldable pub deliver : Message → Stream → Stream
unfolding resolve remove queue_initial
deliver msg s =
    let (r, c) =
      resolve msg.correlation_id (future_result msg.message_type msg.content) s.futures in
    elim r [
      | ok u ↦ record s { futures = (remove msg.correlation_id c).1 }
      | raised e ↦ queue_initial msg s
    ]

-- One round of `_receive_message`
unfoldable pub receive_message : Message → Stream → Stream
unfolding deliver
receive_message msg s = if not s.ready then s else deliver msg s

-- `_monitor_disconnects`: the futures of the collection are resolved, and stay in it.
unfoldable pub monitor_disconnects : Stream → Stream
unfolding resolve_all
monitor_disconnects s = record s {
  ready = false;
  send_queue = none;
  recv_queue = none;
  futures = record {
    store = resolve_all s.futures.collection future_error s.futures.store;
    collection = s.futures.collection;
  };
}

-- One round of `run` until the event loop runs: new queues, the reconnect event unless this is the
-- first time, and then the ready event.
unfoldable pub connect : Stream → Stream
connect s = record s {
  ready = true;
  send_queue = some [];
  recv_queue = some (if s.first_time then [] else reconnect_event ∷ []);
  first_time = false;
}

-- The stream before the thread runs
abbrev pub init : Stream
init = record {
  ready = true;
  send_queue = none;
  recv_queue = none;
  first_time = true;
  futures = record { store = []; collection = [] };
}
