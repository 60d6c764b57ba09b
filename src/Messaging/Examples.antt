-- ===== src/Messaging/Examples.antt =====
-- The theorems on sawtooth_sdk/messaging at a stream with one future.
use sawtooth_sdk_python.Base.{◌≡◌, ◌≢◌, refl, true, false, none, some, [], get_elem?}
use sawtooth_sdk_python.Base.Text.{codes}
use sawtooth_sdk_python.Base.Dict.{lookup, insert}
use sawtooth_sdk_python.Messaging.Delivery.{Answered, receive_message-Answered}
use sawtooth_sdk_python.Messaging.Future.{Future, future_error, resolve_all, set_result}
use sawtooth_sdk_python.Messaging.Tracked.{IsTracked}
use sawtooth_sdk_python.Messaging.Pending.{
  Reach, starts, then_step, connects, sends, Reach-IsTracked, monitor_disconnects-done,
}
use sawtooth_sdk_python.Messaging.Stream.{
  Message, Stream, init, connect, send, put_message, receive_message, monitor_disconnects,
}

abbrev waiting : Future
waiting = record { correlation_id = codes "7"; result = none; request_type = some 7 }

-- The stream of a program that has connected and sent one request
abbrev asking : Stream
asking = (send 7 [] (codes "7") (connect init)).1

asking-Reach : Reach asking
unfolding connect lookup
asking-Reach =
    then_step (then_step starts connects) (sends 7 [] (codes "7") refl (λ h. absurd (cc)))

waiting_held : get_elem? asking.futures.store 0 ≡ some waiting
unfolding send put_message connect
waiting_held = refl

asking_ready : asking.ready ≡ true
unfolding send put_message connect
asking_ready = refl

abbrev answer : Message
answer = record { message_type = 8; correlation_id = codes "7"; content = codes "yes" }

Reach-IsTracked_example : IsTracked asking.futures
Reach-IsTracked_example = Reach-IsTracked asking-Reach

receive_message-Answered_example : Answered answer asking 0 (receive_message answer asking)
receive_message-Answered_example =
    receive_message-Answered answer asking 0 waiting asking-Reach asking_ready waiting_held refl
      refl

abbrev told : Future
told = record waiting { result = some future_error }

told_held : get_elem? (monitor_disconnects asking).futures.store 0 ≡ some told
unfolding send put_message connect insert monitor_disconnects resolve_all set_result
told_held = refl

monitor_disconnects-done_example :
    (told.result ≢ none) × ((monitor_disconnects asking).ready ≡ false)
monitor_disconnects-done_example = monitor_disconnects-done asking 0 told asking-Reach told_held
