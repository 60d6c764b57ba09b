-- ===== src/Processor/Core/Loop.antt =====
-- sawtooth_sdk/processor/core.py: `_process_future`, `start` and `stop`, over a sequence of what the
-- futures of `receive` resolve to. The loops that wait for ever take fuel.
use sawtooth_sdk_python.Base.{
  ℕ, zero, suc, Bool, true, false, Option, none, some, List, [], ◌∷◌, if◌then◌else◌, ◌==◌,
}
use sawtooth_sdk_python.Base.Exec.{
  Exc, Exec, Result, ok, raised, pure, raise, ◌>>◌, validator_version_error, runtime_error,
  keyboard_interrupt, timeout_error, future_timeout_error,
}
use sawtooth_sdk_python.Processor.Link.{Envelope, ping_request, ping_response, ping, Link, Protobuf}
use sawtooth_sdk_python.Processor.Core.{Processor, type_name, process}
use sawtooth_sdk_python.Processor.Core.Register.{register, unregister}

-- What a call of `future.result` gives: CancelledError, TimeoutError, RECONNECT_EVENT, a message; or
-- a KeyboardInterrupt, with what the same future gives to the next call.
pub data Received : Type 0 where
  cancelled timed_out reconnect_event : Received
  received : Envelope → Received
  interrupted : Received → Received

-- The same future, asked once more.
abbrev pub asked_again : Received → Received
asked_again (interrupted r) = r
asked_again cancelled = cancelled
asked_again timed_out = timed_out
asked_again reconnect_event = reconnect_event
asked_again (received msg) = received msg

-- What follows a call that returned, and what follows one that raised.
abbrev pub either : {W X : Type 0} → Result (Unit {0}) × W → (W → X) → (Exc → W → X) → X
either (ok u, w) f g = f w
either (raised e, w) f g = g e w

module _ {W : Type 0} (link : Link W) (protobuf : Protobuf) (p : Processor W) where
  unfoldable pub process_message : Envelope → Exec W (Unit {0})
  unfolding type_name
  process_message msg = do
    type_name link protobuf msg.message_type
    if msg.message_type == ping_request
        then link.send_back ping_response msg.correlation_id ping
        else process link protobuf p msg

  -- `_process_future`
  unfoldable pub process_future : Bool → Received → Exec W (Unit {0})
  unfolding process_message
  process_future sigint cancelled = pure tt
  process_future sigint timed_out = raise timeout_error
  process_future sigint (interrupted r) = raise keyboard_interrupt
  process_future sigint reconnect_event =
      if sigint then pure tt else (do link.wait_for_ready; register link p)
  process_future sigint (received msg) = process_message msg

  -- How the loop of `start` was left: the exception, `fut`, and what has not been received.
  pub record Left : Type 0 where
    pub outcome : Result (Unit {0})
    pub fut : Option Received
    pub rest : List Received
    pub world : W

  -- `while True: fut = receive(); _process_future(fut)`; at the end of the sequence it still waits.
  unfoldable pub main_loop : Option Received → List Received → W → Left
  unfolding process_future
  main_loop fut [] w = record { outcome = ok tt; fut = fut; rest = []; world = w }
  main_loop fut (r ∷ rest) w =
      either (process_future false r w) (λ w'. main_loop (some r) rest w')
        (λ e w'. record { outcome = raised e; fut = some r; rest = rest; world = w' })

  -- The next future of the loop after an interrupt; with nothing more to receive it times out.
  abbrev pub next_of : List Received → Received
  next_of [] = timed_out
  next_of (r ∷ rest) = r

  abbrev pub rest_of : List Received → List Received
  rest_of [] = []
  rest_of (r ∷ rest) = rest

  -- `except TimeoutError: pass` and `except FutureTimeoutError: pass`
  unfoldable pub end_shutdown : Result (Unit {0}) × W → Result (Unit {0}) × W
  end_shutdown (raised timeout_error, w) = (ok tt, w)
  end_shutdown (raised future_timeout_error, w) = (ok tt, w)
  end_shutdown out = out

  -- The second loop of `start`; `none` means that the fuel ran out.
  unfoldable pub drain : ℕ → Option Received → List Received → W → Option (Result (Unit {0}) × W)
  unfolding process_future end_shutdown
  drain zero fut rest w = none
  drain (suc fuel) none rest w = drain fuel none rest w
  drain (suc fuel) (some r) rest w =
      either (process_future true r w) (λ w'. drain fuel (some (next_of rest)) (rest_of rest) w')
        (λ e w'. some (end_shutdown (raised e, w')))

  abbrev pub ask_again : Option Received → Option Received
  ask_again none = none
  ask_again (some r) = some (asked_again r)

  -- The handler of KeyboardInterrupt and ValidatorVersionError
  unfoldable pub shut_down :
      ℕ → Option Received → List Received → W → Option (Result (Unit {0}) × W)
  unfolding drain end_shutdown
  shut_down fuel fut rest w =
      either (unregister link w) (λ w'. drain fuel (ask_again fut) rest w')
        (λ e w'. some (end_shutdown (raised e, w')))

  -- The `except` clauses of `start`
  unfoldable pub leave : ℕ → Left → Option (Result (Unit {0}) × W)
  unfolding shut_down
  leave fuel l = elim l.outcome [
    | raised keyboard_interrupt ↦ shut_down fuel l.fut l.rest l.world
    | raised validator_version_error ↦ shut_down fuel l.fut l.rest l.world
    | raised runtime_error ↦ some (link.close l.world)
    | _ ↦ some (l.outcome, l.world)
  ]

  -- `start`; the result `ok` with a world is that of a processor that still listens, or has ended.
  unfoldable pub start : ℕ → List Received → W → Option (Result (Unit {0}) × W)
  unfolding main_loop leave
  start fuel incoming w =
      either (register link p w) (λ w'. leave fuel (main_loop none incoming w'))
        (λ e w'.
          leave fuel (record { outcome = raised e; fut = none; rest = incoming; world = w' }))
