-- ===== src/Consensus/Meanings.antt =====
-- What the messages of a validator mean to the driver of sawtooth_sdk/consensus/zmq_driver.py, and
-- what is to come of a sequence of them.
use sawtooth_sdk_python.Base.{ℕ, ◌≡◌, List, [], ◌∷◌, ◌++◌, if◌then◌else◌, ◌==◌}
use sawtooth_sdk_python.Base.Text.{Text, Bytes}
use sawtooth_sdk_python.Base.Exec.{Exc, Result, ok, raised, receive_error, then_do}
use sawtooth_sdk_python.Processor.Link.{Envelope, ping_request}
use sawtooth_sdk_python.Consensus.Driver.{
  Data, no_data, peer_info, peer_id, block_id, new_block, Notices, Channel, Arrival, timed_out,
  cancelled, reconnect_event, stopped, arrived, read_peer_message,
}

-- A stream and an engine that raise nothing, with the ids that have been acknowledged and whether
-- the engine has been stopped.
pub record Calm {W : Type 0} (channel : Channel W) : Type 0 where
  pub acks : W → List Text
  pub ack_ok :
      (id : Text) (w : W)
      → (w' : W) × (channel.ack id w ≡ (ok tt, w')) × (acks w' ≡ acks w ++ (id ∷ []))
  pub stop_ok : (w : W) → (w' : W) × (channel.engine_stop w ≡ (ok tt, w')) × (acks w' ≡ acks w)
  pub close_ok : (w : W) → (w' : W) × (channel.close w ≡ (ok tt, w')) × (acks w' ≡ acks w)

-- What a message is to the driver: news for the engine, as far as it can be read, the end of its
-- activation, a sign of life, or nothing that it knows.
pub data Meaning : Type 0 where
  news : Result Data → Meaning
  farewell ping unknown : Meaning

abbrev named : (Bytes → Data) → Result Bytes → Result Data
named f r = then_do r (λ x. ok (f x))

unfoldable pub meaning : Notices → Envelope → Meaning
meaning n msg =
    if msg.message_type == 908
    then farewell
    else if msg.message_type == ping_request
    then ping
    else if msg.message_type == 900
    then news (named peer_info (n.parse_peer_connected msg.content))
    else if msg.message_type == 901
    then news (named peer_id (n.parse_peer_disconnected msg.content))
    else if msg.message_type == 902
    then news (read_peer_message n msg.content)
    else if msg.message_type == 903
    then news (then_do (n.parse_block_new msg.content) (λ x. ok (new_block x)))
    else if msg.message_type == 904
    then news (named block_id (n.parse_block_valid msg.content))
    else if msg.message_type == 905
    then news (named block_id (n.parse_block_invalid msg.content))
    else if msg.message_type == 906
    then news (named block_id (n.parse_block_commit msg.content))
    else unknown

-- What is handed to the engine, and the ids that are acknowledged, for a sequence of arrivals.
pub record Outcome : Type 0 where
  pub handed : List (ℕ × Data)
  pub acknowledged : List Text

abbrev pub nothing_more : Outcome
nothing_more = record { handed = []; acknowledged = [] }

abbrev pub one_more : Envelope → Data → Outcome → Outcome
one_more msg x o = record {
  handed = (msg.message_type, x) ∷ o.handed;
  acknowledged = msg.correlation_id ∷ o.acknowledged;
}

abbrev acknowledged_too : Envelope → Outcome → Outcome
acknowledged_too msg o = record o { acknowledged = msg.correlation_id ∷ o.acknowledged }

abbrev pub after_failure : Exc → Outcome → Outcome
after_failure (receive_error status) o = o
after_failure e o = nothing_more

abbrev pub with_meaning : Meaning → Envelope → Outcome → Outcome
with_meaning (news (ok x)) msg o = one_more msg x o
with_meaning (news (raised e)) msg o = after_failure e o
with_meaning farewell msg o = one_more msg no_data nothing_more
with_meaning ping msg o = acknowledged_too msg o
with_meaning unknown msg o = o

unfoldable pub outcome : Notices → List Arrival → Outcome
unfolding meaning
outcome n [] = nothing_more
outcome n (timed_out ∷ arrivals) = outcome n arrivals
outcome n (cancelled ∷ arrivals) = nothing_more
outcome n (reconnect_event ∷ arrivals) = nothing_more
outcome n (stopped ∷ arrivals) = nothing_more
outcome n (arrived msg ∷ arrivals) = with_meaning (meaning n msg) msg (outcome n arrivals)
