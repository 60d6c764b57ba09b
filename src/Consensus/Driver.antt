-- ===== src/Consensus/Driver.antt =====
-- sawtooth_sdk/consensus/zmq_driver.py: `ZmqDriver`. The engine, the stream and the protocol buffers
-- are parameters; what arrives is a sequence, in the order in which `receive` gives it.
use sawtooth_sdk_python.Base.{
  ℕ, zero, suc, Bool, true, Option, none, some, List, [], ◌∷◌, ◌++◌, if◌then◌else◌, ◌==◌,
}
use sawtooth_sdk_python.Base.Text.{Text, Bytes}
use sawtooth_sdk_python.Base.Exec.{
  Exec, Result, ok, raised, pure, raise, lift, ◌>>=◌, ◌>>◌, then_do, receive_error, attribute_error,
  cancelled_error,
}
use sawtooth_sdk_python.Processor.Link.{Envelope, ping_request}
use sawtooth_sdk_python.Consensus.Service.{Block}

-- StartupState of sawtooth_sdk/consensus/engine.py; the infos of peers are kept as they come.
pub record StartupState : Type 0 where
  pub chain_head : Block
  pub peers : List Bytes
  pub local_peer_info : Bytes

-- PeerMessage of sawtooth_sdk/consensus/engine.py; the parsed header is kept as its own bytes.
pub record PeerMessage : Type 0 where
  pub header : Bytes
  pub header_bytes : Bytes
  pub header_signature : Bytes
  pub content : Bytes

-- The fields of ConsensusNotifyPeerMessage
pub record PeerNotice : Type 0 where
  pub message_header : Bytes
  pub header_signature : Bytes
  pub content : Bytes
  pub sender_id : Bytes

-- What `_process` returns beside the type.
pub data Data : Type 0 where
  no_data : Data
  peer_info peer_id block_id : Bytes → Data
  peer_message : PeerMessage → Bytes → Data
  new_block : Block → Data

-- ConsensusRegisterResponse: HasField is `some`.
pub record RegisterReply : Type 0 where
  pub status : ℕ
  pub chain_head : Option Block
  pub peers : List Bytes
  pub local_peer_info : Option Bytes

-- `ParseFromString` of the notifications
pub record Notices : Type 0 where
  pub parse_peer_connected : Bytes → Result Bytes
  pub parse_peer_disconnected : Bytes → Result Bytes
  pub parse_peer_message : Bytes → Result PeerNotice
  pub parse_peer_header : Bytes → Result Bytes
  pub parse_block_new : Bytes → Result Block
  pub parse_block_valid : Bytes → Result Bytes
  pub parse_block_invalid : Bytes → Result Bytes
  pub parse_block_commit : Bytes → Result Bytes
  pub parse_activated : Bytes → Result StartupState

-- `register` sends the request, with what the engine says of itself, and waits for the reply; `ack`
-- sends CONSENSUS_NOTIFY_ACK back under an id.
pub record Channel (W : Type 0) : Type 0 where
  pub wait_for_ready : Exec W (Unit {0})
  pub register : Exec W RegisterReply
  pub ack : Text → Exec W (Unit {0})
  pub engine_stop : Exec W (Unit {0})
  pub close : Exec W (Unit {0})

-- `_exit`, `_updates`, and the world of the stream and the engine
pub record Driver (W : Type 0) : Type 0 where
  pub exit : Bool
  pub updates : List (ℕ × Data)
  pub world : W

-- What `future.result(1)` comes to: TimeoutError, CancelledError, RECONNECT_EVENT, which is a number and has no
-- `message_type`, or a message. `stopped` is a call of `stop` by the thread of `start`; one that
-- happens while the loop waits is put after the round, which does not read `_exit`.
pub data Arrival : Type 0 where
  timed_out cancelled reconnect_event stopped : Arrival
  arrived : Envelope → Arrival

module _ (notices : Notices) where
  -- The message of a peer, whose header is parsed on its own
  unfoldable pub read_peer_message : Bytes → Result Data
  read_peer_message content = then_do (notices.parse_peer_message content) (λ n.
      then_do (notices.parse_peer_header n.message_header) (λ header. ok (
        peer_message
          (record {
            header = header;
            header_bytes = n.message_header;
            header_signature = n.header_signature;
            content = n.content;
          })
          n.sender_id)))

module _ {W : Type 0} (channel : Channel W) where
  -- A call on the stream or the engine
  abbrev pub on_world : {A : Type 0} → Exec W A → Exec (Driver W) A
  on_world m d = let (r, w) = m d.world in (r, record d { world = w })

  abbrev pub set_exit : Exec (Driver W) (Unit {0})
  set_exit d = (ok tt, record d { exit = true })

  -- `stop`
  unfoldable pub stop : Exec (Driver W) (Unit {0})
  stop = do set_exit; on_world channel.engine_stop; on_world channel.close

  -- What a reply with status OK says, for a validator of version 1.1 or a newer one
  unfoldable pub startup_of : RegisterReply → Option StartupState
  startup_of reply = elim reply.chain_head [
    | none ↦ none
    | some head ↦ elim reply.local_peer_info [
      | none ↦ none
      | some info ↦ some (record { chain_head = head; peers = reply.peers; local_peer_info = info })
    ]
  ]

  -- A reply, at what another round of the loop would give
  unfoldable pub on_reply :
      Option (Result (Option StartupState) × W)
      → Result RegisterReply × W
      → Option (Result (Option StartupState) × W)
  unfolding startup_of
  on_reply again (raised e, w) = some (raised e, w)
  on_reply again (ok reply, w) =
      if reply.status == 4
      then again
      else if reply.status == 1
      then some (ok (startup_of reply), w)
      else some (raised (receive_error reply.status), w)

  -- The loop of `_register`; `none` means that the fuel ran out.
  unfoldable pub register_loop : ℕ → W → Option (Result (Option StartupState) × W)
  unfolding on_reply
  register_loop zero w = none
  register_loop (suc fuel) w =
      let again = register_loop fuel (channel.register w).1 in on_reply again (channel.register w)

  abbrev when_ready :
      Result (Unit {0}) × W
      → (W → Option (Result (Option StartupState) × W))
      → Option (Result (Option StartupState) × W)
  when_ready (ok u, w) next = next w
  when_ready (raised e, w) next = some (raised e, w)

  -- `_register`
  unfoldable pub register : ℕ → W → Option (Result (Option StartupState) × W)
  unfolding register_loop
  register fuel w = when_ready (channel.wait_for_ready w) (register_loop fuel)

  module _ (notices : Notices) where
    -- The branches of `_process`, up to `send_back`
    unfoldable pub read_notice : Envelope → Exec (Driver W) Data
    unfolding read_peer_message stop
    read_notice msg =
        if msg.message_type == 900
        then lift (then_do (notices.parse_peer_connected msg.content) (λ x. ok (peer_info x)))
        else if msg.message_type == 901
        then lift (then_do (notices.parse_peer_disconnected msg.content) (λ x. ok (peer_id x)))
        else if msg.message_type == 902
        then lift (read_peer_message notices msg.content)
        else if msg.message_type == 903
        then lift (then_do (notices.parse_block_new msg.content) (λ x. ok (new_block x)))
        else if msg.message_type == 904
        then lift (then_do (notices.parse_block_valid msg.content) (λ x. ok (block_id x)))
        else if msg.message_type == 905
        then lift (then_do (notices.parse_block_invalid msg.content) (λ x. ok (block_id x)))
        else if msg.message_type == 906
        then lift (then_do (notices.parse_block_commit msg.content) (λ x. ok (block_id x)))
        else if msg.message_type == 908
        then (do stop; pure no_data)
        else if msg.message_type == ping_request
        then pure no_data
        else raise (receive_error msg.message_type)

    -- `_process`
    unfoldable pub process_notice : Envelope → Exec (Driver W) (ℕ × Data)
    unfolding read_notice
    process_notice msg = do
      data_read ← read_notice msg
      on_world (channel.ack msg.correlation_id)
      pure (msg.message_type, data_read)

    -- `self._updates.put(result)`, unless the message was a ping
    unfoldable pub put_update : ℕ × Data → Driver W → Driver W
    put_update (tag, x) d =
        if tag == ping_request then d else record d { updates = d.updates ++ ((tag, x) ∷ []) }

    -- How a round goes on: with the next one, also after ReceiveError, or with the end of the loop
    -- after any other exception, which is logged.
    unfoldable pub after_process : Result (ℕ × Data) × Driver W → (Driver W → Driver W) → Driver W
    unfolding put_update
    after_process (ok result, d) next = next (put_update result d)
    after_process (raised (receive_error status), d) next = next d
    after_process (raised e, d) next = d

    -- `_driver_loop`; at the end of the sequence it still waits.
    unfoldable pub driver_loop : List Arrival → Driver W → Driver W
    unfolding process_notice after_process
    driver_loop [] d = if d.exit then (on_world channel.engine_stop d).1 else d
    driver_loop (arrival ∷ arrivals) d =
        if d.exit then (on_world channel.engine_stop d).1 else elim arrival [
          | timed_out ↦ driver_loop arrivals d
          | cancelled ↦ d
          | reconnect_event ↦ d
          | stopped ↦ driver_loop arrivals (stop d).1
          | arrived msg ↦ after_process (process_notice msg d) (driver_loop arrivals)
        ]

    -- `_wait_until_active`, with what has not arrived yet; `none` means that it still waits.
    unfoldable pub wait_until_active :
        List Arrival → W → Option (Result StartupState × W × List Arrival)
    wait_until_active [] w = none
    wait_until_active (timed_out ∷ arrivals) w = wait_until_active arrivals w
    wait_until_active (stopped ∷ arrivals) w = wait_until_active arrivals w
    wait_until_active (cancelled ∷ arrivals) w = some (raised cancelled_error, w, arrivals)
    wait_until_active (reconnect_event ∷ arrivals) w = some (raised attribute_error, w, arrivals)
    wait_until_active (arrived msg ∷ arrivals) w =
        let later = wait_until_active arrivals w in
        if msg.message_type == 907
        then some (
            let (r, w') =
              (do
                startup ← lift (notices.parse_activated msg.content)
                channel.ack msg.correlation_id
                pure startup)
                w in
            (r, w', arrivals))
        else later
