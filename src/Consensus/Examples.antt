-- ===== src/Consensus/Examples.antt =====
-- The theorems on sawtooth_sdk/consensus with a validator that knows no block, and with notifications
-- that are read as they are.
use sawtooth_sdk_python.Base.{Option, ℕ, ◌≡◌, refl, false, none, some, List, [], ◌∷◌, ◌++◌, arith}
use sawtooth_sdk_python.Base.Exec.{Result, ok, raised, decode_error}
use sawtooth_sdk_python.Base.Text.{Text, codes}
use sawtooth_sdk_python.Consensus.Service.{Block, Service}
use sawtooth_sdk_python.Consensus.Verdicts.{
  op_commit, perform, request_of, judged, perform-eq-judged,
}
use sawtooth_sdk_python.Consensus.Driver.{
  StartupState, Channel, Notices, Driver, Arrival, arrived, timed_out, block_id, no_data,
  driver_loop, register, wait_until_active,
}
use sawtooth_sdk_python.Consensus.Meanings.{Calm, meaning, outcome}
use sawtooth_sdk_python.Consensus.Updates.{driver_loop-outcome}
use sawtooth_sdk_python.Consensus.Startup.{
  at_once, Registered, is_passed, register-settles, wait_until_active-first,
}

abbrev no_block : Block
no_block = record {
  block_id = [];
  previous_id = [];
  signer_id = [];
  block_num = 0;
  payload = [];
  summary = [];
}

abbrev no_blocks : Service ℕ
no_blocks = record {
  send = λ message_type request timeout w. (
    ok (record {
      status = 5;
      summary = [];
      block_id = [];
      block = no_block;
      blocks = [];
      entries = [];
    }),
    w,
  );
  timeout = 300;
}

perform-eq-judged_example :
    perform no_blocks (op_commit []) 0
    ≡ judged
        (op_commit [])
        (no_blocks.send (request_of (op_commit [])).0 (request_of (op_commit [])).1 300 0)
perform-eq-judged_example = perform-eq-judged no_blocks (op_commit []) 0

-- A stream and an engine that raise nothing; the world is the ids that have been acknowledged.
abbrev calm_channel : Channel (List Text)
calm_channel = record {
  wait_for_ready = λ w. (ok tt, w);
  register =
      λ w. (ok (record { status = 1; chain_head = none; peers = []; local_peer_info = none }), w);
  ack = λ id w. (ok tt, w ++ (id ∷ []));
  engine_stop = λ w. (ok tt, w);
  close = λ w. (ok tt, w);
}

abbrev calm : Calm calm_channel
calm = record {
  acks = λ w. w;
  ack_ok = λ id w. (w ++ (id ∷ []), refl, refl);
  stop_ok = λ w. (w, refl, refl);
  close_ok = λ w. (w, refl, refl);
}

abbrev startup : StartupState
startup = record { chain_head = no_block; peers = []; local_peer_info = [] }

abbrev as_bytes : Notices
as_bytes = record {
  parse_peer_connected = λ b. ok b;
  parse_peer_disconnected = λ b. ok b;
  parse_peer_message = λ b. raised decode_error;
  parse_peer_header = λ b. ok b;
  parse_block_new = λ b. ok no_block;
  parse_block_valid = λ b. ok b;
  parse_block_invalid = λ b. ok b;
  parse_block_commit = λ b. ok b;
  parse_activated = λ b. ok startup;
}

abbrev notice : ℕ → Text → Arrival
notice t id = arrived (record { message_type = t; correlation_id = id; content = codes "b" })

-- A valid block, a ping, an unknown message, a timeout, the deactivation, and another block
abbrev arrivals : List Arrival
arrivals =
    notice 904 (codes "1")
    ∷ notice 700 (codes "2")
    ∷ notice 5 (codes "3")
    ∷ timed_out
    ∷ notice 908 (codes "4")
    ∷ notice 904 (codes "5")
    ∷ []

abbrev fresh : Driver (List Text)
fresh = record { exit = false; updates = []; world = [] }

driver_loop-outcome_example :
    ((driver_loop calm_channel as_bytes arrivals fresh).updates
      ≡ (904, block_id (codes "b")) ∷ (908, no_data) ∷ [])
    × ((driver_loop calm_channel as_bytes arrivals fresh).world
        ≡ codes "1" ∷ codes "2" ∷ codes "4" ∷ [])
unfolding outcome meaning
driver_loop-outcome_example = driver_loop-outcome calm_channel as_bytes calm arrivals fresh refl

register-settles_example :
    (r : Result (Option StartupState)) × (register calm_channel 1 [] ≡ some (r, []))
    × Registered calm_channel
        (record { status = 1; chain_head = none; peers = []; local_peer_info = none })
        r
register-settles_example =
    register-settles calm_channel 0 1 [] [] [] []
      (record { status = 1; chain_head = none; peers = []; local_peer_info = none }) refl at_once
      refl refl (omega arith)

wait_until_active-first_example :
    wait_until_active calm_channel as_bytes
      (timed_out ∷ notice 904 (codes "1") ∷ notice 907 (codes "2") ∷ [])
      []
    ≡ some (ok startup, codes "2" ∷ [], [])
unfolding is_passed
wait_until_active-first_example =
    wait_until_active-first calm_channel as_bytes (timed_out ∷ notice 904 (codes "1") ∷ []) []
      (record { message_type = 907; correlation_id = codes "2"; content = codes "b" }) startup []
      (codes "2" ∷ []) (refl, (refl, tt)) refl refl refl
