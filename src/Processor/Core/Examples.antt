-- ===== src/Processor/Core/Examples.antt =====
-- The theorems on sawtooth_sdk/processor/core.py with a stream that keeps what is sent back.
use sawtooth_sdk_python.Processor.Core.Search.{Found, find_handler-Found}
use sawtooth_sdk_python.Base.{
  ℕ, ◌≡◌, refl, inl, Bool, true, false, none, some, List, [], ◌∷◌, ◌++◌, arith, if◌then◌else◌,
}
use sawtooth_sdk_python.Base.Text.{Text, codes, text_eq}
use sawtooth_sdk_python.Base.Exec.{
  Result, ok, raised, invalid, validator_version_error, validator_connection_error,
}
use sawtooth_sdk_python.Processor.Context.{status_ok, add_ok}
use sawtooth_sdk_python.Processor.Link.{
  Envelope, tp_process_response, Header, ProcessRequest, Response, Link, Protobuf,
  TransactionHandler, raw_style, process_response, invalid_status,
}
use sawtooth_sdk_python.Processor.Core.{
  Processor, mentions, matches, find_handler, header_of, process, unless_disconnected,
}
use sawtooth_sdk_python.Processor.Core.Answers.{answer, escape, Recorded, process-Ends}
use sawtooth_sdk_python.Processor.Core.Loop.{timed_out, received, drain, start}
use sawtooth_sdk_python.Processor.Core.Register.{
  register_requests, requests_for, send_all, check_response, await_one, await_all, register,
  unregister,
}
use sawtooth_sdk_python.Processor.Core.Shutdown.{drain_total, start_spins}

record Wire : Type 0 where
  ready : Bool
  sent : List (ℕ × Text × Response)

abbrev on_wire : ℕ → Text → Response → Wire → Result (Unit {0}) × Wire
on_wire t id r w =
    if w.ready
    then (ok tt, record w { sent = w.sent ++ ((t, id, r) ∷ []) })
    else (raised validator_connection_error, w)

-- A validator without state, which supports no feature of the SDK.
abbrev wire : Link Wire
wire = record {
  peer = record {
    state_get = λ c addresses t w. (ok (record { status = status_ok; entries = [] }), w);
    state_set = λ c entries t w. (ok (record { status = status_ok; addresses = [] }), w);
    state_delete = λ c addresses t w. (ok (record { status = status_ok; addresses = [] }), w);
    receipt_add_data = λ c d t w. (ok add_ok, w);
    event_add = λ c e t w. (ok add_ok, w);
  };
  is_ready = λ w. w.ready;
  wait_for_ready = λ w. (ok tt, record w { ready = true });
  send_back = on_wire;
  send_register = λ r w. (ok [], w);
  register_result = λ f w. (ok (record { is_error = false; protocol_version = 0 }), w);
  send_unregister = λ w. (ok [], w);
  unregister_result = λ f t w. (ok tt, w);
  close = λ w. (ok tt, w);
}

abbrev recorded_wire : Recorded wire
recorded_wire = record {
  sent = λ w. w.sent;
  send_back_ready =
      λ t id r w h. (record w { sent = w.sent ++ ((t, id, r) ∷ []) }, rw h refl, refl);
  send_back_lost = λ t id r w h. rw h refl;
}

abbrev header : Header
header = record { family_name = codes "f"; family_version = codes "1.0"; signer_public_key = [] }

abbrev request : ProcessRequest
request = record { header = header; header_bytes = []; payload = []; context_id = [] }

abbrev protobuf : Protobuf
protobuf = record {
  has_name = λ t. true;
  parse_process_request = λ b. ok request;
  parse_header = λ b. ok header;
}

-- A handler that accepts no transaction
abbrev strict : TransactionHandler Wire
strict = record {
  family_name = codes "f";
  family_versions = codes "1.0" ∷ [];
  namespaces = [];
  apply = λ r c w. (raised (invalid "no" []), w);
}

abbrev processor : Processor Wire
processor = record {
  handlers = strict ∷ [];
  highest_sdk_feature_requested = 1;
  header_style = raw_style;
}

abbrev idle : Wire
idle = record { ready = true; sent = [] }

abbrev envelope : Envelope
envelope = record { message_type = 5; correlation_id = codes "7"; content = [] }

strict_found : find_handler processor.handlers header ≡ some strict
unfolding find_handler matches mentions text_eq
strict_found = refl

header_read : header_of wire protobuf raw_style request ≡ ok header
unfolding header_of
header_read = refl

process-Ends_example :
    ((process wire protobuf processor envelope idle).0 ≡ escape (raised (invalid "no" [])))
    × ((process wire protobuf processor envelope idle).1.sent
        ≡ []
          ++ ((
            tp_process_response,
            codes "7",
            process_response invalid_status (some (record { template = "no"; args = [] })) none,
          )
              ∷ []))
unfolding answer
process-Ends_example =
    process-Ends wire protobuf recorded_wire processor envelope idle idle refl refl header_read refl
      strict_found refl refl

find_handler-Found_example : Found header (strict ∷ []) (find_handler (strict ∷ []) header)
find_handler-Found_example = find_handler-Found (strict ∷ []) header

drain_total_example :
    (out : Result (Unit {0}) × Wire) × (drain wire protobuf processor 3
        (some timed_out)
        (received envelope ∷ [])
        idle
      ≡ some out)
drain_total_example =
    drain_total wire protobuf processor 3 timed_out (received envelope ∷ []) idle (omega arith)

refused : register wire processor idle ≡ (raised validator_version_error, idle)
unfolding register register_requests requests_for send_all check_response await_one await_all
    unless_disconnected
refused = refl

unregistered : unregister wire idle ≡ (ok tt, idle)
unfolding unregister unless_disconnected
unregistered = refl

start_spins_example : start wire protobuf processor 100 (received envelope ∷ []) idle ≡ none
start_spins_example =
    start_spins wire protobuf processor 100 (received envelope ∷ []) validator_version_error idle
      (inl refl) refused unregistered
