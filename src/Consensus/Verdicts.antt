-- ===== src/Consensus/Verdicts.antt =====
-- Every operation of the service against one table: which statuses it turns into which exceptions.
use sawtooth_sdk_python.Base.{ℕ, ◌≡◌, Option, none, some, List, [], ◌∷◌, if◌then◌else◌, ◌==◌, arith}
use sawtooth_sdk_python.Base.Text.{Text, Bytes, is_empty}
use sawtooth_sdk_python.Base.Dict.{Dict}
use sawtooth_sdk_python.Base.Exec.{
  Exc, Result, ok, raised, invalid_state, unknown_block, block_not_ready, no_chain_head,
  receive_error,
}
use sawtooth_sdk_python.Consensus.Service.{
  Block, Request, send_to_request, broadcast_request, initialize_block_request,
  summarize_block_request, cancel_block_request, chain_head_get_request, finalize_block_request,
  check_blocks_request, blocks_get_request, commit_block_request, ignore_block_request,
  fail_block_request, settings_get_request, state_get_request, Response, Service, blocks_by_id,
  entries_by_key, initialize_request, send_to, broadcast, initialize_block, summarize_block,
  finalize_block, cancel_block, check_blocks, commit_block, ignore_block, fail_block, get_blocks,
  get_chain_head, get_settings, get_state,
}

-- The operations, with their arguments.
pub data Op : Type 0 where
  op_send_to : Bytes → Text → Bytes → Op
  op_broadcast : Text → Bytes → Op
  op_initialize : Option Bytes → Op
  op_summarize op_cancel op_chain_head : Op
  op_finalize op_commit op_ignore op_fail : Bytes → Op
  op_check op_get_blocks : List Bytes → Op
  op_settings op_state : Bytes → List Text → Op

-- What they return.
pub data Value : Type 0 where
  nothing : Value
  bytes : Bytes → Value
  block : Block → Value
  blocks : Dict Block → Value
  texts : Dict Text → Value

abbrev as_value : {A : Type 0} → (A → Value) → {W : Type 0} → Result A × W → Result Value × W
as_value f (ok a, w) = (ok (f a), w)
as_value f (raised e, w) = (raised e, w)

module _ {W : Type 0} (service : Service W) where
  -- The method that an operation stands for.
  pub perform : Op → W → Result Value × W
  unfolding send_to broadcast initialize_block summarize_block finalize_block cancel_block
      check_blocks commit_block ignore_block fail_block get_blocks get_chain_head get_settings
      get_state
  perform (op_send_to r t p) w = as_value (λ _. nothing) (send_to service r t p w)
  perform (op_broadcast t p) w = as_value (λ _. nothing) (broadcast service t p w)
  perform (op_initialize p) w = as_value (λ _. nothing) (initialize_block service p w)
  perform op_summarize w = as_value bytes (summarize_block service w)
  perform op_cancel w = as_value (λ _. nothing) (cancel_block service w)
  perform op_chain_head w = as_value block (get_chain_head service w)
  perform (op_finalize d) w = as_value bytes (finalize_block service d w)
  perform (op_commit b) w = as_value (λ _. nothing) (commit_block service b w)
  perform (op_ignore b) w = as_value (λ _. nothing) (ignore_block service b w)
  perform (op_fail b) w = as_value (λ _. nothing) (fail_block service b w)
  perform (op_check bs) w = as_value (λ _. nothing) (check_blocks service bs w)
  perform (op_get_blocks bs) w = as_value blocks (get_blocks service bs w)
  perform (op_settings b ks) w = as_value texts (get_settings service b ks w)
  perform (op_state b ks) w = as_value texts (get_state service b ks w)

-- The type of the message of an operation, and the request.
pub request_of : Op → ℕ × Request
unfolding initialize_request
request_of (op_send_to r t p) = (802, send_to_request r t p)
request_of (op_broadcast t p) = (804, broadcast_request t p)
request_of (op_initialize none) = (806, initialize_block_request none)
request_of (op_initialize (some [])) = (806, initialize_block_request none)
request_of (op_initialize (some (b ∷ id))) = (806, initialize_block_request (some (b ∷ id)))
request_of op_summarize = (828, summarize_block_request)
request_of op_cancel = (810, cancel_block_request)
request_of op_chain_head = (826, chain_head_get_request)
request_of (op_finalize d) = (808, finalize_block_request d)
request_of (op_commit b) = (814, commit_block_request b)
request_of (op_ignore b) = (816, ignore_block_request b)
request_of (op_fail b) = (818, fail_block_request b)
request_of (op_check bs) = (812, check_blocks_request bs)
request_of (op_get_blocks bs) = (824, blocks_get_request bs)
request_of (op_settings b ks) = (820, settings_get_request b ks)
request_of (op_state b ks) = (822, state_get_request b ks)

-- The exceptions of its own that an operation has for the statuses 5 and 6.
pub faults : Op → Option Exc × Option Exc
faults (op_initialize p) = (some invalid_state, some unknown_block)
faults op_summarize = (some invalid_state, some block_not_ready)
faults (op_finalize d) = (some invalid_state, some block_not_ready)
faults op_cancel = (some invalid_state, none)
faults op_chain_head = (some no_chain_head, none)
faults (op_send_to r t p) = (none, none)
faults (op_broadcast t p) = (none, none)
faults _ = (some unknown_block, none)

pub value_of : Op → Response → Value
value_of op_summarize r = bytes r.summary
value_of (op_finalize d) r = bytes r.block_id
value_of op_chain_head r = block r.block
value_of (op_get_blocks bs) r = blocks (blocks_by_id [] r.blocks)
value_of (op_settings b ks) r = texts (entries_by_key [] r.entries)
value_of (op_state b ks) r = texts (entries_by_key [] r.entries)
value_of _ r = nothing

abbrev or_else : Option Exc → Exc → Exc
or_else none e = e
or_else (some f) e = f

pub verdict : Op → Response → Result Value
unfolding faults value_of
verdict op r =
    if r.status == 1
    then ok (value_of op r)
    else if r.status == 5
    then raised (or_else (faults op).0 (receive_error 5))
    else if r.status == 6
    then raised (or_else (faults op).1 (receive_error 6))
    else raised (receive_error r.status)

abbrev pub judged : {W : Type 0} → Op → Result Response × W → Result Value × W
judged op (ok r, w) = (verdict op r, w)
judged op (raised e, w) = (raised e, w)

module _ {W : Type 0} (service : Service W) where
  -- Every operation sends its one request, with the timeout of the service, and returns exactly if
  -- the status is OK; statuses 5 and 6 become the exceptions of the table, and all others, unknown
  -- ones too, a ReceiveError with the status. What the exchange itself raises goes on.
  pub perform-eq-judged :
      (op : Op) (w : W)
      → perform service op w
        ≡ judged op (service.send (request_of op).0 (request_of op).1 service.timeout w)
  unfolding perform verdict request_of initialize_request is_empty
  perform-eq-judged (op_send_to r t p) w = ground arith
  perform-eq-judged (op_initialize none) w = ground arith
  perform-eq-judged (op_initialize (some [])) w = ground arith
  perform-eq-judged (op_initialize (some (b ∷ id))) w = ground arith
  perform-eq-judged _ w = ground arith
