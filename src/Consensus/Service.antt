-- ===== src/Consensus/Service.antt =====
-- sawtooth_sdk/consensus/zmq_service.py: `ZmqService`, the requests of an engine to the validator.
use sawtooth_sdk_python.Base.{ℕ, not, Option, none, some, List, [], ◌∷◌, if◌then◌else◌, ◌==◌}
use sawtooth_sdk_python.Base.Text.{Text, Bytes, is_empty}
use sawtooth_sdk_python.Base.Dict.{Dict, insert}
use sawtooth_sdk_python.Base.Exec.{
  Exec, pure, raise_if, ◌>>=◌, ◌>>◌, invalid_state, unknown_block, block_not_ready, no_chain_head,
  receive_error,
}

-- `Block` of sawtooth_sdk/consensus/service.py, whose constructor copies the fields of a
-- ConsensusBlock
pub record Block : Type 0 where
  pub block_id : Bytes
  pub previous_id : Bytes
  pub signer_id : Bytes
  pub block_num : ℕ
  pub payload : Bytes
  pub summary : Bytes

-- The request messages, by their fields.
pub data Request : Type 0 where
  send_to_request : Bytes → Text → Bytes → Request
  broadcast_request : Text → Bytes → Request
  initialize_block_request : Option Bytes → Request
  summarize_block_request cancel_block_request chain_head_get_request : Request
  finalize_block_request : Bytes → Request
  check_blocks_request blocks_get_request : List Bytes → Request
  commit_block_request ignore_block_request fail_block_request : Bytes → Request
  settings_get_request : Bytes → List Text → Request
  state_get_request : Bytes → List Text → Request

-- The fields of the responses; each type of response has some of them.
pub record Response : Type 0 where
  pub status : ℕ
  pub summary : Bytes
  pub block_id : Bytes
  pub block : Block
  pub blocks : List Block
  pub entries : List (Text × Text)

-- `_send`: what `self._stream.send(type, request).result(self._timeout).content` and the parsing of
-- it come to. The arguments are the type of the message, the request and the timeout.
pub record Service (W : Type 0) : Type 0 where
  pub send : ℕ → Request → ℕ → Exec W Response
  pub timeout : ℕ

-- `response_type.OK`, the same number in every response type
abbrev pub status_ok : ℕ
status_ok = 1

-- `{block.block_id: Block(block) for block in blocks}` and `{entry.key: entry.value for …}`: a later
-- entry takes the place of an earlier one under its key.
unfoldable pub blocks_by_id : Dict Block → List Block → Dict Block
blocks_by_id d [] = d
blocks_by_id d (b ∷ blocks) = blocks_by_id (insert b.block_id b d) blocks

unfoldable pub entries_by_key : Dict Text → List (Text × Text) → Dict Text
entries_by_key d [] = d
entries_by_key d ((k, v) ∷ entries) = entries_by_key (insert k v d) entries

module _ {W : Type 0} (service : Service W) where
  abbrev pub call : ℕ → Request → Exec W Response
  call message_type request = service.send message_type request service.timeout

  abbrev pub unless_ok : ℕ → Exec W (Unit {0})
  unless_ok status = raise_if (not (status == status_ok)) (receive_error status)

  unfoldable pub send_to : Bytes → Text → Bytes → Exec W (Unit {0})
  send_to receiver_id message_type payload = do
    response ← call 802 (send_to_request receiver_id message_type payload)
    unless_ok response.status

  unfoldable pub broadcast : Text → Bytes → Exec W (Unit {0})
  broadcast message_type payload = do
    response ← call 804 (broadcast_request message_type payload)
    unless_ok response.status

  -- `if previous_id`: empty bytes are no id.
  unfoldable pub initialize_request : Option Bytes → Request
  initialize_request none = initialize_block_request none
  initialize_request (some previous_id) =
      if is_empty previous_id
      then initialize_block_request none
      else initialize_block_request (some previous_id)

  unfoldable pub initialize_block : Option Bytes → Exec W (Unit {0})
  unfolding initialize_request
  initialize_block previous_id = do
    response ← call 806 (initialize_request previous_id)
    raise_if (response.status == 5) invalid_state
    raise_if (response.status == 6) unknown_block
    unless_ok response.status

  unfoldable pub summarize_block : Exec W Bytes
  summarize_block = do
    response ← call 828 summarize_block_request
    raise_if (response.status == 5) invalid_state
    raise_if (response.status == 6) block_not_ready
    unless_ok response.status
    pure response.summary

  unfoldable pub finalize_block : Bytes → Exec W Bytes
  finalize_block bytes = do
    response ← call 808 (finalize_block_request bytes)
    raise_if (response.status == 5) invalid_state
    raise_if (response.status == 6) block_not_ready
    unless_ok response.status
    pure response.block_id

  unfoldable pub cancel_block : Exec W (Unit {0})
  cancel_block = do
    response ← call 810 cancel_block_request
    raise_if (response.status == 5) invalid_state
    unless_ok response.status

  unfoldable pub check_blocks : List Bytes → Exec W (Unit {0})
  check_blocks priority = do
    response ← call 812 (check_blocks_request priority)
    raise_if (response.status == 5) unknown_block
    unless_ok response.status

  unfoldable pub commit_block : Bytes → Exec W (Unit {0})
  commit_block block_id = do
    response ← call 814 (commit_block_request block_id)
    raise_if (response.status == 5) unknown_block
    unless_ok response.status

  unfoldable pub ignore_block : Bytes → Exec W (Unit {0})
  ignore_block block_id = do
    response ← call 816 (ignore_block_request block_id)
    raise_if (response.status == 5) unknown_block
    unless_ok response.status

  unfoldable pub fail_block : Bytes → Exec W (Unit {0})
  fail_block block_id = do
    response ← call 818 (fail_block_request block_id)
    raise_if (response.status == 5) unknown_block
    unless_ok response.status

  unfoldable pub get_blocks : List Bytes → Exec W (Dict Block)
  unfolding blocks_by_id
  get_blocks block_ids = do
    response ← call 824 (blocks_get_request block_ids)
    raise_if (response.status == 5) unknown_block
    unless_ok response.status
    pure (blocks_by_id [] response.blocks)

  unfoldable pub get_chain_head : Exec W Block
  get_chain_head = do
    response ← call 826 chain_head_get_request
    raise_if (response.status == 5) no_chain_head
    unless_ok response.status
    pure response.block

  unfoldable pub get_settings : Bytes → List Text → Exec W (Dict Text)
  unfolding entries_by_key
  get_settings block_id settings = do
    response ← call 820 (settings_get_request block_id settings)
    raise_if (response.status == 5) unknown_block
    unless_ok response.status
    pure (entries_by_key [] response.entries)

  unfoldable pub get_state : Bytes → List Text → Exec W (Dict Text)
  unfolding entries_by_key
  get_state block_id addresses = do
    response ← call 822 (state_get_request block_id addresses)
    raise_if (response.status == 5) unknown_block
    unless_ok response.status
    pure (entries_by_key [] response.entries)
