-- ===== src/Processor/Context.antt =====
-- sawtooth_sdk/processor/context.py: the requests of a handler to the validator.
use sawtooth_sdk_python.Base.{
  ℕ, Bool, true, false, not, Option, none, some, List, [], ◌∷◌, map, keep,
}
use sawtooth_sdk_python.Base.Text.{Text, Bytes, is_empty}
use sawtooth_sdk_python.Base.Dict.{Dict}
use sawtooth_sdk_python.Base.Exec.{
  Exec, pure, raise_if, ◌>>=◌, ◌>>◌, message, internal, authorization_exception,
}

-- `status` of TpStateGetResponse, TpStateSetResponse and TpStateDeleteResponse
pub data StateStatus : Type 0 where
  status_unset status_ok authorization_error : StateStatus

-- `status` of TpReceiptAddDataResponse and TpEventAddResponse
pub data AddStatus : Type 0 where
  add_unset add_ok add_error : AddStatus

-- TpStateEntry
pub record Entry : Type 0 where
  pub address : Text
  pub bytes : Bytes

pub record GetResponse : Type 0 where
  pub status : StateStatus
  pub entries : List Entry

-- TpStateSetResponse and TpStateDeleteResponse
pub record AddressesResponse : Type 0 where
  pub status : StateStatus
  pub addresses : List Text

pub record Event : Type 0 where
  pub event_type : Text
  pub attributes : List (Text × Text)
  pub payload : Option Bytes

-- What `self._stream.send(type, request).result(timeout).content` and the parsing of it come to,
-- for each type of request: the validator answers, or the future raises. Arguments are the context
-- id, the field of the request, and the timeout.
pub record Peer (W : Type 0) : Type 0 where
  pub state_get : Text → List Text → Option ℕ → Exec W GetResponse
  pub state_set : Text → List Entry → Option ℕ → Exec W AddressesResponse
  pub state_delete : Text → List Text → Option ℕ → Exec W AddressesResponse
  pub receipt_add_data : Text → Bytes → Option ℕ → Exec W AddStatus
  pub event_add : Text → Event → Option ℕ → Exec W AddStatus

pub record Context (W : Type 0) : Type 0 where
  pub stream : Peer W
  pub context_id : Text

unfoldable pub is_unauthorized : StateStatus → Bool
is_unauthorized authorization_error = true
is_unauthorized status_ok = false
is_unauthorized status_unset = false

unfoldable pub is_add_error : AddStatus → Bool
is_add_error add_error = true
is_add_error add_ok = false
is_add_error add_unset = false

abbrev pub address_of : Entry → Text
address_of e = e.address

-- `len(e.data) != 0`
abbrev pub has_content : Entry → Bool
has_content e = not (is_empty e.bytes)

-- The argument `{address: data}` as the list of TpStateEntry
unfoldable pub state_entries : Dict Bytes → List Entry
state_entries [] = []
state_entries ((a, d) ∷ entries) = record { address = a; bytes = d } ∷ state_entries entries

-- `if attributes is None: attributes = []`
abbrev pub or_empty : Option (List (Text × Text)) → List (Text × Text)
or_empty none = []
or_empty (some attributes) = attributes

module _ {W : Type 0} (context : Context W) where
  unfoldable pub get_state : List Text → Option ℕ → Exec W (List Entry)
  unfolding is_unauthorized
  get_state addresses timeout = do
    response ← context.stream.state_get context.context_id addresses timeout
    raise_if (is_unauthorized response.status)
        (authorization_exception (message "Tried to get unauthorized address: {}" addresses))
    pure (keep has_content response.entries)

  unfoldable pub set_state : Dict Bytes → Option ℕ → Exec W (List Text)
  unfolding is_unauthorized state_entries
  set_state entries timeout = do
    response ← context.stream.state_set context.context_id (state_entries entries) timeout
    raise_if (is_unauthorized response.status) (
        authorization_exception (
          message "Tried to set unauthorized address: {}" (map address_of (state_entries entries))))
    pure response.addresses

  unfoldable pub delete_state : List Text → Option ℕ → Exec W (List Text)
  unfolding is_unauthorized
  delete_state addresses timeout = do
    response ← context.stream.state_delete context.context_id addresses timeout
    raise_if (is_unauthorized response.status)
        (authorization_exception (message "Tried to delete unauthorized address: {}" addresses))
    pure response.addresses

  unfoldable pub add_receipt_data : Bytes → Option ℕ → Exec W (Unit {0})
  unfolding is_add_error
  add_receipt_data bytes timeout = do
    status ← context.stream.receipt_add_data context.context_id bytes timeout
    raise_if (is_add_error status) (internal "Failed to add receipt data: {}" (bytes ∷ []))

  -- `attributes=None` stands for no attributes. The message names the event by its type alone.
  unfoldable pub add_event :
      Text → Option (List (Text × Text)) → Option Bytes → Option ℕ → Exec W (Unit {0})
  unfolding is_add_error
  add_event event_type attributes bytes timeout = do
    status ←
        context.stream.event_add context.context_id
          (record { event_type = event_type; attributes = or_empty attributes; payload = bytes })
          timeout
    raise_if (is_add_error status) (internal "Failed to add event: ({}, {}, {})" (event_type ∷ []))
