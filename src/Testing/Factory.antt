-- ===== src/Testing/Factory.antt =====
-- sawtooth_processor_test/message_factory.py: `MessageFactory`. The nonces that it draws are arguments.
use sawtooth_sdk_python.Base.{
  ℕ, Bool, true, not, ◌&&◌, ◌||◌, Option, none, some, List, [], ◌∷◌, map, length, if◌then◌else◌,
  ◌==◌, ltb, leb,
}
use sawtooth_sdk_python.Base.Text.{Text, Bytes, codes, text_eq}
use sawtooth_sdk_python.Base.Dict.{Dict}
use sawtooth_sdk_python.Base.Exec.{
  Exec, Result, ok, raised, then_do, pure, ◌>>=◌, message, invalid_merkle_address_exception,
  key_error, type_error,
}
use sawtooth_sdk_python.Base.Platform.{Platform}
use sawtooth_sdk_python.Signing.Signer.{Signer, sign}
use sawtooth_sdk_python.Processor.Link.{
  RegisterRequest, header_style_unset, ProcessStatus, process_ok, invalid_status, internal_status,
}
use sawtooth_sdk_python.Batch.Messages.{Proto, TransactionHeader, Transaction, public_key_hex}

-- `c in '0123456789abcdef'`
unfoldable pub is_lower_hex : ℕ → Bool
is_lower_hex c = (leb 48 c && ltb c 58) || (leb 97 c && ltb c 103)

unfoldable pub all_chars : (ℕ → Bool) → Text → Bool
all_chars p [] = true
all_chars p (c ∷ s) = p c && all_chars p s

-- `is_valid_merkle_address`
unfoldable pub is_valid_merkle_address : Text → Bool
unfolding is_lower_hex all_chars
is_valid_merkle_address address = all_chars is_lower_hex address && length address == 70

-- `_validate_addresses`
unfoldable pub validate_addresses : List Text → Result (Unit {0})
validate_addresses [] = ok tt
validate_addresses (a ∷ addresses) =
    let rest = validate_addresses addresses in
    if not (is_valid_merkle_address a)
    then raised (
        invalid_merkle_address_exception (message "{} is not a valid merkle trie address" (a ∷ [])))
    else rest

-- An entry of state: `data` may be None, which protobuf takes for no bytes.
pub record Entry : Type 0 where
  pub address : Text
  pub bytes : Bytes

-- What the factory builds for the state; a response has the status OK.
pub data StateMessage : Type 0 where
  get_request : List Text → StateMessage
  get_response : List Entry → StateMessage
  set_request : List Entry → StateMessage
  set_response : List Text → StateMessage
  delete_request : List Text → StateMessage
  delete_response : List Text → StateMessage

abbrev pub entry_of : Text × Option Bytes → Entry
entry_of (address, none) = record { address = address; bytes = [] }
entry_of (address, some bytes) = record { address = address; bytes = bytes }

abbrev pub address_of : Text × Option Bytes → Text
address_of (address, bytes) = address

abbrev pub checked : List Text → StateMessage → Result StateMessage
checked addresses built = then_do (validate_addresses addresses) (λ u. ok built)

unfoldable pub create_get_request : List Text → Result StateMessage
create_get_request addresses = checked addresses (get_request addresses)

unfoldable pub create_get_response : Dict (Option Bytes) → Result StateMessage
create_get_response entries = checked (map address_of entries) (get_response (map entry_of entries))

unfoldable pub create_set_request : Dict (Option Bytes) → Result StateMessage
create_set_request entries = checked (map address_of entries) (set_request (map entry_of entries))

unfoldable pub create_set_response : List Text → Result StateMessage
create_set_response addresses = checked addresses (set_response addresses)

unfoldable pub create_delete_request : List Text → Result StateMessage
create_delete_request addresses = checked addresses (delete_request addresses)

unfoldable pub create_delete_response : List Text → Result StateMessage
create_delete_response addresses = checked addresses (delete_response addresses)

-- TpEventAddRequest: `attributes` is None where the argument is left out, which cannot be iterated.
pub record EventRequest : Type 0 where
  pub event_type : Text
  pub attributes : List (Text × Text)
  pub bytes : Option Bytes

unfoldable pub create_add_event_request :
    Text → Option (List (Text × Text)) → Option Bytes → Result EventRequest
create_add_event_request event_type none bytes = raised type_error
create_add_event_request event_type (some attributes) bytes =
    ok (record { event_type = event_type; attributes = attributes; bytes = bytes })

-- `create_tp_response`
unfoldable pub create_tp_response : Text → Result ProcessStatus
create_tp_response status =
    if text_eq status (codes "OK")
    then ok process_ok
    else if text_eq status (codes "INVALID_TRANSACTION")
    then ok invalid_status
    else if text_eq status (codes "INTERNAL_ERROR")
    then ok internal_status
    else raised key_error

-- The fields of `MessageFactory` but the signer, which is the state of its methods.
pub record MessageFactory : Type 0 where
  pub family_name : Text
  pub family_version : Text
  pub namespaces : List Text

-- TpProcessRequest, of the header itself
pub record TestRequest : Type 0 where
  pub header : TransactionHeader
  pub payload : Bytes
  pub signature : Text

module _ (factory : MessageFactory) where
  -- `create_tp_register`
  unfoldable pub create_tp_register : RegisterRequest
  create_tp_register = record {
    family = factory.family_name;
    version = factory.family_version;
    namespaces = factory.namespaces;
    protocol_version = 0;
    request_header_style = header_style_unset;
  }

  module _ (platform : Platform) (proto : Proto) {Private Public : Type 0} where
    -- `_create_transaction_header`, where `nonce` is none if `set_nonce` is False
    unfoldable pub create_transaction_header :
        Bytes
        → (inputs outputs deps : List Text) → Option Text
        → Option Text
        → Exec (Signer Private Public) TransactionHeader
    create_transaction_header payload inputs outputs deps nonce batcher_pub_key = do
      txn_pub_key ← public_key_hex
      pure (record {
        signer_public_key = txn_pub_key;
        family_name = factory.family_name;
        family_version = factory.family_version;
        inputs = inputs;
        outputs = outputs;
        dependencies = deps;
        payload_sha512 = platform.sha512_hexdigest payload;
        batcher_public_key = elim batcher_pub_key [ none ↦ txn_pub_key | some key ↦ key ];
        nonce = elim nonce [ none ↦ [] | some drawn ↦ drawn ];
      })

    -- `_create_header_and_sig`
    unfoldable pub create_header_and_sig :
        Bytes
        → (inputs outputs deps : List Text) → Option Text
        → Option Text
        → Exec (Signer Private Public) (TransactionHeader × Text)
    unfolding create_transaction_header
    create_header_and_sig payload inputs outputs deps nonce batcher = do
      header ← create_transaction_header payload inputs outputs deps nonce batcher
      signature ← sign (proto.transaction_header_bytes header)
      pure (header, signature)

    -- `create_transaction`
    unfoldable pub create_transaction :
        Bytes
        → (inputs outputs deps : List Text) → Text
        → Option Text
        → Exec (Signer Private Public) Transaction
    unfolding create_header_and_sig
    create_transaction payload inputs outputs deps nonce batcher = do
      made ← create_header_and_sig payload inputs outputs deps (some nonce) batcher
      pure (record {
        header = proto.transaction_header_bytes made.0;
        payload = payload;
        header_signature = made.1;
      })

    -- `create_tp_process_request`
    unfoldable pub create_tp_process_request :
        Bytes
        → (inputs outputs deps : List Text) → Option Text
        → Exec (Signer Private Public) TestRequest
    unfolding create_header_and_sig
    create_tp_process_request payload inputs outputs deps nonce = do
      made ← create_header_and_sig payload inputs outputs deps nonce none
      pure (record { header = made.0; payload = payload; signature = made.1 })
