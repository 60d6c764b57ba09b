-- ===== src/Testing/IntkeyFactory.antt =====
-- examples/intkey_python/sawtooth_intkey/intkey_message_factory.py: the messages that the tests of
-- intkey are written with.
use sawtooth_sdk_python.Base.{Option, none, some, [], ◌∷◌}
use sawtooth_sdk_python.Base.Text.{Text, Bytes, codes}
use sawtooth_sdk_python.Base.Exec.{Exec, Result}
use sawtooth_sdk_python.Base.Platform.{Platform}
use sawtooth_sdk_python.Intkey.Handler.{make_intkey_address, intkey_address_prefix}
use sawtooth_sdk_python.Intkey.Payload.{Value, str, Cbor}
use sawtooth_sdk_python.Signing.Signer.{Signer}
use sawtooth_sdk_python.Batch.Messages.{Proto, Transaction}
use sawtooth_sdk_python.Batch.Intkey.{SortedDumps}
use sawtooth_sdk_python.Testing.Factory.{
  MessageFactory, TestRequest, StateMessage, create_transaction, create_tp_process_request,
  create_get_request, create_get_response, create_set_request, create_set_response,
}

-- `IntkeyMessageFactory.__init__`
unfoldable pub intkey_factory : Platform → MessageFactory
intkey_factory platform = record {
  family_name = codes "intkey";
  family_version = codes "1.0";
  namespaces = intkey_address_prefix platform ∷ [];
}

module _ (platform : Platform) (cbor : Cbor) (dumps : SortedDumps cbor) where
  -- The payload of `_create_txn`
  unfoldable pub txn_payload : Value → Text → Value → Bytes
  txn_payload verb name value =
      dumps.dumps_sorted
        ((codes "Verb", verb) ∷ (codes "Name", str name) ∷ (codes "Value", value) ∷ [])

  module _ (proto : Proto) {Private Public : Type 0} where
    -- `create_tp_process_request` and `create_transaction`, by `_create_txn`
    unfoldable pub process_request :
        Value → Text → Value → Text → Exec (Signer Private Public) TestRequest
    unfolding txn_payload intkey_factory
    process_request verb name value nonce =
        let addresses = make_intkey_address platform name ∷ [] in
        create_tp_process_request (intkey_factory platform) platform proto
          (txn_payload verb name value) addresses addresses [] (some nonce)

    unfoldable pub transaction :
        Value → Text → Value → Text → Exec (Signer Private Public) Transaction
    unfolding txn_payload intkey_factory
    transaction verb name value nonce =
        let addresses = make_intkey_address platform name ∷ [] in
        create_transaction (intkey_factory platform) platform proto (txn_payload verb name value)
          addresses addresses [] nonce none

  -- The data of a value, if there is one
  unfoldable pub value_data : Text → Option Value → Option Bytes
  value_data name none = none
  value_data name (some value) = some (dumps.dumps_sorted ((name, value) ∷ []))

  unfoldable pub get_request : Text → Result StateMessage
  get_request name = create_get_request (make_intkey_address platform name ∷ [])

  unfoldable pub get_response : Text → Option Value → Result StateMessage
  unfolding value_data
  get_response name value =
      create_get_response ((make_intkey_address platform name, value_data name value) ∷ [])

  unfoldable pub set_request : Text → Option Value → Result StateMessage
  unfolding value_data
  set_request name value =
      create_set_request ((make_intkey_address platform name, value_data name value) ∷ [])

  unfoldable pub set_response : Text → Result StateMessage
  set_response name = create_set_response (make_intkey_address platform name ∷ [])
