-- ===== src/Intkey/Handler.antt =====
-- examples/intkey_python/sawtooth_intkey/processor/handler.py: `IntkeyTransactionHandler.apply`.
use sawtooth_sdk_python.Base.{◌-◌, none, some, List, [], ◌∷◌, ◌++◌, take, drop, length}
use sawtooth_sdk_python.Base.Text.{Text, Bytes, codes, is_empty}
use sawtooth_sdk_python.Base.Dict.{Dict}
use sawtooth_sdk_python.Base.Exec.{
  Exec, Result, ok, raised, raise, lift, raise_if, ◌>>=◌, internal, type_error,
}
use sawtooth_sdk_python.Base.Platform.{Platform}
use sawtooth_sdk_python.Processor.Context.{Context, Entry, get_state, set_state}
use sawtooth_sdk_python.Intkey.Payload.{Value, str, Cbor, unpack_transaction}
use sawtooth_sdk_python.Intkey.Verbs.{do_intkey}

abbrev pub family_name : Text
family_name = codes "intkey"

abbrev pub family_versions : List Text
family_versions = codes "1.0" ∷ []

-- INTKEY_ADDRESS_PREFIX
unfoldable pub intkey_address_prefix : Platform → Text
intkey_address_prefix platform =
    take 6 (platform.sha512_hexdigest (platform.encode (codes "intkey")))

-- `t[-64:]`
unfoldable pub last_64 : Text → Text
last_64 t = drop (length t - 64) t

-- `make_intkey_address`
unfoldable pub make_intkey_address : Platform → Text → Text
unfolding intkey_address_prefix last_64
make_intkey_address platform name =
    intkey_address_prefix platform ++ last_64 (platform.sha512_hexdigest (platform.encode name))

-- The `try` of `_get_state_data`: IndexError is an empty list of entries.
unfoldable pub read_state : Cbor → List Entry → Result (Dict Value)
read_state cbor [] = ok []
read_state cbor (entry ∷ entries) = elim (cbor.loads_state entry.bytes) [
  | none ↦ raised (internal "Failed to load state data" [])
  | some state ↦ ok state
]

module _ {W : Type 0} (platform : Platform) (cbor : Cbor) (context : Context W) where
  -- `_get_state_data`
  unfoldable pub get_state_data : Text → Exec W (Dict Value)
  unfolding read_state
  get_state_data name = do
    entries ← get_state context (make_intkey_address platform name ∷ []) none
    lift (read_state cbor entries)

  -- `_set_state_data`
  unfoldable pub set_state_data : Text → Dict Value → Exec W (Unit {0})
  set_state_data name state = do
    addresses ← set_state context ((make_intkey_address platform name, cbor.dumps state) ∷ []) none
    raise_if (is_empty addresses) (internal "State error" [])

  -- `apply` after `_unpack_transaction`, which lets texts alone through as verb and name
  unfoldable pub run_request : Value → Value → Value → Exec W (Unit {0})
  run_request (str verb) (str name) value = do
    state ← get_state_data name
    updated ← lift (do_intkey verb name value state)
    set_state_data name updated
  run_request _ _ _ = raise type_error

  unfoldable pub apply : Bytes → Exec W (Unit {0})
  unfolding run_request
  apply payload = do r ← lift (unpack_transaction cbor payload); run_request r.verb r.name r.value
