-- ===== src/Client/Intkey.antt =====
-- examples/intkey_python/sawtooth_intkey/client_cli/intkey_client.py: `IntkeyClient`. The nonce and the
-- clock are given by what they give.
use sawtooth_sdk_python.Base.{ℕ, Option, none, some, List, [], ◌∷◌, ◌++◌, take, drop}
use sawtooth_sdk_python.Base.Text.{Text, Bytes, codes}
use sawtooth_sdk_python.Base.Dict.{Dict, lookup}
use sawtooth_sdk_python.Base.Int.{ℤ}
use sawtooth_sdk_python.Base.Exec.{
  Exec, Result, ok, raised, message, intkey_client_exception, attribute_error, ◌>>=◌,
}
use sawtooth_sdk_python.Base.Platform.{Platform}
use sawtooth_sdk_python.Intkey.Payload.{Value, int, str, Cbor}
use sawtooth_sdk_python.Signing.Signer.{Signer}
use sawtooth_sdk_python.Batch.Messages.{
  Proto, TransactionHeader, Batch, sign_transaction, create_batch,
}
use sawtooth_sdk_python.Client.Rest.{Rest, Failures, post_batch, list_entries, show_data}

-- `IntkeyClientException` of `_send_request`
unfoldable pub failures : Failures
failures = record {
  missing = λ name.
      intkey_client_exception
        (message "No such key: {}" (elim name [ none ↦ codes "None" | some n ↦ n ] ∷ []));
  unsuccessful =
      λ code reason. intkey_client_exception (message "Error {}: {}" (code ∷ reason ∷ []));
  connection = λ url. intkey_client_exception (message "Failed to connect to REST API: {}" []);
  wrapped = intkey_client_exception (message "{}" []);
}

-- `IntkeyClient`, with the world behind its requests; without a key file there is no `_signer`.
pub record IntkeyClient (W Private Public : Type 0) : Type 0 where
  pub url : Text
  pub signer : Option (Signer Private Public)
  pub world : W

module _ (platform : Platform) where
  -- `_get_prefix`
  unfoldable pub get_prefix : Text
  get_prefix = take 6 (platform.sha512_hexdigest (platform.encode (codes "intkey")))

  -- `_get_address`
  unfoldable pub get_address : Text → Text
  unfolding get_prefix
  get_address name = get_prefix ++ drop 64 (platform.sha512_hexdigest (platform.encode name))

  unfoldable pub intkey_header :
      (name digest nonce signer_key batcher_key : Text) → TransactionHeader
  unfolding get_address
  intkey_header name digest nonce signer_key batcher_key = record {
    signer_public_key = signer_key;
    family_name = codes "intkey";
    family_version = codes "1.0";
    inputs = get_address name ∷ [];
    outputs = get_address name ∷ [];
    dependencies = [];
    payload_sha512 = digest;
    batcher_public_key = batcher_key;
    nonce = nonce;
  }

  module _ (cbor : Cbor) where
    -- The payload
    unfoldable pub intkey_payload : (verb name : Text) → ℤ → Bytes
    intkey_payload verb name value =
        cbor.dumps
          ((codes "Verb", str verb) ∷ (codes "Name", str name) ∷ (codes "Value", int value) ∷ [])

    -- The batch of `_send_transaction`, with `_create_batch_list`
    unfoldable pub intkey_batch :
        {Private Public : Type 0}
        → Proto
        → (verb name : Text) → ℤ
        → (nonce : Text) → Exec (Signer Private Public) Batch
    unfolding intkey_payload intkey_header
    intkey_batch proto verb name value nonce = do
      let payload = intkey_payload verb name value
      transaction ←
          sign_transaction proto (intkey_header name (platform.sha512_hexdigest payload) nonce)
            payload
      create_batch proto (transaction ∷ [])

    module _ {W Private Public : Type 0} (rest : Rest W) (proto : Proto) where
      abbrev posted :
          IntkeyClient W Private Public
          → Option ℕ
          → List ℕ
          → Result Batch × Signer Private Public
          → Result Text × IntkeyClient W Private Public
      posted client wait elapsed (ok batch, signer) =
          let (r, w) = post_batch rest failures client.url [] batch wait elapsed client.world in
          (r, record client { signer = some signer; world = w })
      posted client wait elapsed (raised e, signer) =
          (raised e, record client { signer = some signer })

      -- `_send_transaction`; without a signer, `self._signer` is an AttributeError.
      unfoldable pub send_transaction :
          (verb name : Text)
          → ℤ
          → (nonce : Text) → Option ℕ
          → List ℕ
          → Exec (IntkeyClient W Private Public) Text
      unfolding intkey_batch
      send_transaction verb name value nonce wait elapsed client = elim client.signer [
        | none ↦ (raised attribute_error, client)
        | some signer ↦ posted client wait elapsed (intkey_batch proto verb name value nonce signer)
      ]

      -- `set`, `inc` and `dec`
      unfoldable pub set_value :
          (name : Text)
          → ℤ
          → (nonce : Text) → Option ℕ
          → List ℕ
          → Exec (IntkeyClient W Private Public) Text
      unfolding send_transaction
      set_value name value nonce wait elapsed =
          send_transaction (codes "set") name value nonce wait elapsed

      unfoldable pub inc :
          (name : Text)
          → ℤ
          → (nonce : Text) → Option ℕ
          → List ℕ
          → Exec (IntkeyClient W Private Public) Text
      unfolding send_transaction
      inc name value nonce wait elapsed =
          send_transaction (codes "inc") name value nonce wait elapsed

      unfoldable pub dec :
          (name : Text)
          → ℤ
          → (nonce : Text) → Option ℕ
          → List ℕ
          → Exec (IntkeyClient W Private Public) Text
      unfolding send_transaction
      dec name value nonce wait elapsed =
          send_transaction (codes "dec") name value nonce wait elapsed

    -- All entries decoded, or none if one is not
    abbrev loads_all : List Bytes → Option (List (Dict Value))
    loads_all [] = some []
    loads_all (b ∷ bs) = elim (cbor.loads_state b) [
      | none ↦ none
      | some d ↦ elim (loads_all bs) [ none ↦ none | some ds ↦ some (d ∷ ds) ]
    ]

    abbrev decoded_entries : Option (List Bytes) → Option (List (Dict Value))
    decoded_entries none = none
    decoded_entries (some bs) = loads_all bs

    -- `cbor.loads(…)[name]`
    abbrev decoded_value : Text → Option Bytes → Option Value
    decoded_value name none = none
    decoded_value name (some b) = elim (cbor.loads_state b) [ none ↦ none | some d ↦ lookup name d ]

    module _ {W Private Public : Type 0} (rest : Rest W) where
      abbrev on_world :
          {A B : Type 0}
          → (A → B)
          → Exec W A
          → IntkeyClient W Private Public
          → Result B × IntkeyClient W Private Public
      on_world f m client =
          let (r, w) = m client.world in
          (elim r [ ok a ↦ ok (f a) | raised e ↦ raised e ], record client { world = w })

      -- `list`
      unfoldable pub list : Exec (IntkeyClient W Private Public) (Option (List (Dict Value)))
      unfolding get_prefix
      list client =
          on_world decoded_entries (list_entries rest failures client.url [] get_prefix) client

      -- `show`
      unfoldable pub show : Text → Exec (IntkeyClient W Private Public) (Option Value)
      unfolding get_address
      show name client =
          on_world (decoded_value name)
            (show_data rest failures client.url [] (get_address name) name) client
