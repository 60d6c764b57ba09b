-- ===== src/Batch/Intkey.antt =====
-- examples/intkey_python/sawtooth_intkey/client_cli/create_batch.py: the payload, the
-- transactions, and the batches that the command makes. What the code draws at random is
-- an argument: the private key, the nonces, the values, and the choices of `do_generate`.
use sawtooth_sdk_python.Base.{
  ℕ, zero, suc, ◌+◌, Bool, Option, none, some, List, [], ◌∷◌, ◌++◌, length, get_elem?,
  if◌then◌else◌, ◌≡◌,
}
use sawtooth_sdk_python.Base.Text.{Text, Bytes, codes}
use sawtooth_sdk_python.Base.Dict.{Dict, lookup, insert}
use sawtooth_sdk_python.Base.Int.{ℤ, pos}
use sawtooth_sdk_python.Base.Exec.{
  Exec, Result, ok, raised, then_do, pure, raise, lift, ◌>>=◌, index_error, key_error, type_error,
}
use sawtooth_sdk_python.Base.Platform.{Platform}
use sawtooth_sdk_python.Intkey.Payload.{Value, int, str, Cbor, mapping}
use sawtooth_sdk_python.Intkey.Handler.{make_intkey_address}
use sawtooth_sdk_python.Signing.Keys.{Curve, create_context}
use sawtooth_sdk_python.Signing.Signer.{Signer, new_signer}
use sawtooth_sdk_python.Batch.Messages.{
  Proto, TransactionHeader, Transaction, Batch, sign_transaction, create_batch,
}

-- `cbor.dumps(d, sort_keys=True)`: `loads` reads a dict with the same entries, in another order.
pub record SortedDumps (cbor : Cbor) : Type 0 where
  pub dumps_sorted : Dict Value → Bytes
  pub sorted_entries : Dict Value → Dict Value
  pub loads-dumps_sorted :
      (d : Dict Value) → cbor.loads (dumps_sorted d) ≡ some (mapping (sorted_entries d))
  pub lookup-sorted_entries : (k : Text) (d : Dict Value) → lookup k (sorted_entries d) ≡ lookup k d

pub record IntKeyPayload : Type 0 where
  pub verb : Text
  pub name : Text
  pub value : ℤ
  pub cbor_bytes : Option Bytes
  pub sha512_digest : Option Text

-- `IntKeyPayload.__init__`
unfoldable pub new_payload : Text → Text → ℤ → IntKeyPayload
new_payload verb name value = record {
  verb = verb;
  name = name;
  value = value;
  cbor_bytes = none;
  sha512_digest = none;
}

unfoldable pub to_hash : IntKeyPayload → Dict Value
to_hash p =
    (codes "Verb", str p.verb) ∷ (codes "Name", str p.name) ∷ (codes "Value", int p.value) ∷ []

-- `list(d)`
unfoldable pub names {ℓ} : {V : Type ℓ} → Dict V → List Text
names [] = []
names ((k, v) ∷ d) = k ∷ names d

module _ (platform : Platform) (cbor : Cbor) (dumps : SortedDumps cbor) where
  unfoldable pub to_cbor : IntKeyPayload → Bytes × IntKeyPayload
  unfolding to_hash
  to_cbor p = elim p.cbor_bytes [
    | some bytes ↦ (bytes, p)
    | none ↦
        let bytes = dumps.dumps_sorted (to_hash p) in (bytes, record p { cbor_bytes = some bytes })
  ]

  unfoldable pub sha512 : IntKeyPayload → Text × IntKeyPayload
  unfolding to_cbor
  sha512 p = elim p.sha512_digest [
    | some digest ↦ (digest, p)
    | none ↦
        let (bytes, p') = to_cbor p in
        let digest = platform.sha512_hexdigest bytes in
        (digest, record p' { sha512_digest = some digest })
  ]

  -- The header that `create_intkey_transaction` builds.
  unfoldable pub intkey_header : Text → List Text → Text → Text → Text → Text → TransactionHeader
  intkey_header name deps digest nonce signer_key batcher_key =
      let addr = make_intkey_address platform name in
      record {
        signer_public_key = signer_key;
        family_name = codes "intkey";
        family_version = codes "1.0";
        inputs = addr ∷ [];
        outputs = addr ∷ [];
        dependencies = deps;
        payload_sha512 = digest;
        batcher_public_key = batcher_key;
        nonce = nonce;
      }

  module _ {Private Public : Type 0} (proto : Proto) where
    -- `create_intkey_transaction` of create_batch.py
    unfoldable pub create_intkey_transaction :
        Text → Text → ℤ → List Text → Text → Exec (Signer Private Public) Transaction
    unfolding new_payload sha512 to_cbor intkey_header
    create_intkey_transaction verb name value deps nonce =
        let (digest, p) = sha512 (new_payload verb name value) in
        let (bytes, p') = to_cbor p in
        sign_transaction proto (intkey_header name deps digest nonce) bytes

    -- The loop of `do_populate` in create_batch.py: `left` rounds from the i-th key on; `value` and
    -- `nonce` are what the rounds draw.
    unfoldable pub populate_loop :
        (ℕ → ℕ)
        → (ℕ → Text)
        → (left i : ℕ) → List Transaction
        → Dict (Option Text)
        → Exec (Signer Private Public) (List Transaction × Dict (Option Text))
    unfolding names
    populate_loop value nonce zero i txns keys = pure (txns, keys)
    populate_loop value nonce (suc left) i txns keys = elim (get_elem? (names keys) i) [
      | none ↦ raise index_error
      | some name ↦ do
        txn ← create_intkey_transaction (codes "set") name (pos (value i)) [] (nonce i)
        populate_loop value nonce left (i + 1) (txns ++ txn ∷ [])
            (insert name (some txn.header_signature) keys)
    ]

    -- `do_populate` of create_batch.py, from the signer on
    unfoldable pub do_populate :
        (ℕ → ℕ)
        → (ℕ → Text)
        → List Batch
        → Dict (Option Text)
        → Exec (Signer Private Public) (List Batch × Dict (Option Text))
    unfolding populate_loop
    do_populate value nonce batches keys = do
      made ← populate_loop value nonce (length keys) 0 [] keys
      batch ← create_batch proto made.0
      pure (batches ++ batch ∷ [], made.1)

-- What `do_generate` draws for a transaction: whether it is an `inc`, the place of the key, the
-- value, and the nonce.
pub record Choice : Type 0 where
  pub is_inc : Bool
  pub place : ℕ
  pub value : ℕ
  pub nonce : Text

unfoldable pub choice_verb : Choice → Text
choice_verb c = if c.is_inc then codes "inc" else codes "dec"

-- `[keys[name]]` as the dependencies of a header, which protobuf takes texts for.
unfoldable pub dependencies_on : Text → Dict (Option Text) → Result (List Text)
dependencies_on name keys = elim (lookup name keys) [
  | none ↦ raised key_error
  | some none ↦ raised type_error
  | some (some signature) ↦ ok (signature ∷ [])
]

module _ (platform : Platform) (cbor : Cbor) (dumps : SortedDumps cbor) {Private Public : Type 0}
    (proto : Proto) where
  -- The inner loop of `do_generate` in create_batch.py: a transaction for each choice.
  unfoldable pub generate_transactions :
      Dict (Option Text)
      → List Choice
      → List Transaction
      → Exec (Signer Private Public) (List Transaction)
  unfolding names choice_verb dependencies_on
  generate_transactions keys [] txns = pure txns
  generate_transactions keys (c ∷ choices) txns = elim (get_elem? (names keys) c.place) [
    | none ↦ raise index_error
    | some name ↦ do
      deps ← lift (dependencies_on name keys)
      txn ←
          create_intkey_transaction platform cbor dumps proto (choice_verb c) name (pos c.value)
            deps c.nonce
      generate_transactions keys choices (txns ++ txn ∷ [])
  ]

  -- `do_generate` of create_batch.py, from the signer on: a batch for each list of choices
  unfoldable pub do_generate :
      Dict (Option Text)
      → List (List Choice)
      → List Batch
      → Exec (Signer Private Public) (List Batch)
  unfolding generate_transactions
  do_generate keys [] batches = pure batches
  do_generate keys (choices ∷ rest) batches = do
    txns ← generate_transactions keys choices []
    batch ← create_batch proto txns
    do_generate keys rest (batches ++ batch ∷ [])

module _ {Private Public Signature : Type 0} (curve : Curve Private Public Signature) where
  -- The signer that each of the commands makes first, of the private key that it draws
  unfoldable pub command_signer : Private → Result (Signer Private Public)
  command_signer private_key =
      then_do (create_context curve (codes "secp256k1"))
        (λ context. ok (new_signer (record { context = context }) private_key))
