-- ===== src/Batch/Words.antt =====
-- examples/intkey_python/sawtooth_intkey/client_cli/populate.py: its own payload, transactions
-- and batch, and `do_populate`.
use sawtooth_sdk_python.Base.{
  ℕ, zero, suc, ◌+◌, Option, none, some, List, [], ◌∷◌, ◌++◌, length, get_elem?, map,
}
use sawtooth_sdk_python.Base.Text.{Text, Bytes, codes}
use sawtooth_sdk_python.Base.Dict.{Dict}
use sawtooth_sdk_python.Base.Int.{ℤ, pos}
use sawtooth_sdk_python.Base.Exec.{Exec, pure, raise, ◌>>=◌, index_error}
use sawtooth_sdk_python.Base.Platform.{Platform}
use sawtooth_sdk_python.Intkey.Payload.{Value, int, str, Cbor}
use sawtooth_sdk_python.Intkey.Handler.{make_intkey_address}
use sawtooth_sdk_python.Signing.Signer.{Signer, sign}
use sawtooth_sdk_python.Batch.Messages.{
  Proto, TransactionHeader, Transaction, Batch, public_key_hex,
}
use sawtooth_sdk_python.Batch.Intkey.{SortedDumps}

pub record IntKeyPayload : Type 0 where
  pub verb : Text
  pub name : Text
  pub value : ℤ
  pub cbor_bytes : Option Bytes
  pub sha512_digest : Option Text

-- `IntKeyPayload.__init__`
unfoldable pub new_payload : Text → Text → ℤ → IntKeyPayload
new_payload verb name value = record {
  verb = verb;
  name = name;
  value = value;
  cbor_bytes = none;
  sha512_digest = none;
}

unfoldable pub to_hash : IntKeyPayload → Dict Value
to_hash p =
    (codes "Verb", str p.verb) ∷ (codes "Name", str p.name) ∷ (codes "Value", int p.value) ∷ []

module _ (platform : Platform) (cbor : Cbor) (dumps : SortedDumps cbor) where
  unfoldable pub to_cbor : IntKeyPayload → Bytes × IntKeyPayload
  unfolding to_hash
  to_cbor p = elim p.cbor_bytes [
    | some bytes ↦ (bytes, p)
    | none ↦
        let bytes = dumps.dumps_sorted (to_hash p) in (bytes, record p { cbor_bytes = some bytes })
  ]

  unfoldable pub sha512 : IntKeyPayload → Text × IntKeyPayload
  unfolding to_cbor
  sha512 p = elim p.sha512_digest [
    | some digest ↦ (digest, p)
    | none ↦
        let (bytes, p') = to_cbor p in
        let digest = platform.sha512_hexdigest bytes in
        (digest, record p' { sha512_digest = some digest })
  ]

  -- The header of a transaction, which has no dependencies
  unfoldable pub intkey_header :
      (name digest nonce signer_key batcher_key : Text) → TransactionHeader
  intkey_header name digest nonce signer_key batcher_key =
      let addr = make_intkey_address platform name in
      record {
        signer_public_key = signer_key;
        family_name = codes "intkey";
        family_version = codes "1.0";
        inputs = addr ∷ [];
        outputs = addr ∷ [];
        dependencies = [];
        payload_sha512 = digest;
        batcher_public_key = batcher_key;
        nonce = nonce;
      }

  module _ {Private Public : Type 0} (proto : Proto) where
    unfoldable pub create_intkey_transaction :
        (verb name : Text) (value : ℤ) (nonce : Text) → Exec (Signer Private Public) Transaction
    unfolding new_payload sha512 to_cbor intkey_header
    create_intkey_transaction verb name value nonce = do
      let (digest, p) = sha512 (new_payload verb name value)
      signer_key ← public_key_hex
      batcher_key ← public_key_hex
      let header_bytes =
          proto.transaction_header_bytes (intkey_header name digest nonce signer_key batcher_key)
      signature ← sign header_bytes
      pure (record { header = header_bytes; payload = (to_cbor p).0; header_signature = signature })

    unfoldable pub create_batch : List Transaction → Exec (Signer Private Public) Batch
    create_batch transactions = do
      signer_key ← public_key_hex
      let header_bytes = proto.batch_header_bytes (record {
        signer_public_key = signer_key;
        transaction_ids = map (λ (t : Transaction). t.header_signature) transactions;
      })
      signature ← sign header_bytes
      pure (record {
        header = header_bytes;
        transactions = transactions;
        header_signature = signature;
      })

    -- The loop of `do_populate`: `left` rounds from the i-th word on
    unfoldable pub populate_words_loop :
        (ℕ → ℕ)
        → (ℕ → Text)
        → List Text
        → (left i : ℕ) → List Transaction
        → Exec (Signer Private Public) (List Transaction)
    unfolding create_intkey_transaction
    populate_words_loop value nonce words zero i txns = pure txns
    populate_words_loop value nonce words (suc left) i txns = elim (get_elem? words i) [
      | none ↦ raise index_error
      | some word ↦ do
        txn ← create_intkey_transaction (codes "set") word (pos (value i)) (nonce i)
        populate_words_loop value nonce words left (i + 1) (txns ++ txn ∷ [])
    ]

    -- `do_populate`, from the signer on and up to the file: the batches
    unfoldable pub populate_words :
        (ℕ → ℕ) → (ℕ → Text) → List Text → Exec (Signer Private Public) (List Batch)
    unfolding populate_words_loop create_batch
    populate_words value nonce words = do
      txns ← populate_words_loop value nonce words (length words) 0 []
      batch ← create_batch txns
      pure (batch ∷ [])
