-- ===== src/Batch/Messages.antt =====
-- The messages of protobuf that the clients build, and the steps that every client takes to sign
-- them: `create_intkey_transaction` and `create_batch` of
-- examples/intkey_python/sawtooth_intkey/client_cli/create_batch.py, from the header on.
use sawtooth_sdk_python.Base.{◌≡◌, Option, some, List, map}
use sawtooth_sdk_python.Base.Text.{Text, Bytes}
use sawtooth_sdk_python.Base.Exec.{Exec, pure, ◌>>=◌}
use sawtooth_sdk_python.Signing.Signer.{Signer, get_public_key, sign}

pub record TransactionHeader : Type 0 where
  pub signer_public_key : Text
  pub family_name : Text
  pub family_version : Text
  pub inputs : List Text
  pub outputs : List Text
  pub dependencies : List Text
  pub payload_sha512 : Text
  pub batcher_public_key : Text
  pub nonce : Text

pub record Transaction : Type 0 where
  pub header : Bytes
  pub payload : Bytes
  pub header_signature : Text

pub record BatchHeader : Type 0 where
  pub signer_public_key : Text
  pub transaction_ids : List Text

pub record Batch : Type 0 where
  pub header : Bytes
  pub transactions : List Transaction
  pub header_signature : Text

-- `SerializeToString` of the two headers, and the parsing that undoes it.
pub record Proto : Type 0 where
  pub transaction_header_bytes : TransactionHeader → Bytes
  pub read_transaction_header : Bytes → Option TransactionHeader
  pub batch_header_bytes : BatchHeader → Bytes
  pub read_batch_header : Bytes → Option BatchHeader
  pub read_transaction_header-bytes :
      (h : TransactionHeader) → read_transaction_header (transaction_header_bytes h) ≡ some h
  pub read_batch_header-bytes :
      (h : BatchHeader) → read_batch_header (batch_header_bytes h) ≡ some h

module _ {Private Public : Type 0} where
  -- `signer.get_public_key().as_hex()`
  unfoldable pub public_key_hex : Exec (Signer Private Public) Text
  public_key_hex = do p ← get_public_key; λ signer. pure (signer.context.public_as_hex p) signer

  -- The end of `create_intkey_transaction`: the header, of the two public keys in it, is serialized
  -- and signed.
  unfoldable pub sign_transaction :
      Proto → (Text → Text → TransactionHeader) → Bytes → Exec (Signer Private Public) Transaction
  sign_transaction proto header_of payload = do
    signer_key ← public_key_hex
    batcher_key ← public_key_hex
    let header_bytes = proto.transaction_header_bytes (header_of signer_key batcher_key)
    signature ← sign header_bytes
    pure (record { header = header_bytes; payload = payload; header_signature = signature })

  -- `create_batch`
  unfoldable pub create_batch : Proto → List Transaction → Exec (Signer Private Public) Batch
  create_batch proto transactions = do
    signer_key ← public_key_hex
    let header_bytes = proto.batch_header_bytes (record {
      signer_public_key = signer_key;
      transaction_ids = map (λ (t : Transaction). t.header_signature) transactions;
    })
    signature ← sign header_bytes
    pure (record {
      header = header_bytes;
      transactions = transactions;
      header_signature = signature;
    })
