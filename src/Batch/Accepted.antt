-- ===== src/Batch/Accepted.antt =====
-- What the commands of examples/intkey_python/sawtooth_intkey/client_cli make is what the processor of
-- examples/intkey_python/sawtooth_intkey/processor/handler.py takes.
use sawtooth_sdk_python.Intkey.Handler.{make_intkey_address}
use sawtooth_sdk_python.Base.{◌≡◌, refl, sym, subst, List, [], ◌∷◌}
use sawtooth_sdk_python.Base.Text.{Text, codes, text_eq}
use sawtooth_sdk_python.Base.Dict.{lookup}
use sawtooth_sdk_python.Base.Int.{ℤ}
use sawtooth_sdk_python.Base.Platform.{Platform}
use sawtooth_sdk_python.Intkey.Payload.{
  Cbor, Request, str, int, subscript, decode_transaction, unpack_transaction, validate,
}
use sawtooth_sdk_python.Signing.Keys.{Context}
use sawtooth_sdk_python.Signing.Signer.{Signer}
use sawtooth_sdk_python.Batch.Messages.{Proto, Transaction, TransactionHeader}
use sawtooth_sdk_python.Batch.Signed.{
  IsSigner, IsSigned, Makes, key_text, public_key_of, sign_transaction-IsSigned,
}
use sawtooth_sdk_python.Batch.Intkey.{
  SortedDumps, new_payload, to_hash, to_cbor, sha512, intkey_header, create_intkey_transaction,
}

abbrev pub request_of : Text → Text → ℤ → Request
request_of verb name value = record { verb = str verb; name = str name; value = int value }

module _ (cbor : Cbor) (dumps : SortedDumps cbor) where
  unpack-dumped :
      (verb name : Text) (value : ℤ)
      → unpack_transaction cbor (dumps.dumps_sorted (to_hash (new_payload verb name value)))
        ≡ validate (request_of verb name value)
  unfolding unpack_transaction to_hash new_payload lookup text_eq
  unpack-dumped verb name value =
      let d = to_hash (new_payload verb name value) in
      rw (dumps.loads-dumps_sorted d, decode_transaction)
        (rw (dumps.lookup-sorted_entries (codes "Verb") d, subscript)
          (rw (dumps.lookup-sorted_entries (codes "Name") d, subscript)
            (rw (dumps.lookup-sorted_entries (codes "Value") d, subscript) refl)))

-- The header of a transaction for 'intkey' 1.0 on one name: the address that the processor has for
-- the name is its input and its output, and the key is the signer's and the batcher's.
abbrev pub header_for :
    (platform : Platform) (name : Text) (deps : List Text) (digest nonce key : Text)
    → TransactionHeader
header_for platform name deps digest nonce key = record {
  signer_public_key = key;
  family_name = codes "intkey";
  family_version = codes "1.0";
  inputs = make_intkey_address platform name ∷ [];
  outputs = make_intkey_address platform name ∷ [];
  dependencies = deps;
  payload_sha512 = digest;
  batcher_public_key = key;
  nonce = nonce;
}

module _ (platform : Platform) (cbor : Cbor) (dumps : SortedDumps cbor) (proto : Proto)
    {Private Public : Type 0} where
  -- The transaction is signed under the key, its header is for the family, the version and the
  -- address that the processor has, and the processor unpacks its payload to this request.
  pub record IsFor (c : Context Private Public) (p : Public) (verb name : Text) (value : ℤ)
      (deps : List Text) (nonce : Text) (t : Transaction) : Type 0 where
    pub signed :
        IsSigned platform proto c p
          (header_for platform name deps
            (platform.sha512_hexdigest t.payload)
            nonce
            (c.public_as_hex p))
          t
    pub unpacks : unpack_transaction cbor t.payload ≡ validate (request_of verb name value)

  -- What the client makes the processor takes: `create_intkey_transaction` with a signer that can sign
  -- returns a transaction whose header is for 'intkey' 1.0, with the address that the processor has
  -- for the name as its one input and output, the dependencies and the nonce that are given, the
  -- digest of the payload and the signer's key twice; whose signature verifies under that key as one
  -- of the header; and whose payload the processor unpacks to the verb, the name and the value that are
  -- given, if they are valid, and refuses just as it refuses that request if they are not.
  pub create_intkey_transaction-IsFor :
      (verb name : Text) (value : ℤ) (deps : List Text) (nonce : Text)
      (signer : Signer Private Public)
      → IsSigner signer
      → Makes signer
          (IsFor signer.context (public_key_of signer) verb name value deps nonce)
          (create_intkey_transaction platform cbor dumps proto verb name value deps nonce signer)
  unfolding create_intkey_transaction new_payload sha512 to_cbor intkey_header
  create_intkey_transaction-IsFor verb name value deps nonce signer is =
      let bytes = dumps.dumps_sorted (to_hash (new_payload verb name value)) in
      let m =
        sign_transaction-IsSigned platform proto
          (intkey_header platform cbor dumps name deps (platform.sha512_hexdigest bytes) nonce)
          bytes signer is refl refl refl in
      record {
        made = m.made;
        returns = m.returns;
        holds = record {
          signed =
              subst
                (λ p.
                  IsSigned platform proto signer.context (public_key_of signer)
                    (header_for platform name deps (platform.sha512_hexdigest p) nonce
                      (key_text signer))
                    m.made)
                (sym m.holds.0) m.holds.1;
          unpacks =
              subst (λ p. unpack_transaction cbor p ≡ validate (request_of verb name value))
                (sym m.holds.0) (unpack-dumped cbor dumps verb name value);
        };
      }
