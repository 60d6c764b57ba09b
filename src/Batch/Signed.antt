-- ===== src/Batch/Signed.antt =====
-- What `sign_transaction` and `create_batch` make, with a signer that can sign: messages that verify.
use sawtooth_sdk_python.Base.{◌≡◌, refl, true, Option, some, inl, inr, List, map, ap}
use sawtooth_sdk_python.Base.Text.{Text, Bytes}
use sawtooth_sdk_python.Base.Exec.{Result, ok}
use sawtooth_sdk_python.Base.Platform.{Platform}
use sawtooth_sdk_python.Signing.Keys.{Context, hex}
use sawtooth_sdk_python.Signing.Signer.{Signer, get_public_key, sign}
use sawtooth_sdk_python.Signing.Sound.{IsLawful, IsCoherent}
use sawtooth_sdk_python.Batch.Messages.{
  Proto, TransactionHeader, Transaction, BatchHeader, Batch, public_key_hex, sign_transaction,
  create_batch,
}

module _ {Private Public : Type 0} where
  abbrev pub public_key_of : Signer Private Public → Public
  public_key_of signer = signer.context.get_public_key signer.private_key

  -- The hexadecimal text of the signer's public key.
  abbrev pub key_text : Signer Private Public → Text
  key_text signer = signer.context.public_as_hex (public_key_of signer)

  -- The signer once it has been asked for its public key.
  abbrev pub filled : Signer Private Public → Signer Private Public
  filled signer = record signer { public_key = some (public_key_of signer) }

  -- A signer of a lawful context whose key signs every message.
  pub record IsSigner (signer : Signer Private Public) : Type 0 where
    pub lawful : IsLawful signer.context
    pub coherent : IsCoherent signer
    pub signs : (m : Bytes) → (s : Text) × (signer.context.sign m signer.private_key ≡ ok s)

  pub filled-IsSigner :
      (signer : Signer Private Public) → IsSigner signer → IsSigner (filled signer)
  filled-IsSigner signer is = record {
    lawful = is.lawful;
    coherent = record { cached_key = inr refl };
    signs = is.signs;
  }

  refilled :
      (c : Context Private Public) (k : Private) (cache : Option Public) (p : Public)
      → cache ≡ some p
      → ◌≡◌ {A = Signer Private Public}
          (record { context = c; private_key = k; public_key = cache })
          (record { context = c; private_key = k; public_key = some p })
  refilled c k cache p e = rw e refl

  get_public_key-filled :
      (signer : Signer Private Public)
      → IsCoherent signer
      → get_public_key signer ≡ (ok (public_key_of signer), filled signer)
  unfolding get_public_key
  get_public_key-filled signer c = elim c.cached_key [
    | inl e ↦ simp e refl
    | inr e ↦ simp e (
        ap (λ (s : Signer Private Public). (ok (public_key_of signer), s))
          (refilled signer.context signer.private_key signer.public_key (public_key_of signer) e))
  ]

  public_key_hex-filled :
      (signer : Signer Private Public)
      → IsCoherent signer
      → public_key_hex signer ≡ (ok (key_text signer), filled signer)
  unfolding public_key_hex
  public_key_hex-filled signer c = rw (get_public_key-filled signer c) refl

  -- The call returns a value with this property, and leaves the signer with its cache filled.
  pub record Makes {A : Type 0} (signer : Signer Private Public) (P : A → Type 0)
      (r : Result A × Signer Private Public) : Type 0 where
    pub made : A
    pub returns : r ≡ (ok made, filled signer)
    pub holds : P made

module _ {Private Public : Type 0} (platform : Platform) (proto : Proto) where
  -- The transaction carries this header, which names the public key twice and the digest of the
  -- payload, and its signature is one of the header's bytes under that key.
  pub record IsSigned (c : Context Private Public) (p : Public) (h : TransactionHeader)
      (t : Transaction) : Type 0 where
    pub reads : proto.read_transaction_header t.header ≡ some h
    pub signer_key : c.public_from_hex h.signer_public_key ≡ ok p
    pub batcher_key : h.batcher_public_key ≡ h.signer_public_key
    pub digest : h.payload_sha512 ≡ platform.sha512_hexdigest t.payload
    pub verifies : c.verify (hex t.header_signature) t.header p ≡ true

  -- The batch carries the transactions, its header names the public key and the transactions'
  -- signatures in order, and its signature is one of the header's bytes under that key.
  pub record IsSignedBatch (c : Context Private Public) (p : Public) (ts : List Transaction)
      (b : Batch) : Type 0 where
    pub header : BatchHeader
    pub reads : proto.read_batch_header b.header ≡ some header
    pub signer_key : c.public_from_hex header.signer_public_key ≡ ok p
    pub ids : header.transaction_ids ≡ map (λ (t : Transaction). t.header_signature) b.transactions
    pub carries : b.transactions ≡ ts
    pub verifies : c.verify (hex b.header_signature) b.header p ≡ true

  pub sign_transaction-IsSigned :
      (header_of : Text → Text → TransactionHeader) (payload : Bytes)
      (signer : Signer Private Public)
      → IsSigner signer
      → (header_of (key_text signer) (key_text signer)).signer_public_key ≡ key_text signer
      → (header_of (key_text signer) (key_text signer)).batcher_public_key ≡ key_text signer
      → (header_of (key_text signer) (key_text signer)).payload_sha512
        ≡ platform.sha512_hexdigest payload
      → Makes signer
          (λ t.
            (t.payload ≡ payload)
            × IsSigned signer.context
                (public_key_of signer)
                (header_of (key_text signer) (key_text signer))
                t)
          (sign_transaction proto header_of payload signer)
  unfolding sign_transaction sign
  sign_transaction-IsSigned header_of payload signer is e f g =
      let h : TransactionHeader = header_of (key_text signer) (key_text signer) in
      let (s, signed) = is.signs (proto.transaction_header_bytes h) in
      let t : Transaction = record {
        header = proto.transaction_header_bytes h;
        payload = payload;
        header_signature = s;
      } in
      record {
        made = t;
        returns = rw (public_key_hex-filled signer is.coherent) (
            rw (public_key_hex-filled (filled signer) (filled-IsSigner signer is).coherent)
              (rw signed refl));
        holds = (
          refl,
          record {
            reads = proto.read_transaction_header-bytes h;
            signer_key = rw e (is.lawful.public_from_hex-as_hex (public_key_of signer));
            batcher_key = cc;
            digest = g;
            verifies = is.lawful.verify-sign t.header signer.private_key signed;
          },
        );
      }

  -- A batch is valid: `create_batch` with a signer that can sign returns a batch that carries the
  -- transactions, whose header names the public key of the signer and the signatures of the
  -- transactions in order, and whose signature verifies under that key as one of the header.
  pub create_batch-IsSignedBatch :
      (transactions : List Transaction) (signer : Signer Private Public)
      → IsSigner signer
      → Makes signer
          (IsSignedBatch signer.context (public_key_of signer) transactions)
          (create_batch proto transactions signer)
  unfolding create_batch sign
  create_batch-IsSignedBatch transactions signer is =
      let h : BatchHeader = record {
        signer_public_key = key_text signer;
        transaction_ids = map (λ (t : Transaction). t.header_signature) transactions;
      } in
      let (s, signed) = is.signs (proto.batch_header_bytes h) in
      record {
        made = record {
          header = proto.batch_header_bytes h;
          transactions = transactions;
          header_signature = s;
        };
        returns = rw (public_key_hex-filled signer is.coherent) (rw signed refl);
        holds = record {
          header = h;
          reads = proto.read_batch_header-bytes h;
          signer_key = is.lawful.public_from_hex-as_hex (public_key_of signer);
          ids = refl;
          carries = refl;
          verifies = is.lawful.verify-sign (proto.batch_header_bytes h) signer.private_key signed;
        };
      }
