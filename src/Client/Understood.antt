-- ===== src/Client/Understood.antt =====
-- What `XoClient` of examples/xo_python/sawtooth_xo/xo_client.py sends is what the processor of
-- examples/xo_python/sawtooth_xo/processor reads.
use sawtooth_sdk_python.Client.Posted.{Posted}
use sawtooth_sdk_python.Client.Waits.{post_batch-Posted}
use sawtooth_sdk_python.Base.{ℕ, ◌≡◌, refl, sym, subst, Option, some, List, [], ◌∷◌, take, true}
use sawtooth_sdk_python.Base.Text.{Text, codes, text_eq}
use sawtooth_sdk_python.Base.Text.Split.{split, join, IsFree, split-join}
use sawtooth_sdk_python.Base.Dict.{Dict}
use sawtooth_sdk_python.Base.Exec.{Result}
use sawtooth_sdk_python.Base.Platform.{Platform}
use sawtooth_sdk_python.Signing.Signer.{Signer}
use sawtooth_sdk_python.Batch.Messages.{Proto, Transaction, Batch, TransactionHeader}
use sawtooth_sdk_python.Batch.Signed.{
  IsSigner, IsSigned, IsSignedBatch, key_text, public_key_of, filled, filled-IsSigner,
  sign_transaction-IsSigned, create_batch-IsSignedBatch,
}
use sawtooth_sdk_python.Xo.Payload.{from_bytes, three_fields, check_fields}
use sawtooth_sdk_python.Xo.State.{make_xo_address, xo_namespace}
use sawtooth_sdk_python.Client.Rest.{Rest, post_batch}
use sawtooth_sdk_python.Client.Xo.{
  XoClient, failures, get_prefix, get_address, xo_payload, xo_header, xo_batch, send_xo_txn,
}

module _ (platform : Platform) where
  from_bytes-xo_payload :
      (name action space : Text)
      → IsFree b',' name
      → IsFree b',' action
      → IsFree b',' space
      → from_bytes platform (xo_payload platform name action space)
        ≡ check_fields platform name action space
  unfolding from_bytes xo_payload
  from_bytes-xo_payload name action space n a s =
      let ws = name ∷ action ∷ space ∷ [] in
      let words : split b',' (join b',' ws) ≡ ws = split-join b',' ws (λ e. cc) (n, (a, (s, tt))) in
      rw (platform.decode-encode (join b',' ws), from_bytes) (rw (words, three_fields) refl)

  get_address-eq : (name : Text) → get_address platform name ≡ make_xo_address platform name
  unfolding get_address get_prefix make_xo_address xo_namespace
  get_address-eq name = refl

  -- The header of a transaction for 'xo' 1.0 on one game: the address that the processor has for the
  -- name is its input and its output, and the key is the signer's and the batcher's.
  abbrev pub header_for : (name digest nonce key : Text) → TransactionHeader
  header_for name digest nonce key = record {
    signer_public_key = key;
    family_name = codes "xo";
    family_version = codes "1.0";
    inputs = make_xo_address platform name ∷ [];
    outputs = make_xo_address platform name ∷ [];
    dependencies = [];
    payload_sha512 = digest;
    batcher_public_key = key;
    nonce = nonce;
  }

  xo_header-eq :
      (name digest nonce key : Text)
      → xo_header platform name digest nonce key key ≡ header_for name digest nonce key
  unfolding xo_header
  xo_header-eq name digest nonce key = rw (get_address-eq name) refl

  module _ (proto : Proto) {W Private Public : Type 0} (rest : Rest W) where
    -- A call posts a batch, of one transaction, that is signed, names the processor's address, and
    -- has a payload that the processor reads as the three fields.
    pub record Sends (client : XoClient W Private Public) (signer : Signer Private Public)
        (name action space nonce : Text) (auth : Dict Text) (wait : Option ℕ) (elapsed : List ℕ)
        (r : Result Text × XoClient W Private Public) : Type 0 where
      pub batch : Batch
      pub transaction : Transaction
      pub posts : Posted rest client.base_url auth batch wait elapsed client.world r.0 r.1.world
      pub left : r.1 ≡ record client { signer = some (filled signer); world = r.1.world }
      pub signed_batch :
          IsSignedBatch platform proto signer.context
            (public_key_of signer)
            (transaction ∷ [])
            batch
      pub signed :
          IsSigned platform proto signer.context
            (public_key_of signer)
            (header_for name
              (platform.sha512_hexdigest transaction.payload)
              nonce
              (key_text signer))
            transaction
      pub understood :
          from_bytes platform transaction.payload ≡ check_fields platform name action space

    -- What the client sends the processor understands: `_send_xo_txn` of a client with a signer that
    -- can sign, for a url that begins with http://, posts a batch list of one batch with one
    -- transaction; an answer that is no success is reported, and otherwise, if it is told to wait, it
    -- asks for the status of this batch until the status is not PENDING, the time is over or an answer
    -- has no status. The batch and the transaction are signed under the signer's key, the transaction
    -- is for 'xo' 1.0 and has as input and output just the address that the processor has for the
    -- game's name, and the processor reads its payload as the name, the action and the space, and
    -- checks them. This is so where none of the three has a comma in it.
    pub send_xo_txn-Sends :
        (client : XoClient W Private Public) (signer : Signer Private Public)
        (name action space nonce : Text) (auth : Dict Text) (wait : Option ℕ) (elapsed : List ℕ)
        → client.signer ≡ some signer
        → IsSigner signer
        → IsFree b',' name
        → IsFree b',' action
        → IsFree b',' space
        → text_eq (take 7 client.base_url) (codes "http://") ≡ true
        → Sends client signer name action space nonce auth wait elapsed
            (send_xo_txn platform rest proto name action space nonce auth wait elapsed client)
    unfolding send_xo_txn xo_batch xo_header
    send_xo_txn-Sends client signer name action space nonce auth wait elapsed has is n a s http =
        let bytes = xo_payload platform name action space in
        let m =
          sign_transaction-IsSigned platform proto
            (xo_header platform name (platform.sha512_hexdigest bytes) nonce) bytes signer is refl
            refl refl in
        let b =
          create_batch-IsSignedBatch platform proto (m.made ∷ []) (filled signer)
            (filled-IsSigner signer is) in
        let sent : send_xo_txn platform rest proto name action space nonce auth wait elapsed client
            ≡ (let (answer, w) =
                  post_batch rest failures client.base_url auth b.made wait elapsed client.world in
                (answer, record client { signer = some (filled signer); world = w })) =
          rw (has, send_xo_txn) (rw (m.returns, xo_batch) (rw (b.returns, xo_batch) refl)) in
        record {
          batch = b.made;
          transaction = m.made;
          posts =
              subst
                (λ (out : Result Text × XoClient W Private Public).
                  Posted rest client.base_url auth b.made wait elapsed client.world out.0
                    out.1.world)
                (sym sent)
                (post_batch-Posted rest failures client.base_url http auth b.made wait elapsed
                  client.world);
          left =
              subst
                (λ (out : Result Text × XoClient W Private Public).
                  out.1 ≡ record client { signer = some (filled signer); world = out.1.world })
                (sym sent) refl;
          signed_batch = b.holds;
          signed =
              subst
                (λ p.
                  IsSigned platform proto signer.context (public_key_of signer)
                    (header_for name (platform.sha512_hexdigest p) nonce (key_text signer)) m.made)
                (sym m.holds.0)
                (subst (λ h. IsSigned platform proto signer.context (public_key_of signer) h m.made)
                  (xo_header-eq name (platform.sha512_hexdigest bytes) nonce (key_text signer))
                  m.holds.1);
          understood =
              subst (λ p. from_bytes platform p ≡ check_fields platform name action space)
                (sym m.holds.0) (from_bytes-xo_payload name action space n a s);
        }
