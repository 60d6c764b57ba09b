-- ===== src/Batch/Noop.antt =====
-- examples/noop_python/sawtooth_noop/client_cli/create_batch.py: transactions whose payload is a nonce.
use sawtooth_sdk_python.Base.{ℕ, suc, zero, ◌≡◌, refl, sym, subst, Option, none, some, []}
use Prim.Native.Nat.{◌/◌, ◌%◌}
use sawtooth_sdk_python.Base.{◌∷◌}
use sawtooth_sdk_python.Base.Text.{Text, Bytes, codes}
use sawtooth_sdk_python.Base.Exec.{Exec}
use sawtooth_sdk_python.Base.Platform.{Platform}
use sawtooth_sdk_python.Signing.Hex.{hexlify}
use sawtooth_sdk_python.Signing.Signer.{Signer}
use sawtooth_sdk_python.Batch.Messages.{Proto, TransactionHeader, Transaction, sign_transaction}
use sawtooth_sdk_python.Batch.Signed.{
  IsSigner, IsSigned, Makes, key_text, public_key_of, sign_transaction-IsSigned,
}

-- `n.to_bytes(count, byteorder='little')`, of a number that fits
unfoldable pub to_bytes : ℕ → ℕ → Bytes
to_bytes zero n = []
to_bytes (suc count) n = n % 256 ∷ to_bytes count (n / 256)

pub record NoopPayload : Type 0 where
  pub nonce : Bytes
  pub sha512_digest : Option Text

-- `NoopPayload.__init__`, with the 64 random bits that it draws. The text of `b2a_hex` is ASCII, so
-- that its bytes are its code points.
unfoldable pub new_payload : ℕ → NoopPayload
new_payload bits = record { nonce = hexlify (to_bytes 8 bits); sha512_digest = none }

unfoldable pub sha512 : Platform → NoopPayload → Text × NoopPayload
sha512 platform p = elim p.sha512_digest [
  | some digest ↦ (digest, p)
  | none ↦
      let digest = platform.sha512_hexdigest p.nonce in
      (digest, record p { sha512_digest = some digest })
]

unfoldable pub noop_header : Text → Text → Text → Text → TransactionHeader
noop_header digest nonce signer_key batcher_key = record {
  signer_public_key = signer_key;
  family_name = codes "noop";
  family_version = codes "1.0";
  inputs = [];
  outputs = [];
  dependencies = [];
  payload_sha512 = digest;
  batcher_public_key = batcher_key;
  nonce = nonce;
}

module _ (platform : Platform) (proto : Proto) {Private Public : Type 0} where
  -- `create_noop_transaction`, with the bits and the nonce that it draws
  unfoldable pub create_noop_transaction : ℕ → Text → Exec (Signer Private Public) Transaction
  unfolding new_payload sha512 noop_header
  create_noop_transaction bits nonce =
      let (digest, p) = sha512 platform (new_payload bits) in
      sign_transaction proto (noop_header digest nonce) p.nonce

  -- A noop transaction is valid: `create_noop_transaction` with a signer that can sign returns a
  -- transaction whose payload is the hexadecimal text of the eight random bytes, the lowest first,
  -- whose header is for 'noop' 1.0 with no addresses and no dependencies, names the signer's key
  -- twice and the digest of the payload, and whose signature verifies under that key as one of the
  -- header.
  pub create_noop_transaction-IsSigned :
      (bits : ℕ) (nonce : Text) (signer : Signer Private Public)
      → IsSigner signer
      → Makes signer
          (λ t.
            (t.payload ≡ hexlify (to_bytes 8 bits))
            × IsSigned platform proto signer.context
                (public_key_of signer)
                (noop_header
                  (platform.sha512_hexdigest t.payload)
                  nonce
                  (key_text signer)
                  (key_text signer))
                t)
          (create_noop_transaction bits nonce signer)
  unfolding create_noop_transaction new_payload sha512 noop_header
  create_noop_transaction-IsSigned bits nonce signer is =
      let bytes = hexlify (to_bytes 8 bits) in
      let m =
        sign_transaction-IsSigned platform proto
          (noop_header (platform.sha512_hexdigest bytes) nonce) bytes signer is refl refl refl in
      record {
        made = m.made;
        returns = m.returns;
        holds = (
          m.holds.0,
          subst
              (λ p.
                IsSigned platform proto signer.context (public_key_of signer)
                  (noop_header (platform.sha512_hexdigest p) nonce (key_text signer)
                    (key_text signer))
                  m.made)
              (sym m.holds.0) m.holds.1,
        );
      }
