-- ===== src/Signing/Sound.antt =====
-- What a client relies on of a context of sawtooth_signing, and that the context of secp256k1 gives
-- it; the cache of a signer.
use sawtooth_sdk_python.Base.{◌≡◌, refl, true, none, some, ◌⊎◌, inl, inr, Option-cases, Bool-cases}
use sawtooth_sdk_python.Base.Text.{Text, Bytes, codes, text_eq, text_eq_iff}
use sawtooth_sdk_python.Base.Exec.{ok}
use sawtooth_sdk_python.Signing.Hex.{hexlify, unhexlify-hexlify, fromhex-hexlify}
use sawtooth_sdk_python.Signing.Keys.{
  Curve, Context, hex, private_as_hex, private_from_hex, public_as_hex, public_from_hex, sign,
  signature_bytes, parsed, verify, secp256k1_context, create_context,
}
use sawtooth_sdk_python.Signing.Signer.{Signer, init}

-- The keys are read back from their hexadecimal text, and what `sign` returns verifies under the
-- public key, as the text that it is.
pub record IsLawful {Private Public : Type 0} (c : Context Private Public) : Type 0 where
  pub private_from_hex-as_hex : (k : Private) → c.private_from_hex (c.private_as_hex k) ≡ ok k
  pub public_from_hex-as_hex : (p : Public) → c.public_from_hex (c.public_as_hex p) ≡ ok p
  pub verify-sign :
      (m : Bytes) (k : Private) {s : Text}
      → c.sign m k ≡ ok s
      → c.verify (hex s) m (c.get_public_key k) ≡ true

module _ {Private Public Signature : Type 0} (curve : Curve Private Public Signature) where
  private_round_trip : (k : Private) → private_from_hex curve (private_as_hex curve k) ≡ ok k
  unfolding private_from_hex private_as_hex
  private_round_trip k =
      rw (unhexlify-hexlify (curve.private_bytes k) (curve.private_bytes-IsBytes k))
        (rw (curve.private_of_bytes-private_bytes k, parsed) refl)

  public_round_trip : (p : Public) → public_from_hex curve (public_as_hex curve p) ≡ ok p
  unfolding public_from_hex public_as_hex
  public_round_trip p =
      rw (unhexlify-hexlify (curve.serialize p) (curve.serialize-IsBytes p))
        (rw (curve.public_of_bytes-serialize p, parsed) refl)

  verify-signed :
      (m : Bytes) (k : Private) (p : Public) (s : Signature)
      → curve.ecdsa_verify p m s ≡ true
      → verify curve (hex (hexlify (curve.ecdsa_serialize_compact k s))) m p ≡ true
  unfolding verify signature_bytes
  verify-signed m k p s h =
      rw (fromhex-hexlify (curve.ecdsa_serialize_compact k s) (curve.compact-IsBytes k s), verify)
        (rw (curve.deserialize-serialize k p s) h)

  verify-sign_lem :
      (m : Bytes) (k : Private) {s : Text}
      → sign curve m k ≡ ok s
      → verify curve (hex s) m (curve.pubkey k) ≡ true
  unfolding sign
  verify-sign_lem m k {s} h = elim (Option-cases (curve.ecdsa_sign k m)) [
    | inl e ↦ let f = rw (e, sign) at h in absurd (cc)
    | inr (t, e) ↦
        let same : ok (hexlify (curve.ecdsa_serialize_compact k t)) ≡ ok s = rw (e, sign) at h in
        let text : hexlify (curve.ecdsa_serialize_compact k t) ≡ s = cc in
        rw (← text) (verify-signed m k (curve.pubkey k) t (curve.verify-sign k m t e))
  ]

  pub secp256k1-IsLawful : IsLawful (secp256k1_context curve)
  unfolding secp256k1_context
  secp256k1-IsLawful = record {
    private_from_hex-as_hex = private_round_trip;
    public_from_hex-as_hex = public_round_trip;
    verify-sign = verify-sign_lem;
  }

  -- `create_context` returns a context for the name 'secp256k1' alone. There, a private and a public
  -- key are read back from their hexadecimal texts, and the text that `sign` returns verifies as a
  -- signature of that message under the key's public key.
  pub create_context-IsLawful :
      (name : Text) {c : Context Private Public}
      → create_context curve name ≡ ok c
      → (name ≡ codes "secp256k1") × IsLawful c
  unfolding create_context
  create_context-IsLawful name {c} h = elim (Bool-cases (text_eq name (codes "secp256k1"))) [
    | inl e ↦
        let same : ok (secp256k1_context curve) ≡ ok c = rw (e, create_context) at h in
        let made : secp256k1_context curve ≡ c = cc in
        ((text_eq_iff name (codes "secp256k1")).0 e, rw (← made) secp256k1-IsLawful)
    | inr e ↦ let f = rw (e, create_context) at h in absurd (cc)
  ]

module _ {Private Public : Type 0} where
  -- What is cached is the public key of the private key.
  pub record IsCoherent (signer : Signer Private Public) : Type 0 where
    pub cached_key :
        (signer.public_key ≡ none)
        ⊎ (signer.public_key ≡ some (signer.context.get_public_key signer.private_key))

  pub init-IsCoherent : (c : Context Private Public) (k : Private) → IsCoherent (init c k)
  unfolding init
  init-IsCoherent c k = record { cached_key = inl refl }
