-- ===== src/Signing/Keys.antt =====
-- sawtooth_signing/secp256k1.py: the keys and the context of the curve, over the package `secp256k1`,
-- which is a parameter; sawtooth_signing/core.py: the interface that the context implements.
use sawtooth_sdk_python.Base.{◌≡◌, Bool, true, false, Option, none, some, [], ◌∷◌, if◌then◌else◌}
use sawtooth_sdk_python.Base.Text.{Text, Bytes, codes, text_eq}
use sawtooth_sdk_python.Base.Exec.{
  Result, ok, raised, message, signing_error, parse_error, no_such_algorithm_error,
}
use sawtooth_sdk_python.Signing.Hex.{hexlify, unhexlify, fromhex, IsBytes}

-- The package `secp256k1`, where `none` stands for an exception: what is read back from the bytes of
-- a key or of a signature is that key or signature, the bytes are bytes, and a signature of a message
-- verifies under the public key of the key that made it.
pub record Curve (Private Public Signature : Type 0) : Type 0 where
  -- `PrivateKey(b)`, `.private_key` and `.pubkey`
  pub private_of_bytes : Bytes → Option Private
  pub private_bytes : Private → Bytes
  pub pubkey : Private → Public
  -- `PublicKey(b, raw=True)` and `.serialize()`
  pub public_of_bytes : Bytes → Option Public
  pub serialize : Public → Bytes
  pub ecdsa_sign : Private → Bytes → Option Signature
  pub ecdsa_serialize_compact : Private → Signature → Bytes
  pub ecdsa_deserialize_compact : Public → Bytes → Option Signature
  pub ecdsa_verify : Public → Bytes → Signature → Bool
  pub private_of_bytes-private_bytes : (k : Private) → private_of_bytes (private_bytes k) ≡ some k
  pub private_bytes-IsBytes : (k : Private) → IsBytes (private_bytes k)
  pub public_of_bytes-serialize : (p : Public) → public_of_bytes (serialize p) ≡ some p
  pub serialize-IsBytes : (p : Public) → IsBytes (serialize p)
  pub deserialize-serialize :
      (k : Private) (p : Public) (s : Signature)
      → ecdsa_deserialize_compact p (ecdsa_serialize_compact k s) ≡ some s
  pub compact-IsBytes : (k : Private) (s : Signature) → IsBytes (ecdsa_serialize_compact k s)
  pub verify-sign :
      (k : Private) (m : Bytes) (s : Signature)
      → ecdsa_sign k m ≡ some s
      → ecdsa_verify (pubkey k) m s ≡ true

-- The argument `signature` of `verify`: `str`, or `bytes`
pub data Signed : Type 0 where
  hex : Text → Signed
  raw : Bytes → Signed

-- `Context`, with the methods of its keys' classes `PrivateKey` and `PublicKey`
pub record Context (Private Public : Type 0) : Type 0 where
  pub algorithm_name : Text
  pub sign : Bytes → Private → Result Text
  pub verify : Signed → Bytes → Public → Bool
  pub get_public_key : Private → Public
  pub private_as_hex : Private → Text
  pub private_from_hex : Text → Result Private
  pub public_as_hex : Public → Text
  pub public_from_hex : Text → Result Public

-- The `try` of `from_hex`: `from_bytes` of the bytes that are read, if any.
abbrev pub parsed : {A : Type 0} → Result A → (Bytes → Option A) → Option Bytes → Result A
parsed failure of_bytes none = failure
parsed failure of_bytes (some bytes) = elim (of_bytes bytes) [ none ↦ failure | some a ↦ ok a ]

module _ {Private Public Signature : Type 0} (curve : Curve Private Public Signature) where
  -- `Secp256k1PrivateKey.as_hex`, of `as_bytes`
  unfoldable pub private_as_hex : Private → Text
  private_as_hex k = hexlify (curve.private_bytes k)

  -- `Secp256k1PrivateKey.from_hex`
  unfoldable pub private_from_hex : Text → Result Private
  private_from_hex t =
      parsed (raised (parse_error "Unable to parse hex private key: {}")) curve.private_of_bytes
        (unhexlify t)

  -- `Secp256k1PublicKey.as_hex`, of `as_bytes`
  unfoldable pub public_as_hex : Public → Text
  public_as_hex p = hexlify (curve.serialize p)

  -- `Secp256k1PublicKey.from_hex`
  unfoldable pub public_from_hex : Text → Result Public
  public_from_hex t =
      parsed (raised (parse_error "Unable to parse hex public key: {}")) curve.public_of_bytes
        (unhexlify t)

  -- `Secp256k1Context.sign`
  unfoldable pub sign : Bytes → Private → Result Text
  sign m k = elim (curve.ecdsa_sign k m) [
    | none ↦ raised (signing_error "Unable to sign message: {}")
    | some s ↦ ok (hexlify (curve.ecdsa_serialize_compact k s))
  ]

  -- The bytes of a signature.
  unfoldable pub signature_bytes : Signed → Option Bytes
  signature_bytes (hex t) = fromhex t
  signature_bytes (raw bytes) = some bytes

  abbrev verified : Bytes → Public → Option Signature → Bool
  verified m p none = false
  verified m p (some s) = curve.ecdsa_verify p m s

  -- `Secp256k1Context.verify`
  unfoldable pub verify : Signed → Bytes → Public → Bool
  unfolding signature_bytes
  verify signature m p = elim (signature_bytes signature) [
    | none ↦ false
    | some bytes ↦ verified m p (curve.ecdsa_deserialize_compact p bytes)
  ]

  -- `Secp256k1Context`
  unfoldable pub secp256k1_context : Context Private Public
  secp256k1_context = record {
    algorithm_name = codes "secp256k1";
    sign = sign;
    verify = verify;
    get_public_key = curve.pubkey;
    private_as_hex = private_as_hex;
    private_from_hex = private_from_hex;
    public_as_hex = public_as_hex;
    public_from_hex = public_from_hex;
  }

  -- `create_context`
  unfoldable pub create_context : Text → Result (Context Private Public)
  create_context algorithm_name =
      if text_eq algorithm_name (codes "secp256k1")
      then ok secp256k1_context
      else raised (no_such_algorithm_error (message "no such algorithm: {}" (algorithm_name ∷ [])))
