-- ===== src/Signing/Bits.antt =====
-- A curve of two keys, to run the program with: a signature is the key that made it.
use sawtooth_sdk_python.Base.{
  zero, suc, ◌≡◌, refl, Bool, true, false, Option, none, some, [], ◌∷◌, arith, if◌then◌else◌,
}
use sawtooth_sdk_python.Base.Text.{Bytes}
use sawtooth_sdk_python.Signing.Hex.{IsBytes}
use sawtooth_sdk_python.Signing.Keys.{Curve, Context, secp256k1_context}

abbrev bit_bytes : Bool → Bytes
bit_bytes b = (if b then 1 else 0) ∷ []

abbrev bytes_bit : Bytes → Option Bool
bytes_bit (zero ∷ []) = some false
bytes_bit (suc zero ∷ []) = some true
bytes_bit bytes = none

abbrev same : Bool → Bool → Bool
same true b = b
same false b = if b then false else true

pub bytes_bit-bit_bytes : (b : Bool) → bytes_bit (bit_bytes b) ≡ some b
bytes_bit-bit_bytes true = refl
bytes_bit-bit_bytes false = refl

pub bit_bytes-IsBytes : (b : Bool) → IsBytes (bit_bytes b)
bit_bytes-IsBytes true = omega arith
bit_bytes-IsBytes false = omega arith

pub signed_by : (k s : Bool) → some k ≡ some s → same k s ≡ true
signed_by true true h = refl
signed_by true false h = absurd (cc)
signed_by false true h = absurd (cc)
signed_by false false h = refl

abbrev pub bits : Curve Bool Bool Bool
bits = record {
  private_of_bytes = bytes_bit;
  private_bytes = bit_bytes;
  pubkey = λ k. k;
  public_of_bytes = bytes_bit;
  serialize = bit_bytes;
  ecdsa_sign = λ k m. some k;
  ecdsa_serialize_compact = λ k s. bit_bytes s;
  ecdsa_deserialize_compact = λ p b. bytes_bit b;
  ecdsa_verify = λ p m s. same p s;
  private_of_bytes-private_bytes = bytes_bit-bit_bytes;
  private_bytes-IsBytes = bit_bytes-IsBytes;
  public_of_bytes-serialize = bytes_bit-bit_bytes;
  serialize-IsBytes = bit_bytes-IsBytes;
  deserialize-serialize = λ k p s. bytes_bit-bit_bytes s;
  compact-IsBytes = λ k s. bit_bytes-IsBytes s;
  verify-sign = λ k m s h. signed_by k s h;
}

abbrev pub bits_context : Context Bool Bool
bits_context = secp256k1_context bits
