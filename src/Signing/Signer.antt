-- ===== src/Signing/Signer.antt =====
-- sawtooth_signing/__init__.py: `Signer`, whose public key is computed at the first use, and
-- `CryptoFactory`.
use sawtooth_sdk_python.Base.{Option, none, some}
use sawtooth_sdk_python.Base.Text.{Text, Bytes}
use sawtooth_sdk_python.Base.Exec.{Exec, Result, ok}
use sawtooth_sdk_python.Signing.Keys.{Context}

pub record Signer (Private Public : Type 0) : Type 0 where
  pub context : Context Private Public
  pub private_key : Private
  pub public_key : Option Public

pub record CryptoFactory (Private Public : Type 0) : Type 0 where
  pub context : Context Private Public

module _ {Private Public : Type 0} where
  -- `Signer.__init__`
  unfoldable pub init : Context Private Public → Private → Signer Private Public
  init context private_key = record {
    context = context;
    private_key = private_key;
    public_key = none;
  }

  -- `CryptoFactory.new_signer`
  unfoldable pub new_signer : CryptoFactory Private Public → Private → Signer Private Public
  unfolding init
  new_signer factory private_key = init factory.context private_key

  -- `Signer.sign`
  unfoldable pub sign : Bytes → Exec (Signer Private Public) Text
  sign m signer = (signer.context.sign m signer.private_key, signer)

  abbrev cached : Signer Private Public → Option Public → Result Public × Signer Private Public
  cached signer (some p) = (ok p, signer)
  cached signer none =
      let p = signer.context.get_public_key signer.private_key in
      (ok p, record signer { public_key = some p })

  -- `Signer.get_public_key`
  unfoldable pub get_public_key : Exec (Signer Private Public) Public
  get_public_key signer = cached signer signer.public_key
