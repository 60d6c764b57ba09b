-- ===== src/Base/Exec.antt =====
-- Exceptions as values, and code that changes a state and may raise. What was written before a
-- raise stays written, so the state comes back beside the exception too.
use Prim.Native.Nat.{ℕ}
use Prim.Native.String.{String}
use mathlib.Core.Bool.{Bool, true, false}
use mathlib.Core.Option.{Option, none}
use mathlib.Core.List.{List}
use sawtooth_sdk_python.Base.Text.{Text, Bytes}

-- A message: the literal of the source, and what `format` puts into it.
pub record Message : Type 0 where
  pub template : String
  pub args : List Text

-- The exceptions of sawtooth_sdk/processor/exceptions.py, sawtooth_sdk/messaging,
-- sawtooth_sdk/consensus/exceptions.py, sawtooth_signing/core.py, the clients and the test library,
-- and those of Python that the code meets. What an exception of Python adds to the template of a
-- message is left out.
pub data Exc : Type 0 where
  invalid_transaction internal_error : Message → Option Bytes → Exc
  authorization_exception : Message → Exc
  validator_connection_error validator_version_error : Exc
  future_timeout_error future_collection_key_error : Exc
  invalid_state unknown_block block_not_ready no_chain_head : Exc
  receive_error : ℕ → Exc
  no_such_algorithm_error xo_exception intkey_client_exception : Message → Exc
  local_configuration_error invalid_merkle_address_exception : Message → Exc
  unknown_message_type_exception unexpected_message_exception : Exc
  signing_error parse_error : String → Exc
  value_error file_not_found : Exc
  key_error index_error type_error attribute_error unbound_local_error runtime_error : Exc
  cancelled_error timeout_error keyboard_interrupt decode_error : Exc

abbrev pub message : String → List Text → Message
message s ts = record { template = s; args = ts }

-- `InvalidTransaction(msg)` and `InternalError(msg)`, whose `extended_data` is None.
abbrev pub invalid : String → List Text → Exc
invalid s ts = invalid_transaction (message s ts) none

abbrev pub internal : String → List Text → Exc
internal s ts = internal_error (message s ts) none

pub data Result {ℓ} (A : Type ℓ) : Type ℓ where
  ok : A → Result A
  raised : Exc → Result A

abbrev pub then_do {ℓ κ} : {A : Type ℓ} {B : Type κ} → Result A → (A → Result B) → Result B
then_do (ok a) f = f a
then_do (raised e) f = raised e

abbrev pub Exec {ℓ κ} : Type ℓ → Type κ → Type (ℓ ⊔ κ)
Exec S A = S → Result A × S

module _ {ℓ κ} {S : Type ℓ} {A : Type κ} where
  abbrev pub pure : A → Exec S A
  pure a s = (ok a, s)

  abbrev pub raise : Exc → Exec S A
  raise e s = (raised e, s)

  abbrev pub lift : Result A → Exec S A
  lift r s = (r, s)

module _ {ℓ κ μ} {S : Type ℓ} {A : Type κ} {B : Type μ} where
  abbrev pub continue_with : Result A → S → (A → Exec S B) → Result B × S
  continue_with (ok a) s f = f a s
  continue_with (raised e) s f = (raised e, s)

  infixl 5 ◌>>=◌ ◌>>◌
  abbrev pub ◌>>=◌ : Exec S A → (A → Exec S B) → Exec S B
  ◌>>=◌ m f s = let (r, s') = m s in continue_with r s' f

  abbrev pub ◌>>◌ : Exec S A → Exec S B → Exec S B
  m >> k = m >>= λ _. k

-- `if b: raise e`
abbrev pub raise_if {ℓ} : {S : Type ℓ} → Bool → Exc → Exec S (Unit {0})
raise_if true e = raise e
raise_if false e = pure tt
