-- ===== src/Intkey/Verbs.antt =====
-- examples/intkey_python/sawtooth_intkey/processor/handler.py: `_do_intkey` and the three verbs.
-- The messages for the log are not modelled.
use sawtooth_sdk_python.Base.{none, some, [], ◌∷◌, if◌then◌else◌}
use sawtooth_sdk_python.Base.Text.{Text, codes, text_eq}
use sawtooth_sdk_python.Base.Dict.{Dict, lookup, insert}
use sawtooth_sdk_python.Base.Int.{ℤ, pos, ◌+ℤ◌, ◌-ℤ◌, ltb_ℤ}
use sawtooth_sdk_python.Base.Exec.{Result, ok, raised, invalid, internal, then_do, type_error}
use sawtooth_sdk_python.Intkey.Payload.{Value, int, as_int, max_value}

-- An operand of `+` or `-`.
unfoldable pub operand : Value → Result ℤ
unfolding as_int
operand v = elim (as_int v) [ none ↦ raised type_error | some n ↦ ok n ]

unfoldable pub do_set : Text → Value → Dict Value → Result (Dict Value)
do_set name value state = elim (lookup name state) [
  | some v ↦
      raised (invalid "Verb is \"set\", but already exists: Name: {n}, Value {v}" (name ∷ []))
  | none ↦ ok (insert name value state)
]

unfoldable pub do_inc : Text → Value → Dict Value → Result (Dict Value)
unfolding operand
do_inc name value state = elim (lookup name state) [
  | none ↦ raised (invalid "Verb is \"inc\" but name \"{}\" not in state" (name ∷ []))
  | some v ↦ then_do (operand v) (λ curr. then_do (operand value) (λ n.
      if ltb_ℤ (pos max_value) (curr +ℤ n)
      then raised
          (invalid "Verb is \"inc\", but result would be greater than {}" (codes "4294967295" ∷ []))
      else ok (insert name (int (curr +ℤ n)) state)))
]

unfoldable pub do_dec : Text → Value → Dict Value → Result (Dict Value)
unfolding operand
do_dec name value state = elim (lookup name state) [
  | none ↦ raised (invalid "Verb is \"dec\" but name \"{}\" not in state" (name ∷ []))
  | some v ↦ then_do (operand v) (λ curr. then_do (operand value) (λ n.
      if ltb_ℤ (curr -ℤ n) (pos 0)
      then raised (invalid "Verb is \"dec\", but result would be less than {}" (codes "0" ∷ []))
      else ok (insert name (int (curr -ℤ n)) state)))
]

-- `_do_intkey`
unfoldable pub do_intkey : Text → Text → Value → Dict Value → Result (Dict Value)
unfolding do_set do_inc do_dec
do_intkey verb name value state =
    if text_eq verb (codes "set")
    then do_set name value state
    else if text_eq verb (codes "inc")
    then do_inc name value state
    else if text_eq verb (codes "dec")
    then do_dec name value state
    else raised (internal "Unhandled verb: {}" (verb ∷ []))
