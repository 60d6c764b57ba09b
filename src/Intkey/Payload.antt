-- ===== src/Intkey/Payload.antt =====
-- examples/intkey_python/sawtooth_intkey/processor/handler.py: the payload, and its validation.
use sawtooth_sdk_python.Base.{
  ℕ, ◌≡◌, Bool, true, false, not, ◌||◌, Option, none, some, [], ◌∷◌, if◌then◌else◌, ltb, length,
}
use sawtooth_sdk_python.Base.Text.{Text, Bytes, codes, text_eq, is_empty}
use sawtooth_sdk_python.Base.Dict.{Dict, lookup}
use sawtooth_sdk_python.Base.Int.{ℤ, pos, ltb_ℤ}
use sawtooth_sdk_python.Base.Exec.{Result, ok, raised, invalid, then_do, key_error, type_error}

-- The values of a decoded payload or state that the code tells apart; `other` is any value that is
-- neither `str`, `int` nor `bool`.
pub data Value : Type 0 where
  int : ℤ → Value
  boolean : Bool → Value
  str : Text → Value
  other : Value

-- A decoded payload: a dict, or something that `content['Verb']` raises TypeError at.
pub data Content : Type 0 where
  mapping : Dict Value → Content
  not_a_mapping : Content

-- The package `cbor`. `loads_state` is `loads` at the data of a state entry, which the program takes
-- for a dict that `dumps` has written; `none` stands for any exception.
pub record Cbor : Type 0 where
  pub loads : Bytes → Option Content
  pub loads_state : Bytes → Option (Dict Value)
  pub dumps : Dict Value → Bytes
  pub loads_state-dumps : (d : Dict Value) → loads_state (dumps d) ≡ some d
  pub is_empty-dumps : (d : Dict Value) → is_empty (dumps d) ≡ false

abbrev pub max_value : ℕ
max_value = 4294967295

abbrev pub max_name_length : ℕ
max_name_length = 20

-- `content[key]`. The source catches AttributeError, which a missing key does not raise.
unfoldable pub subscript : Content → Text → Result Value
subscript not_a_mapping key = raised type_error
subscript (mapping d) key = elim (lookup key d) [ none ↦ raised key_error | some v ↦ ok v ]

pub record Request : Type 0 where
  pub verb : Value
  pub name : Value
  pub value : Value

abbrev pub fields_of : Content → Result Request
fields_of content = then_do (subscript content (codes "Verb")) (λ verb.
    then_do (subscript content (codes "Name")) (λ name.
      then_do (subscript content (codes "Value"))
        (λ value. ok (record { verb = verb; name = name; value = value }))))

-- `_decode_transaction`
unfoldable pub decode_transaction : Cbor → Bytes → Result Request
unfolding subscript
decode_transaction cbor payload = elim (cbor.loads payload) [
  | none ↦ raised (invalid "Invalid payload serialization" [])
  | some content ↦ fields_of content
]

-- `verb in VALID_VERBS`
unfoldable pub is_verb : Value → Bool
is_verb (str t) = text_eq t (codes "set") || text_eq t (codes "inc") || text_eq t (codes "dec")
is_verb (int n) = false
is_verb (boolean b) = false
is_verb other = false

-- `isinstance(name, str) and len(name) <= MAX_NAME_LENGTH`
unfoldable pub is_name : Value → Bool
is_name (str t) = not (ltb max_name_length (length t))
is_name (int n) = false
is_name (boolean b) = false
is_name other = false

-- The integer that a value is in arithmetic, if it is an `int`; a `bool` is one.
unfoldable pub as_int : Value → Option ℤ
as_int (int n) = some n
as_int (boolean true) = some (pos 1)
as_int (boolean false) = some (pos 0)
as_int (str t) = none
as_int other = none

unfoldable pub in_range : ℤ → Bool
in_range n = not (ltb_ℤ n (pos 0) || ltb_ℤ (pos max_value) n)

-- `isinstance(value, int) and 0 <= value <= MAX_VALUE`
unfoldable pub is_value : Value → Bool
unfolding as_int in_range
is_value v = elim (as_int v) [ none ↦ false | some n ↦ in_range n ]

-- `_validate_verb`, `_validate_name` and `_validate_value`, in this order
unfoldable pub validate : Request → Result Request
unfolding is_verb is_name is_value
validate r =
    if not (is_verb r.verb)
    then raised (invalid "Verb must be \"set\", \"inc\", or \"dec\"" [])
    else if not (is_name r.name)
    then raised (invalid "Name must be a string of no more than {} characters" (codes "20" ∷ []))
    else if not (is_value r.value)
    then raised (
        invalid "Value must be an integer no less than {i} and no greater than {a}"
          (codes "0" ∷ codes "4294967295" ∷ []))
    else ok r

-- `_unpack_transaction`
unfoldable pub unpack_transaction : Cbor → Bytes → Result Request
unfolding decode_transaction validate
unpack_transaction cbor payload = then_do (decode_transaction cbor payload) validate
