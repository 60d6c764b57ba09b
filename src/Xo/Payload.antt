-- ===== src/Xo/Payload.antt =====
-- examples/xo_python/sawtooth_xo/processor/xo_payload.py: the payload of a transaction.
use sawtooth_sdk_python.Base.{not, ◌||◌, none, some, List, [], ◌∷◌, if◌then◌else◌}
use sawtooth_sdk_python.Base.Text.{Text, Bytes, codes, text_eq, has, is_empty}
use sawtooth_sdk_python.Base.Text.Split.{split}
use sawtooth_sdk_python.Base.Int.{ℤ, pos, ltb_ℤ}
use sawtooth_sdk_python.Base.Exec.{Result, ok, raised, invalid, then_do}
use sawtooth_sdk_python.Base.Platform.{Platform, parse_int}

-- `self._space` stays the text of the payload, or becomes a number if the action is `take`.
pub data Space : Type 0 where
  raw : Text → Space
  number : ℤ → Space

pub record XoPayload : Type 0 where
  pub name : Text
  pub action : Text
  pub space : Space

-- `int(space) not in range(1, 10)`, with the ValueError of `int`
unfoldable pub read_space : Platform → Text → Result ℤ
read_space platform space = elim (parse_int platform space) [
  | none ↦ raised (invalid "Space must be an integer from 1 to 9" [])
  | some n ↦
      if ltb_ℤ n (pos 1) || not (ltb_ℤ n (pos 10))
      then raised (invalid "Space must be an integer from 1 to 9" [])
      else ok n
]

-- The checks of the three fields, in the order of the source.
unfoldable pub check_fields : Platform → Text → Text → Text → Result XoPayload
unfolding read_space
check_fields platform name action space =
    if is_empty name
    then raised (invalid "Name is required" [])
    else if has b'|' name
    then raised (invalid "Name cannot contain \"|\"" [])
    else if is_empty action
    then raised (invalid "Action is required" [])
    else if not (
        text_eq action (codes "create")
        || text_eq action (codes "take")
        || text_eq action (codes "delete"))
    then raised (invalid "Invalid action: {}" (action ∷ []))
    else if text_eq action (codes "take")
    then then_do (read_space platform space)
        (λ n. ok (record { name = name; action = action; space = number n }))
    else ok (record { name = name; action = action; space = raw space })

unfoldable pub three_fields : Platform → List Text → Result XoPayload
unfolding check_fields
three_fields platform (name ∷ action ∷ space ∷ []) = check_fields platform name action space
three_fields platform _ = raised (invalid "Invalid payload serialization" [])

-- `XoPayload.from_bytes`
unfoldable pub from_bytes : Platform → Bytes → Result XoPayload
unfolding three_fields
from_bytes platform payload = elim (platform.decode payload) [
  | none ↦ raised (invalid "Invalid payload serialization" [])
  | some text ↦ three_fields platform (split b',' text)
]
