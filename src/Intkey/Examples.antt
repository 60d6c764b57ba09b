-- ===== src/Intkey/Examples.antt =====
-- The theorems on examples/intkey_python/sawtooth_intkey/processor/handler.py at a few transactions.
use sawtooth_sdk_python.Base.{
  ◌↔◌, ℕ, ◌≡◌, ◌⊎◌, true, false, Bool-cases, if◌then◌else◌, refl, sym, ◌∙◌, inl, inr, some, none,
  [], ◌∷◌, arith,
}
use sawtooth_sdk_python.Base.Ascii.{ascii}
use sawtooth_sdk_python.Base.Text.{Text, codes, text_eq}
use sawtooth_sdk_python.Base.Dict.{Dict, lookup}
use sawtooth_sdk_python.Base.Exec.{ok}
use sawtooth_sdk_python.Base.Int.{pos}
use sawtooth_sdk_python.Processor.Validator.{memory_context, memory_laws}
use sawtooth_sdk_python.Intkey.Amounts.{
  IsAmount, IsBounded, amount, verb_amount, Follows, do_intkey-Follows,
}
use sawtooth_sdk_python.Intkey.Handler.{run_request}
use sawtooth_sdk_python.Intkey.Ledger.{IsLedger, nothing, held, Effect, run_request-Effect}
use sawtooth_sdk_python.Intkey.Payload.{
  Value, int, str, Request, is_verb, is_name, is_value, as_int, in_range, validate,
  unpack_transaction, decode_transaction, subscript,
}
use sawtooth_sdk_python.Intkey.Plain.{plain, loads-dumps}
use sawtooth_sdk_python.Intkey.Unpack.{IsValid, Holds, unpack_transaction-iff-IsValid}
use sawtooth_sdk_python.Intkey.Verbs.{do_intkey}

abbrev a : Text
a = codes "a"

inc_valid : is_verb (str (codes "inc")) ≡ true
unfolding is_verb text_eq
inc_valid = refl

four-IsAmount : IsAmount (int (pos 4)) 4
unfolding as_int
four-IsAmount = record { reads = refl; bounded = omega arith }

abbrev holds_nine : Dict Value
holds_nine = (a, int (pos 9)) ∷ []

nine-IsBounded : IsBounded holds_nine
unfolding lookup as_int
nine-IsBounded = record { at = λ k v h. held_value k v (Bool-cases (text_eq a k)) h }
  where
    held_value :
        (k : Text) (v : Value)
        → (text_eq a k ≡ true) ⊎ (text_eq a k ≡ false)
        → (if text_eq a k then some (int (pos 9)) else none) ≡ some v
        → (n : ℕ) × IsAmount v n
    held_value k v (inl e) h =
        let f : some (int (pos 9)) ≡ some v = sym (rw e refl) ∙ h in
        let g : int (pos 9) ≡ v = cc in
        (9, rw (← g) (record { reads = refl; bounded = omega arith }))
    held_value k v (inr e) h = let f : none ≡ some v = sym (rw e refl) ∙ h in absurd (cc)

do_intkey-Follows_example :
    Follows a holds_nine
      (verb_amount (codes "inc") 4 (amount holds_nine a))
      (do_intkey (codes "inc") a (int (pos 4)) holds_nine)
do_intkey-Follows_example =
    do_intkey-Follows a (int (pos 4)) 4 holds_nine nine-IsBounded four-IsAmount (codes "inc")
      inc_valid

empty-IsLedger : IsLedger ascii plain memory_context memory_laws []
unfolding lookup
empty-IsLedger = record { at = λ address. nothing refl }

run_request-Effect_example :
    Effect ascii plain memory_context memory_laws a []
      (verb_amount (codes "inc") 4 (held ascii plain memory_context memory_laws [] a))
      (run_request ascii plain memory_context (str (codes "inc")) (str a) (int (pos 4)) [])
run_request-Effect_example =
    run_request-Effect ascii plain memory_context memory_laws (codes "inc") a (int (pos 4)) 4 []
      inc_valid four-IsAmount empty-IsLedger

-- { 'Verb': 'set', 'Name': 'a', 'Value': 4 }
abbrev set_a : Dict Value
set_a =
    (codes "Verb", str (codes "set")) ∷ (codes "Name", str a) ∷ (codes "Value", int (pos 4)) ∷ []

abbrev set_a_request : Request
set_a_request = record { verb = str (codes "set"); name = str a; value = int (pos 4) }

unpack_set_a : unpack_transaction plain (plain.dumps set_a) ≡ ok set_a_request
unfolding unpack_transaction decode_transaction subscript lookup text_eq validate is_verb is_name
    is_value as_int in_range
unpack_set_a = rw (loads-dumps set_a, decode_transaction) refl

unpack_transaction-iff-IsValid_example :
    (unpack_transaction plain (plain.dumps set_a) ≡ ok set_a_request)
    ↔ (Holds plain (plain.dumps set_a) set_a_request × IsValid set_a_request)
unpack_transaction-iff-IsValid_example =
    unpack_transaction-iff-IsValid plain (plain.dumps set_a) set_a_request
