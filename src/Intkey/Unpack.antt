-- ===== src/Intkey/Unpack.antt =====
-- What `_unpack_transaction` lets through.
use sawtooth_sdk_python.Base.{
  ℕ, ◌≤◌, ◌≡◌, refl, ap, true, false, some, ◌↔◌, Bool-cases, Option-cases, ◌⊎◌, inl, inr, arith,
  length,
}
use sawtooth_sdk_python.Base.Text.{Text, Bytes, codes, text_eq, text_eq_iff}
use sawtooth_sdk_python.Base.Dict.{Dict, lookup}
use sawtooth_sdk_python.Base.Int.{pos, negsuc}
use sawtooth_sdk_python.Base.Exec.{Result, ok, raised, then_do}
use sawtooth_sdk_python.Intkey.Payload.{
  Value, Content, not_a_mapping, fields_of, int, boolean, str, other, mapping, Cbor, Request,
  as_int, in_range, is_value, is_verb, is_name, validate, subscript, decode_transaction,
  unpack_transaction,
}
use sawtooth_sdk_python.Intkey.Amounts.{IsAmount}

-- The value is this number; a Boolean is one.
pub data IsNumber : Value → ℕ → Type 0 where
  integer : (n : ℕ) → IsNumber (int (pos n)) n
  yes : IsNumber (boolean true) 1
  no : IsNumber (boolean false) 0

-- A request that may be run.
pub record IsValid (r : Request) : Type 0 where
  pub verb :
      (r.verb ≡ str (codes "set")) ⊎ (r.verb ≡ str (codes "inc")) ⊎ (r.verb ≡ str (codes "dec"))
  pub name : (t : Text) × (r.name ≡ str t) × (length t ≤ 20)
  pub value : (n : ℕ) × IsNumber r.value n × (n ≤ 4294967295)

-- The request that a payload holds: its three fields, with values of any kind.
pub record Holds (cbor : Cbor) (payload : Bytes) (r : Request) : Type 0 where
  pub content : Dict Value
  pub loads : cbor.loads payload ≡ some (mapping content)
  pub verb : lookup (codes "Verb") content ≡ some r.verb
  pub name : lookup (codes "Name") content ≡ some r.name
  pub value : lookup (codes "Value") content ≡ some r.value

-- A chain of two that returns: both return.
then_do-eq_ok :
    {A B : Type 0} (m : Result A) {f : A → Result B} {b : B}
    → then_do m f ≡ ok b
    → (a : A) × (m ≡ ok a) × (f a ≡ ok b)
then_do-eq_ok (ok a) h = (a, refl, h)
then_do-eq_ok (raised e) h = absurd (cc)

verb_of :
    (v : Value)
    → is_verb v ≡ true
    → (v ≡ str (codes "set")) ⊎ (v ≡ str (codes "inc")) ⊎ (v ≡ str (codes "dec"))
unfolding is_verb
verb_of (str t) h = elim (Bool-cases (text_eq t (codes "set"))) [
  | inl e ↦ inl (ap str ((text_eq_iff t (codes "set")).0 e))
  | inr e ↦ elim (Bool-cases (text_eq t (codes "inc"))) [
    | inl f ↦ inr (inl (ap str ((text_eq_iff t (codes "inc")).0 f)))
    | inr f ↦ inr (
        inr (
          ap str (
            (text_eq_iff t (codes "dec")).0
              (let d : text_eq t (codes "dec") ≡ true = ground arith in d))))
  ]
]
verb_of (int n) h = absurd (cc)
verb_of (boolean b) h = absurd (cc)
verb_of other h = absurd (cc)

name_of : (v : Value) → is_name v ≡ true → (t : Text) × (v ≡ str t) × (length t ≤ 20)
unfolding is_name
name_of (str t) h = (t, refl, ground arith)
name_of (int n) h = absurd (cc)
name_of (boolean b) h = absurd (cc)
name_of other h = absurd (cc)

amount_of : (v : Value) → is_value v ≡ true → (n : ℕ) × IsNumber v n × (n ≤ 4294967295)
unfolding is_value as_int in_range
amount_of (int (pos n)) h = (n, integer n, ground arith)
amount_of (int (negsuc n)) h = absurd (ground arith)
amount_of (boolean true) h = (1, yes, omega arith)
amount_of (boolean false) h = (0, no, omega arith)
amount_of (str t) h = absurd (cc)
amount_of other h = absurd (cc)

validate-eq_ok :
    (r : Request) {r' : Request}
    → validate r ≡ ok r'
    → (r' ≡ r) × (is_verb r.verb ≡ true) × (is_name r.name ≡ true) × (is_value r.value ≡ true)
unfolding validate
validate-eq_ok r h = ground arith

is_verb-IsValid : (r : Request) → IsValid r → is_verb r.verb ≡ true
unfolding is_verb text_eq
is_verb-IsValid r h = elim h.verb [
  | inl e ↦ rw e refl
  | inr (inl e) ↦ rw e refl
  | inr (inr e) ↦ rw e refl
]

is_name-IsValid : (r : Request) → IsValid r → is_name r.name ≡ true
unfolding is_name
is_name-IsValid r h = let (t, e, short) = h.name in rw e (ground arith)

is_value-IsNumber : (v : Value) (n : ℕ) → IsNumber v n → n ≤ 4294967295 → is_value v ≡ true
unfolding is_value as_int in_range
is_value-IsNumber v n (integer m) small = ground arith
is_value-IsNumber v n yes small = refl
is_value-IsNumber v n no small = refl

is_value-IsValid : (r : Request) → IsValid r → is_value r.value ≡ true
is_value-IsValid r h = let (n, is, small) = h.value in is_value-IsNumber r.value n is small

number-IsAmount : (v : Value) (n : ℕ) → IsNumber v n → n ≤ 4294967295 → IsAmount v n
unfolding as_int
number-IsAmount v n (integer m) small = record { reads = refl; bounded = small }
number-IsAmount v n yes small = record { reads = refl; bounded = small }
number-IsAmount v n no small = record { reads = refl; bounded = small }

pub IsAmount-IsValid : (r : Request) → IsValid r → (n : ℕ) × IsAmount r.value n
IsAmount-IsValid r h = let (n, is, small) = h.value in (n, number-IsAmount r.value n is small)

pub verb-IsValid :
    (r : Request) → IsValid r → (t : Text) × (r.verb ≡ str t) × (is_verb (str t) ≡ true)
verb-IsValid r h = elim h.verb [
  | inl e ↦ (codes "set", e, rw⁻¹ e (is_verb-IsValid r h))
  | inr (inl e) ↦ (codes "inc", e, rw⁻¹ e (is_verb-IsValid r h))
  | inr (inr e) ↦ (codes "dec", e, rw⁻¹ e (is_verb-IsValid r h))
]

validate-IsValid : (r : Request) → IsValid r → validate r ≡ ok r
unfolding validate
validate-IsValid r h = rw (is_verb-IsValid r h, is_name-IsValid r h, is_value-IsValid r h) refl

decode_transaction-Holds :
    (cbor : Cbor) (payload : Bytes) (r : Request)
    → Holds cbor payload r
    → decode_transaction cbor payload ≡ ok r
unfolding decode_transaction subscript
decode_transaction-Holds cbor payload r h =
    rw (h.loads, decode_transaction)
      (rw (h.verb, subscript) (rw (h.name, subscript) (rw (h.value, subscript) refl)))

subscript-eq_ok :
    (d : Dict Value) (key : Text) {v : Value}
    → subscript (mapping d) key ≡ ok v
    → lookup key d ≡ some v
unfolding subscript
subscript-eq_ok d key h = ground arith

Holds-of_fields :
    (cbor : Cbor) (payload : Bytes) (d : Dict Value) {r : Request}
    → cbor.loads payload ≡ some (mapping d)
    → fields_of (mapping d) ≡ ok r
    → Holds cbor payload r
Holds-of_fields cbor payload d {r} e h =
    let (verb, v, v') = then_do-eq_ok (subscript (mapping d) (codes "Verb")) h in
    let (name, n, n') = then_do-eq_ok (subscript (mapping d) (codes "Name")) v' in
    let (value, x, x') = then_do-eq_ok (subscript (mapping d) (codes "Value")) n' in
    let same : record { verb = verb; name = name; value = value } ≡ r = cc in
    rw (← same) (record {
      content = d;
      loads = e;
      verb = subscript-eq_ok d (codes "Verb") v;
      name = subscript-eq_ok d (codes "Name") n;
      value = subscript-eq_ok d (codes "Value") x;
    })

Holds-of_decoded :
    (cbor : Cbor) (payload : Bytes) {r : Request}
    → decode_transaction cbor payload ≡ ok r
    → Holds cbor payload r
unfolding decode_transaction
Holds-of_decoded cbor payload {r} h = elim (Option-cases (cbor.loads payload)) [
  | inl e ↦ let f = rw (e, decode_transaction) at h in absurd (cc)
  | inr (content, e) ↦ fields content e (rw (e, decode_transaction) at h)
]
  where
    fields :
        (content : Content)
        → cbor.loads payload ≡ some content
        → fields_of content ≡ ok r
        → Holds cbor payload r
    fields (mapping d) e f = Holds-of_fields cbor payload d e f
    fields not_a_mapping e f = absurd (unfold subscript in cc)

pub unpack-IsValid :
    (cbor : Cbor) (payload : Bytes) {r : Request}
    → unpack_transaction cbor payload ≡ ok r
    → Holds cbor payload r × IsValid r
unfolding unpack_transaction
unpack-IsValid cbor payload {r} h =
    let (r', d, d') = then_do-eq_ok (decode_transaction cbor payload) h in
    let (same, v, n, x) = validate-eq_ok r' d' in
    rw same (
      Holds-of_decoded cbor payload d,
      record { verb = verb_of r'.verb v; name = name_of r'.name n; value = amount_of r'.value x },
    )

-- The validation is exact: `_unpack_transaction` returns a request just where the payload is a dict
-- with these three fields, and the verb is 'set', 'inc' or 'dec', the name a text of at most 20
-- characters, and the value an integer (or a Boolean, as 0 or 1) from 0 to 4294967295.
pub unpack_transaction-iff-IsValid :
    (cbor : Cbor) (payload : Bytes) (r : Request)
    → (unpack_transaction cbor payload ≡ ok r) ↔ (Holds cbor payload r × IsValid r)
unpack_transaction-iff-IsValid cbor payload r = (
  unpack-IsValid cbor payload,
  λ h.
      unfold unpack_transaction in
      rw (decode_transaction-Holds cbor payload r h.0) (validate-IsValid r h.1),
)
