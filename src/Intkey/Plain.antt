-- ===== src/Intkey/Plain.antt =====
-- A serializer that has the laws of `cbor`, to run the program with: pairs of a tag and a number,
-- which are read from the last to the first.
use sawtooth_sdk_python.Base.{ℕ, zero, suc, ◌≡◌, refl, ap, true, false, some, [], ◌∷◌, ◌++◌}
use mathlib.Core.List.{append-nil}
use sawtooth_sdk_python.Base.Text.{Text, Bytes, is_empty}
use sawtooth_sdk_python.Base.Dict.{Dict}
use sawtooth_sdk_python.Base.Int.{pos, negsuc}
use sawtooth_sdk_python.Intkey.Payload.{Value, int, boolean, str, other, mapping, Cbor}

-- What has been read: characters, a value, and entries.
pub record Reading : Type 0 where
  text : Text
  value : Value
  entries : Dict Value

abbrev step : ℕ → ℕ → Reading → Reading
step zero n r = record r { text = n ∷ r.text }
step (suc zero) n r = record r { value = int (pos n) }
step (suc (suc zero)) n r = record r { value = int (negsuc n) }
step (suc (suc (suc zero))) zero r = record r { value = boolean true }
step (suc (suc (suc zero))) n r = record r { value = boolean false }
step (suc (suc (suc (suc zero)))) n r = record r { value = other }
step (suc (suc (suc (suc (suc zero))))) n r = record {
  text = [];
  value = str r.text;
  entries = r.entries;
}
step (suc (suc (suc (suc (suc (suc zero)))))) n r = record {
  text = [];
  value = other;
  entries = (r.text, r.value) ∷ r.entries;
}
step tag n r = r

abbrev none_read : Reading
none_read = record { text = []; value = other; entries = [] }

unfoldable pub read : Bytes → Reading
read [] = none_read
read (tag ∷ []) = none_read
read (tag ∷ n ∷ bytes) = let r = read bytes in step tag n r

abbrev chars : Text → Bytes → Bytes
chars [] rest = rest
chars (c ∷ t) rest = 0 ∷ c ∷ chars t rest

abbrev value_bytes : Value → Bytes → Bytes
value_bytes (int (pos n)) rest = 1 ∷ n ∷ rest
value_bytes (int (negsuc n)) rest = 2 ∷ n ∷ rest
value_bytes (boolean true) rest = 3 ∷ 0 ∷ rest
value_bytes (boolean false) rest = 3 ∷ 1 ∷ rest
value_bytes other rest = 4 ∷ 0 ∷ rest
value_bytes (str t) rest = 5 ∷ 0 ∷ chars t rest

abbrev entries_bytes : Dict Value → Bytes
entries_bytes [] = []
entries_bytes ((k, v) ∷ d) = 6 ∷ 0 ∷ chars k (value_bytes v (entries_bytes d))

read-chars :
    (t : Text) (rest : Bytes)
    → read (chars t rest) ≡ record (read rest) { text = t ++ (read rest).text }
unfolding read
read-chars [] rest = refl
read-chars (c ∷ t) rest = ap (step 0 c) (read-chars t rest)

read-value :
    (v : Value) (rest : Bytes)
    → (read rest).text ≡ []
    → read (value_bytes v rest) ≡ record (read rest) { text = []; value = v }
unfolding read
read-value (int (pos n)) rest h = rw (← h) refl
read-value (int (negsuc n)) rest h = rw (← h) refl
read-value (boolean true) rest h = rw (← h) refl
read-value (boolean false) rest h = rw (← h) refl
read-value other rest h = rw (← h) refl
read-value (str t) rest h = rw (read-chars t rest) (rw h (rw (append-nil t) refl))

abbrev read_of : Dict Value → Reading
read_of d = record { text = []; value = other; entries = d }

read-entries : (d : Dict Value) → read (entries_bytes d) ≡ read_of d
unfolding read
read-entries [] = refl
read-entries ((k, v) ∷ d) =
    let ih = read-entries d in
    rw (read-chars k (value_bytes v (entries_bytes d))) (
      rw (read-value v (entries_bytes d) (ap (λ (r : Reading). r.text) ih))
        (rw ih (rw (append-nil k) refl)))

pub entries-dumped : (d : Dict Value) → some (read (7 ∷ 0 ∷ entries_bytes d)).entries ≡ some d
unfolding read
entries-dumped d = ap (λ (r : Reading). some r.entries) (read-entries d)

pub is_empty-cons : (b : ℕ) (bytes : Bytes) → is_empty (b ∷ bytes) ≡ false
unfolding is_empty
is_empty-cons b bytes = refl

unfoldable pub plain : Cbor
plain = record {
  loads = λ bytes. some (mapping (read bytes).entries);
  loads_state = λ bytes. some (read bytes).entries;
  dumps = λ d. 7 ∷ 0 ∷ entries_bytes d;
  loads_state-dumps = entries-dumped;
  is_empty-dumps = λ d. is_empty-cons 7 (0 ∷ entries_bytes d);
}

pub loads-dumps : (d : Dict Value) → plain.loads (plain.dumps d) ≡ some (mapping d)
unfolding plain read
loads-dumps d = ap (λ (r : Reading). some (mapping r.entries)) (read-entries d)
