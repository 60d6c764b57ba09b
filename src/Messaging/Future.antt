-- ===== src/Messaging/Future.antt =====
-- sawtooth_sdk/messaging/future.py: futures and the collection of them. A future is shared by the
-- caller and the collection, so the futures live in a store, and the collection holds their places.
use sawtooth_sdk_python.Base.{
  ℕ, zero, suc, ◌≡◌, Bool, true, false, Option, none, some, List, [], ◌∷◌, arith, if◌then◌else◌,
  ◌==◌, get_elem?,
}
use sawtooth_sdk_python.Base.Text.{Text, Bytes}
use sawtooth_sdk_python.Base.Dict.{Dict, lookup, erase}
use sawtooth_sdk_python.Base.Exec.{
  Result, ok, raised, validator_connection_error, future_timeout_error, future_collection_key_error,
}

-- FutureResult and FutureError
pub data Outcome : Type 0 where
  future_result : ℕ → Bytes → Outcome
  future_error : Outcome

pub record Future : Type 0 where
  pub correlation_id : Text
  pub result : Option Outcome
  pub request_type : Option ℕ

-- `Future.done`
unfoldable pub done : Future → Bool
done f = elim f.result [ none ↦ false | some o ↦ true ]

-- `Future.result(timeout)`, where the wait has ended: with nothing set, the timeout has passed.
unfoldable pub result_after_wait : Future → Result Outcome
result_after_wait f = elim f.result [ none ↦ raised future_timeout_error | some o ↦ ok o ]

-- `.content` of what a future was resolved to
unfoldable pub content : Outcome → Result Bytes
content (future_result message_type bytes) = ok bytes
content future_error = raised validator_connection_error

-- The store after `future.set_result(outcome)` for the future at a place
unfoldable pub set_result : List Future → ℕ → Outcome → List Future
set_result [] i o = []
set_result (f ∷ fs) zero o = record f { result = some o } ∷ fs
set_result (f ∷ fs) (suc i) o = f ∷ set_result fs i o

pub record Futures : Type 0 where
  pub store : List Future
  pub collection : Dict ℕ

-- `FutureCollection.get`
unfoldable pub get : Text → Futures → Result ℕ
get id c = elim (lookup id c.collection) [
  | none ↦ raised future_collection_key_error
  | some place ↦ ok place
]

abbrev pub or_keep : {A : Type 0} → Result A → (A → Futures) → Futures → Result (Unit {0}) × Futures
or_keep (ok a) f c = (ok tt, f a)
or_keep (raised e) f c = (raised e, c)

-- `FutureCollection.set_result`
unfoldable pub resolve : Text → Outcome → Futures → Result (Unit {0}) × Futures
unfolding get set_result
resolve id o c = or_keep (get id c) (λ place. record c { store = set_result c.store place o }) c

-- `FutureCollection.remove`
unfoldable pub remove : Text → Futures → Result (Unit {0}) × Futures
unfolding get
remove id c = or_keep (get id c) (λ place. record c { collection = erase id c.collection }) c

-- The loop over `future_values()` that resolves every future with the same outcome
unfoldable pub resolve_all : Dict ℕ → Outcome → List Future → List Future
unfolding set_result
resolve_all [] o store = store
resolve_all ((id, place) ∷ collection) o store = resolve_all collection o (set_result store place o)

pub get_elem?-set_result :
    (store : List Future) (i j : ℕ) (o : Outcome)
    → get_elem? (set_result store i o) j ≡ (
        if i == j
        then elim (get_elem? store j) [ none ↦ none | some f ↦ some (record f { result = some o }) ]
        else get_elem? store j)
unfolding set_result
get_elem?-set_result [] i j o = ground arith
get_elem?-set_result (f ∷ fs) zero zero o = ground arith
get_elem?-set_result (f ∷ fs) zero (suc j) o = ground arith
get_elem?-set_result (f ∷ fs) (suc i) zero o = ground arith
get_elem?-set_result (f ∷ fs) (suc i) (suc j) o = ground (arith, get_elem?-set_result fs i j o)
