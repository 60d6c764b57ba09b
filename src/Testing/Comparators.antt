-- ===== src/Testing/Comparators.antt =====
-- sawtooth_processor_test/mock_validator.py: how the messages that a test expects are compared with
-- those that come.
use sawtooth_sdk_python.Base.{
  ℕ, ◌≡◌, Bool, true, false, not, Option, none, some, ◌↔◌, List, length, if◌then◌else◌, ◌==◌, arith,
}
use sawtooth_sdk_python.Base.{[], ◌∷◌}
use mathlib.Core.List.{Permᴰ}
use sawtooth_sdk_python.Base.Exec.{Result, ok, then_do}
use sawtooth_sdk_python.Base.Text.{text_eq, text_eq_iff}
use sawtooth_sdk_python.Testing.Order.{Pair, sorted, sorted-eq_iff, length-Perm}
use sawtooth_sdk_python.Testing.Types.{
  Objects, to_message_type, proto_to_type, tp_state_set_request, tp_process_response,
}

-- `entries1 == entries2`, of lists of tuples
unfoldable pub pairs_eq : List Pair → List Pair → Bool
pairs_eq [] [] = true
pairs_eq [] (q ∷ k) = false
pairs_eq (p ∷ l) [] = false
pairs_eq ((a, d) ∷ l) ((b, e) ∷ k) =
    let rest = pairs_eq l k in if text_eq a b then (if text_eq d e then rest else false) else false

pub pairs_eq_iff : (l k : List Pair) → (pairs_eq l k ≡ true) ↔ (l ≡ k)
unfolding pairs_eq
pairs_eq_iff [] [] = ground arith
pairs_eq_iff [] (q ∷ k) = ground arith
pairs_eq_iff (p ∷ l) [] = ground arith
pairs_eq_iff ((a, d) ∷ l) ((b, e) ∷ k) =
    ground (arith, text_eq_iff a b, text_eq_iff d e, pairs_eq_iff l k)

-- `self._comparators`, by the number of the type
abbrev pub Comparators : Type 0 → Type 0
Comparators M = ℕ → Option (M → M → Bool)

module _ {M : Type 0} (objects : Objects M) where
  -- `compare_set_request`
  unfoldable pub compare_set_request : M → M → Bool
  unfolding pairs_eq sorted
  compare_set_request req1 req2 =
      if not (length (objects.entries req1) == length (objects.entries req2))
      then false
      else pairs_eq (sorted (objects.entries req1)) (sorted (objects.entries req2))

  -- `compare_tp_process_response_status_only`
  unfoldable pub compare_tp_process_response_status_only : M → M → Bool
  compare_tp_process_response_status_only res1 res2 = objects.status res1 == objects.status res2

  -- `_compare`
  unfoldable pub compare : Comparators M → M → M → Result Bool
  unfolding to_message_type
  compare comparators obj1 obj2 = then_do (to_message_type objects obj1) (λ msg_type.
      then_do (to_message_type objects obj2) (λ msg_type2.
        if not (msg_type == msg_type2) then ok false else elim (comparators msg_type) [
          | none ↦ ok (objects.equals obj1 obj2)
          | some comparator ↦ ok (comparator obj1 obj2)
        ]))

-- `register_comparator`
unfoldable pub register_comparator :
    {M : Type 0} → Comparators M → ℕ → (M → M → Bool) → Comparators M
register_comparator comparators message_type comparator t =
    if message_type == t then some comparator else comparators t

-- The comparators that `MockValidator.__init__` registers
unfoldable pub default_comparators : {M : Type 0} → Objects M → Comparators M
unfolding register_comparator
default_comparators objects =
    register_comparator
      (register_comparator (λ t. none) (proto_to_type tp_state_set_request)
        (compare_set_request objects))
      (proto_to_type tp_process_response) (compare_tp_process_response_status_only objects)

module _ {M : Type 0} (objects : Objects M) where
  -- Two set requests compare as equal just where the entries of the one, as pairs of an address and
  -- its data, are a permutation of those of the other: the order does not count, and how often an
  -- entry stands does.
  pub compare_set_request-iff-Perm :
      (req1 req2 : M)
      → (compare_set_request objects req1 req2 ≡ true)
        ↔ Permᴰ (objects.entries req1) (objects.entries req2)
  unfolding compare_set_request
  compare_set_request-iff-Perm req1 req2 = (same_entries, compared_equal)
    where
      l : List Pair
      l = objects.entries req1

      k : List Pair
      k = objects.entries req2

      same_entries : compare_set_request objects req1 req2 ≡ true → Permᴰ l k
      same_entries h =
          let e : pairs_eq (sorted l) (sorted k) ≡ true = ground arith in
          (sorted-eq_iff l k).0 ((pairs_eq_iff (sorted l) (sorted k)).0 e)

      compared_equal : Permᴰ l k → compare_set_request objects req1 req2 ≡ true
      compared_equal p =
          let e : pairs_eq (sorted l) (sorted k) ≡ true =
            (pairs_eq_iff (sorted l) (sorted k)).1 ((sorted-eq_iff l k).1 p) in
          ground (arith, length-Perm p)
