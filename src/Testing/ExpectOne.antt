-- ===== src/Testing/ExpectOne.antt =====
-- What `expect_one` of sawtooth_processor_test/mock_validator.py raises.
use sawtooth_sdk_python.Base.{
  ◌≡◌, refl, Bool, false, some, inl, inr, List, [], ◌∷◌, All, ◌==◌, Bool-cases, ℕ, ap, ◌≢◌,
  Option-cases, Option, none,
}
use sawtooth_sdk_python.Base.Text.{Bytes}
use sawtooth_sdk_python.Base.Exec.{
  Result, ok, raised, unknown_message_type_exception, unexpected_message_exception, then_do,
}
use sawtooth_sdk_python.Processor.Link.{Envelope}
use sawtooth_sdk_python.Testing.Types.{
  Objects, Kind, to_message_type, to_protobuf_class, proto_of, type_to_proto,
}
use sawtooth_sdk_python.Testing.Comparators.{Comparators, compare}
use sawtooth_sdk_python.Testing.Mock.{
  MockValidator, receive, parse_content, expect_one, first_match, raise_unexpected, expected_type,
  found_at, index_of,
}

module _ {M : Type 0} (objects : Objects M) where
  then_do-never :
      {A B : Type 0} (r : Result A) (f : A → Result B)
      → r ≢ raised unexpected_message_exception
      → ((a : A) → f a ≢ raised unexpected_message_exception)
      → then_do r f ≢ raised unexpected_message_exception
  then_do-never (ok a) f here later h = later a h
  then_do-never (raised e) f here later h =
      here (ap raised (let same : e ≡ unexpected_message_exception = cc in same))

  to_protobuf_class-never : (t : ℕ) → to_protobuf_class t ≢ raised unexpected_message_exception
  unfolding to_protobuf_class
  to_protobuf_class-never t h = elim (Option-cases (proto_of t type_to_proto)) [
    | inl e ↦ let f = rw (e, to_protobuf_class) at h in absurd (cc)
    | inr (k, e) ↦ let f = rw (e, to_protobuf_class) at h in absurd (cc)
  ]

  to_message_type-never : (m : M) → to_message_type objects m ≢ raised unexpected_message_exception
  unfolding to_message_type
  to_message_type-never m h = elim (Option-cases (objects.class_of m)) [
    | inl e ↦ let f = rw (e, to_message_type) at h in absurd (cc)
    | inr (k, e) ↦ let f = rw (e, to_message_type) at h in absurd (cc)
  ]

  receive-never :
      (incoming : Bytes × Bytes) → receive objects incoming ≢ raised unexpected_message_exception
  unfolding receive
  receive-never (ident, bytes) h = elim (Option-cases (objects.parse_envelope bytes)) [
    | inl e ↦ let f = rw (e, receive) at h in absurd (cc)
    | inr (message, e) ↦
        then_do-never (to_protobuf_class message.message_type) (λ k. ok (message, ident))
          (to_protobuf_class-never message.message_type) (λ k f. absurd (cc)) (rw (e, receive) at h)
  ]

  parse_content-never :
      (k : Kind) (message : Envelope)
      → parse_content objects k message ≢ raised unexpected_message_exception
  unfolding parse_content
  parse_content-never k message h = elim (Option-cases (objects.parse k message.content)) [
    | inl e ↦ let f = rw (e, parse_content) at h in absurd (cc)
    | inr (m, e) ↦ let f = rw (e, parse_content) at h in absurd (cc)
  ]

  compare-never :
      (cs : Comparators M) (m e : M) → compare objects cs m e ≢ raised unexpected_message_exception
  unfolding compare
  compare-never cs m e = then_do-never (to_message_type objects m) _ (to_message_type-never m) (λ t.
      then_do-never (to_message_type objects e) _ (to_message_type-never e) (λ u h.
        elim (Bool-cases (t == u)) [
          | inr differ ↦ let f = rw (differ) at h in absurd (cc)
          | inl same ↦ elim (Option-cases (cs t)) [
            | inl c ↦ let f = rw (same, c) at h in absurd (cc)
            | inr (comparator, c) ↦ let f = rw (same, c) at h in absurd (cc)
          ]
        ]))

  found_at-never :
      (message : Envelope) (o : Option ℕ)
      → found_at objects message o ≢ raised unexpected_message_exception
  found_at-never message none h = cc
  found_at-never message (some i) h = cc

  first_match-never :
      (cs : Comparators M) (message : Envelope) (m : M) (all es : List M)
      → first_match objects cs message m all es ≢ raised unexpected_message_exception
  unfolding first_match raise_unexpected expected_type
  first_match-never cs message m all [] =
      then_do-never (to_protobuf_class message.message_type) _
        (to_protobuf_class-never message.message_type) (λ k h. absurd (cc))
  first_match-never cs message m all (e ∷ es) =
      let rest = first_match-never cs message m all es in
      then_do-never (compare objects cs e m) _ (compare-never cs e m) (λ (same : Bool) h.
        elim (Bool-cases same) [
          | inl s ↦ found_at-never message (index_of objects e all) (rw s at h)
          | inr s ↦ rest (rw s at h)
        ])

  -- `expect_one` never fails by the exception that it says: whatever comes and whatever is expected, it
  -- does not raise UnexpectedMessageException.
  pub expect_one-never :
      (v : MockValidator M) (incoming : Bytes × Bytes) (expected_list : List M)
      → expect_one objects v incoming expected_list ≢ raised unexpected_message_exception
  unfolding expect_one
  expect_one-never v incoming expected_list =
      then_do-never (receive objects incoming) _ (receive-never incoming) (λ received.
        then_do-never (to_protobuf_class received.0.message_type) _
          (to_protobuf_class-never received.0.message_type)
          (λ k.
            then_do-never (parse_content objects k received.0) _ (parse_content-never k received.0)
              (λ m. first_match-never v.comparators received.0 m expected_list expected_list)))

  -- `expect_one` fails by another exception than it says: where a message comes that compares as
  -- different from each of the messages expected, it raises UnknownMessageTypeException, not
  -- UnexpectedMessageException.
  pub expect_one-unknown :
      (v : MockValidator M) (incoming : Bytes × Bytes) (ident : Bytes) (message : Envelope)
      (k : Kind) (m : M) (expected_list : List M)
      → receive objects incoming ≡ ok (message, ident)
      → to_protobuf_class message.message_type ≡ ok k
      → objects.parse k message.content ≡ some m
      → All (λ e. compare objects v.comparators e m ≡ ok false) expected_list
      → expect_one objects v incoming expected_list ≡ raised unknown_message_type_exception
  unfolding expect_one first_match raise_unexpected expected_type
  expect_one-unknown v incoming ident message k m expected_list r t p none_equal =
      rw (r, expect_one)
        (rw (t, expect_one)
          (rw (p, parse_content) (none_matches t expected_list expected_list none_equal)))
    where
      none_matches :
          to_protobuf_class message.message_type ≡ ok k
          → (all es : List M) → All (λ e. compare objects v.comparators e m ≡ ok false) es
          → first_match objects v.comparators message m all es
            ≡ raised unknown_message_type_exception
      none_matches t all [] h = rw (t, raise_unexpected) refl
      none_matches t all (e ∷ es) h = rw (h.0, first_match) (none_matches t all es h.1)
