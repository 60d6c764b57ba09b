-- ===== src/Testing/Expect.antt =====
-- What `expect` of sawtooth_processor_test/mock_validator.py accepts.
use sawtooth_sdk_python.Base.{
  ◌≡◌, refl, Bool, true, false, some, ◌⊎◌, ◌↔◌, not, inl, inr, ◌==◌, ==_iff, if◌then◌else◌,
  Bool-cases, ℕ,
}
use mathlib.Core.List.{Permᴰ}
use sawtooth_sdk_python.Base.Text.{Bytes}
use sawtooth_sdk_python.Base.Exec.{Result, ok, raised, unexpected_message_exception}
use sawtooth_sdk_python.Processor.Link.{Envelope}
use sawtooth_sdk_python.Testing.Types.{
  Objects, Kind, to_message_type, to_protobuf_class, proto_to_type, proto_to_type-injective,
  tp_state_set_request, tp_process_response, to_protobuf_class-proto_to_type,
}
use sawtooth_sdk_python.Testing.Comparators.{
  Comparators, compare, compare_set_request, compare_tp_process_response_status_only,
  default_comparators, register_comparator, compare_set_request-iff-Perm,
}
use sawtooth_sdk_python.Testing.Mock.{
  init, receive, parse_content, expect, just_one, raise_unexpected, expected_type,
}

module _ {M : Type 0} (objects : Objects M) where
  -- What the comparator of a class decides, for two messages of that class.
  abbrev verdict : Kind → M → M → Bool
  verdict tp_state_set_request m e = compare_set_request objects m e
  verdict tp_process_response m e = compare_tp_process_response_status_only objects m e
  verdict _ m e = objects.equals m e

  type_of :
      (k : Kind) (m : M)
      → objects.class_of m ≡ some k
      → to_message_type objects m ≡ ok (proto_to_type k)
  unfolding to_message_type
  type_of k m p = rw (p, to_message_type) refl

  compare-same :
      (k : Kind) (m e : M)
      → objects.class_of m ≡ some k
      → objects.class_of e ≡ some k
      → compare objects (default_comparators objects) m e ≡ ok (verdict k m e)
  unfolding compare proto_to_type default_comparators register_comparator
  compare-same tp_state_set_request m e p q =
      rw (type_of tp_state_set_request m p, compare)
        (rw (type_of tp_state_set_request e q, compare) refl)
  compare-same k m e p q = rw (type_of k m p, compare) (rw (type_of k e q, compare) refl)

  compare-different :
      (cs : Comparators M) (k j : Kind) (m e : M)
      → objects.class_of m ≡ some k
      → objects.class_of e ≡ some j
      → (k ≡ j → ⊥)
      → compare objects cs m e ≡ ok false
  unfolding compare
  compare-different cs k j m e p q different =
      rw (type_of k m p, compare)
        (rw (type_of j e q, compare)
          (elim (Bool-cases (proto_to_type k == proto_to_type j)) [
            | inl same ↦
                absurd
                  (different (proto_to_type-injective k j ((==_iff _ (proto_to_type j)).0 same)))
            | inr f ↦ rw f refl
          ]))

  -- What it is for a message that comes, of class `k`, to be the one expected, of class `j`.
  abbrev pub SameContent : Kind → M → M → Type 0
  SameContent tp_state_set_request m e = Permᴰ (objects.entries m) (objects.entries e)
  SameContent tp_process_response m e = objects.status m ≡ objects.status e
  SameContent _ m e = objects.equals m e ≡ true

  verdict_iff : (k : Kind) (m e : M) → (verdict k m e ≡ true) ↔ SameContent k m e
  unfolding compare_tp_process_response_status_only
  verdict_iff tp_state_set_request m e = compare_set_request-iff-Perm objects m e
  verdict_iff tp_process_response m e = ==_iff (objects.status m) (objects.status e)
  verdict_iff k m e = (λ h. h, λ h. h)

  -- The two outcomes of `expect`.
  abbrev pub Expected : Envelope → Kind → Kind → M → M → Result Envelope → Type 0
  Expected message k j m e r =
      ((r ≡ ok message) × (k ≡ j) × SameContent k m e)
      ⊎ ((r ≡ raised unexpected_message_exception) × ((k ≡ j) × SameContent k m e → ⊥))

  compare_cases :
      (k j : Kind) (m e : M)
      → objects.class_of m ≡ some k
      → objects.class_of e ≡ some j
      → (b : Bool) × (compare objects (default_comparators objects) m e ≡ ok b)
        × ((b ≡ true) ↔ ((k ≡ j) × SameContent k m e))
  compare_cases k j m e p q = elim (Bool-cases (proto_to_type k == proto_to_type j)) [
    | inl h ↦
        let same : k ≡ j = proto_to_type-injective k j ((==_iff _ (proto_to_type j)).0 h) in
        let q' : objects.class_of e ≡ some k = rw same q in
        (
          verdict k m e,
          compare-same k m e p q',
          (λ v. (same, (verdict_iff k m e).0 v), λ x. (verdict_iff k m e).1 x.1),
        )
    | inr h ↦
        let differ : k ≡ j → ⊥ =
          λ same. let t = (==_iff (proto_to_type k) (proto_to_type j)).1 (rw same refl) in cc in
        (
          false,
          compare-different (default_comparators objects) k j m e p q differ,
          (λ v. absurd (cc), λ x. absurd (differ x.0)),
        )
  ]

  outcome_of :
      (message : Envelope) (k j : Kind) (m e : M) (b : Bool)
      → ((b ≡ true) ↔ ((k ≡ j) × SameContent k m e))
      → Expected message k j m e (if not b then raised unexpected_message_exception else ok message)
  outcome_of message k j m e true decides =
      let (same, content) = decides.0 refl in inl (refl, same, content)
  outcome_of message k j m e false decides = inr (refl, λ x. let t = decides.1 x in cc)

  -- Where the types are known, UnexpectedMessageException is raised as it is meant to be.
  raise_unexpected-known :
      (t : ℕ) (k j : Kind) (m e : M)
      → to_protobuf_class t ≡ ok k
      → objects.class_of m ≡ some k
      → objects.class_of e ≡ some j
      → ◌≡◌ {A = Result Envelope}
          (raise_unexpected objects t (just_one e) m)
          (raised unexpected_message_exception)
  unfolding raise_unexpected expected_type
  raise_unexpected-known t k j m e known p q =
      rw (known, raise_unexpected)
        (rw (type_of j e q, raise_unexpected)
          (rw (to_protobuf_class-proto_to_type j, raise_unexpected)
            (rw (type_of k m p, raise_unexpected)
              (rw (to_protobuf_class-proto_to_type k, raise_unexpected) refl))))

  -- `expect` decides. Let a message of class `k` come, whose content is read as `m`, and let `e`, of
  -- class `j`, be expected by a new validator. Then the message is returned, and the classes are the
  -- same and the contents too: the entries up to their order for a set request, the status for a
  -- process response, and all by `==` for the other classes; or UnexpectedMessageException is raised,
  -- and this does not hold.
  pub expect-Expected :
      (incoming : Bytes × Bytes) (ident : Bytes) (message : Envelope) (k j : Kind) (m e : M)
      → receive objects incoming ≡ ok (message, ident)
      → to_protobuf_class message.message_type ≡ ok k
      → objects.parse k message.content ≡ some m
      → objects.class_of e ≡ some j
      → Expected message k j m e (expect objects (init objects) incoming e)
  unfolding expect init
  expect-Expected incoming ident message k j m e r t p q =
      let (b, compared, decides) =
        compare_cases k j m e (objects.class_of-parse k message.content p) q in
      rw (r, expect)
        (rw (t, expect)
          (rw (p, parse_content)
            (rw (compared, expect)
              (rw
                (raise_unexpected-known message.message_type k j m e t
                  (objects.class_of-parse k message.content p) q)
                (outcome_of message k j m e b decides)))))
