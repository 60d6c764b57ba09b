-- ===== src/Testing/Mock.antt =====
-- sawtooth_processor_test/mock_validator.py: `MockValidator`, from the socket on. What `recv_multipart`
-- gives, the identity of the sender and the bytes, is an argument of the operations that receive.
use sawtooth_sdk_python.Base.{
  ℕ, suc, Bool, true, false, not, Option, none, some, List, [], ◌∷◌, ◌++◌, if◌then◌else◌, ◌==◌,
}
use sawtooth_sdk_python.Base.Text.{Text, Bytes}
use sawtooth_sdk_python.Base.Exec.{
  Exec, Result, ok, raised, then_do, pure, lift, ◌>>=◌, ◌>>◌, type_error, value_error, decode_error,
  unknown_message_type_exception, unexpected_message_exception,
}
use sawtooth_sdk_python.Processor.Link.{Envelope}
use sawtooth_sdk_python.Testing.Types.{
  Objects, Kind, to_message_type, to_protobuf_class, tp_register_request,
}
use sawtooth_sdk_python.Testing.Comparators.{Comparators, compare, default_comparators}

-- `sent` is what has gone out on the socket, each with the identity that it is for.
pub record MockValidator (M : Type 0) : Type 0 where
  pub comparators : Comparators M
  pub tp_ident : Option Bytes
  pub sent : List (Bytes × Envelope)

-- What tests expect: a message, or a list of messages.
pub data Expectation (M : Type 0) : Type 0 where
  just_one : M → Expectation M
  one_of : List M → Expectation M

module _ {M : Type 0} (objects : Objects M) where
  -- `to_message_type` of what is expected: the class `list` is in no table.
  unfoldable pub expected_type : Expectation M → Result ℕ
  unfolding to_message_type
  expected_type (just_one m) = to_message_type objects m
  expected_type (one_of ms) = raised unknown_message_type_exception

  -- `raise UnexpectedMessageException(message_type, expected, received)`: its `__init__` looks up the
  -- types and the classes for its text.
  unfoldable pub raise_unexpected : {A : Type 0} → ℕ → Expectation M → M → Result A
  unfolding expected_type
  raise_unexpected message_type expected received = then_do (to_protobuf_class message_type) (λ k.
      then_do (expected_type expected) (λ e. then_do (to_protobuf_class e) (λ ke.
        then_do (to_message_type objects received)
          (λ r. then_do (to_protobuf_class r) (λ kr. raised unexpected_message_exception)))))

  -- `__init__`
  unfoldable pub init : MockValidator M
  init = record { comparators = default_comparators objects; tp_ident = none; sent = [] }

  -- `_receive` and `receive`; the type is looked up for the log.
  unfoldable pub receive : Bytes × Bytes → Result (Envelope × Bytes)
  receive (ident, result) = elim (objects.parse_envelope result) [
    | none ↦ raised decode_error
    | some message ↦ then_do (to_protobuf_class message.message_type) (λ k. ok (message, ident))
  ]

  -- `_send`: `send_multipart` raises a TypeError for None.
  unfoldable pub send_to : Option Bytes → Envelope → Exec (MockValidator M) (Unit {0})
  send_to none message v = (raised type_error, v)
  send_to (some ident) message v = (ok tt, record v { sent = v.sent ++ (ident, message) ∷ [] })

  -- `send`
  unfoldable pub send : M → Text → Exec (MockValidator M) (Unit {0})
  unfolding send_to to_message_type
  send content correlation_id = do
    message_type ← lift (to_message_type objects content)
    λ v.
        send_to v.tp_ident
          (record {
            message_type = message_type;
            correlation_id = correlation_id;
            content = objects.serialize content;
          })
          v

  -- `respond`
  unfoldable pub respond : M → Envelope → Exec (MockValidator M) (Unit {0})
  unfolding send
  respond content message = send content message.correlation_id

  -- The content of a message, parsed as the class `k`
  unfoldable pub parse_content : Kind → Envelope → Result M
  parse_content k message = elim (objects.parse k message.content) [
    | none ↦ raised decode_error
    | some m ↦ ok m
  ]

  abbrev set_ident : Bytes → Exec (MockValidator M) (Unit {0})
  set_ident ident v = (ok tt, record v { tp_ident = some ident })

  -- `register_processor` after the type of the message has been checked
  abbrev pub answer_registration : Envelope → Bytes → Exec (MockValidator M) Bool
  answer_registration message ident = do
    set_ident ident
    request ← lift (parse_content tp_register_request message)
    send (objects.registered (objects.protocol_version request)) message.correlation_id
    pure true

  -- `register_processor`
  unfoldable pub register_processor : Bytes × Bytes → Exec (MockValidator M) Bool
  unfolding receive parse_content send
  register_processor incoming = do
    received ← lift (receive incoming)
    if not (received.0.message_type == 1)
        then pure false
        else answer_registration received.0 received.1

  -- `expect`
  unfoldable pub expect : MockValidator M → Bytes × Bytes → M → Result Envelope
  unfolding receive parse_content compare
  expect v incoming expected = then_do (receive incoming) (λ received.
      then_do (to_protobuf_class received.0.message_type) (λ k.
        then_do (parse_content k received.0) (λ m.
          then_do (compare objects v.comparators m expected) (λ same.
            if not same
            then raise_unexpected received.0.message_type (just_one expected) m
            else ok received.0))))

  -- `expected_content_list.index(exp_con)`
  unfoldable pub index_of : M → List M → Option ℕ
  index_of e [] = none
  index_of e (x ∷ xs) =
      if objects.equals x e
      then some 0
      else elim (index_of e xs) [ none ↦ none | some i ↦ some (suc i) ]

  abbrev pub found_at : Envelope → Option ℕ → Result (Envelope × ℕ)
  found_at message none = raised value_error
  found_at message (some i) = ok (message, i)

  -- The loop of `expect_one`, and what follows it: UnexpectedMessageException is given the list in the
  -- place of a message.
  unfoldable pub first_match :
      Comparators M → Envelope → M → List M → List M → Result (Envelope × ℕ)
  unfolding index_of raise_unexpected
  first_match comparators message m all [] = raise_unexpected message.message_type (one_of all) m
  first_match comparators message m all (e ∷ es) =
      let rest = first_match comparators message m all es in
      then_do (compare objects comparators e m)
        (λ same. if same then found_at message (index_of e all) else rest)

  -- `expect_one`
  unfoldable pub expect_one : MockValidator M → Bytes × Bytes → List M → Result (Envelope × ℕ)
  unfolding receive parse_content first_match
  expect_one v incoming expected_list = then_do (receive incoming) (λ received.
      then_do (to_protobuf_class received.0.message_type) (λ k.
        then_do (parse_content k received.0)
          (λ m. first_match v.comparators received.0 m expected_list expected_list)))
