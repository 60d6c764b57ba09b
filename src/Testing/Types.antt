-- ===== src/Testing/Types.antt =====
-- sawtooth_processor_test/message_types.py: the classes of protobuf and the numbers of their types.
use sawtooth_sdk_python.Base.{
  ℕ, ◌≡◌, refl, sym, ◌∙◌, Bool, true, Option, none, some, List, [], ◌∷◌, if◌then◌else◌, ◌==◌,
}
use sawtooth_sdk_python.Base.Text.{Text, Bytes}
use sawtooth_sdk_python.Base.Exec.{Result, ok, raised, unknown_message_type_exception}
use sawtooth_sdk_python.Processor.Link.{Envelope}

-- The classes of the table.
pub data Kind : Type 0 where
  tp_register_request tp_register_response tp_process_response tp_process_request : Kind
  tp_state_get_request tp_state_get_response tp_state_set_request tp_state_set_response : Kind
  tp_state_delete_request tp_state_delete_response : Kind
  tp_event_add_request tp_event_add_response : Kind

-- _TYPE_TO_PROTO, by the numbers that protos/validator.proto gives the types
unfoldable pub type_to_proto : List (ℕ × Kind)
type_to_proto =
    (1, tp_register_request)
    ∷ (2, tp_register_response)
    ∷ (6, tp_process_response)
    ∷ (5, tp_process_request)
    ∷ (7, tp_state_get_request)
    ∷ (8, tp_state_get_response)
    ∷ (9, tp_state_set_request)
    ∷ (10, tp_state_set_response)
    ∷ (11, tp_state_delete_request)
    ∷ (12, tp_state_delete_response)
    ∷ (15, tp_event_add_request)
    ∷ (16, tp_event_add_response)
    ∷ []

abbrev pub proto_of : ℕ → List (ℕ × Kind) → Option Kind
proto_of n [] = none
proto_of n ((m, k) ∷ rows) = if m == n then some k else proto_of n rows

-- `to_protobuf_class`
unfoldable pub to_protobuf_class : ℕ → Result Kind
unfolding type_to_proto
to_protobuf_class n = elim (proto_of n type_to_proto) [
  | none ↦ raised unknown_message_type_exception
  | some k ↦ ok k
]

-- _PROTO_TO_TYPE
unfoldable pub proto_to_type : Kind → ℕ
proto_to_type tp_register_request = 1
proto_to_type tp_register_response = 2
proto_to_type tp_process_response = 6
proto_to_type tp_process_request = 5
proto_to_type tp_state_get_request = 7
proto_to_type tp_state_get_response = 8
proto_to_type tp_state_set_request = 9
proto_to_type tp_state_set_response = 10
proto_to_type tp_state_delete_request = 11
proto_to_type tp_state_delete_response = 12
proto_to_type tp_event_add_request = 15
proto_to_type tp_event_add_response = 16

-- The objects that tests pass: messages of protobuf, of a class of the table or of another (`none`),
-- with what the library does with them. `equals` is `==`, and `parse` is `ParseFromString`, where
-- `none` is a DecodeError.
pub record Objects (M : Type 0) : Type 0 where
  pub class_of : M → Option Kind
  pub parse : Kind → Bytes → Option M
  pub serialize : M → Bytes
  pub equals : M → M → Bool
  pub equals_refl : (m : M) → equals m m ≡ true
  pub class_of-parse : (k : Kind) (b : Bytes) {m : M} → parse k b ≡ some m → class_of m ≡ some k
  -- `entries` of a TpStateSetRequest, and `status` of a TpProcessResponse
  pub entries : M → List (Text × Bytes)
  pub status : M → ℕ
  -- `protocol_version` of a TpRegisterRequest, and `TpRegisterResponse(status=OK, …)`
  pub protocol_version : M → ℕ
  pub registered : ℕ → M
  -- `Message.ParseFromString`
  pub parse_envelope : Bytes → Option Envelope

-- `to_message_type`
unfoldable pub to_message_type : {M : Type 0} → Objects M → M → Result ℕ
unfolding proto_to_type
to_message_type objects m = elim (objects.class_of m) [
  | none ↦ raised unknown_message_type_exception
  | some k ↦ ok (proto_to_type k)
]

pub to_protobuf_class-proto_to_type : (k : Kind) → to_protobuf_class (proto_to_type k) ≡ ok k
unfolding to_protobuf_class proto_to_type
to_protobuf_class-proto_to_type tp_register_request = refl
to_protobuf_class-proto_to_type tp_register_response = refl
to_protobuf_class-proto_to_type tp_process_response = refl
to_protobuf_class-proto_to_type tp_process_request = refl
to_protobuf_class-proto_to_type tp_state_get_request = refl
to_protobuf_class-proto_to_type tp_state_get_response = refl
to_protobuf_class-proto_to_type tp_state_set_request = refl
to_protobuf_class-proto_to_type tp_state_set_response = refl
to_protobuf_class-proto_to_type tp_state_delete_request = refl
to_protobuf_class-proto_to_type tp_state_delete_response = refl
to_protobuf_class-proto_to_type tp_event_add_request = refl
to_protobuf_class-proto_to_type tp_event_add_response = refl

pub proto_to_type-injective : (k j : Kind) → proto_to_type k ≡ proto_to_type j → k ≡ j
proto_to_type-injective k j e =
    let f : ok k ≡ ok j =
      sym (to_protobuf_class-proto_to_type k) ∙ (rw e refl) ∙ to_protobuf_class-proto_to_type j in
    cc
