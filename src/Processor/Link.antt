-- ===== src/Processor/Link.antt =====
-- What sawtooth_sdk/processor/core.py uses of the stream, of protobuf and of a handler.
use sawtooth_sdk_python.Base.{ℕ, Bool, Option, List}
use sawtooth_sdk_python.Base.Text.{Text, Bytes}
use sawtooth_sdk_python.Base.Exec.{Exec, Result, Message}
use sawtooth_sdk_python.Processor.Context.{Peer, Context}

-- validator_pb2.Message; its type is the number of the enum.
pub record Envelope : Type 0 where
  pub message_type : ℕ
  pub correlation_id : Text
  pub content : Bytes

abbrev pub tp_process_request : ℕ
tp_process_request = 5

abbrev pub tp_process_response : ℕ
tp_process_response = 6

abbrev pub ping_request : ℕ
ping_request = 700

abbrev pub ping_response : ℕ
ping_response = 701

-- The fields of TransactionHeader and TpProcessRequest that the processor and the handlers read.
pub record Header : Type 0 where
  pub family_name : Text
  pub family_version : Text
  pub signer_public_key : Text

pub record ProcessRequest : Type 0 where
  pub header : Header
  pub header_bytes : Bytes
  pub payload : Bytes
  pub context_id : Text

-- TpRegisterRequest.TpProcessRequestHeaderStyle
pub data HeaderStyle : Type 0 where
  header_style_unset expanded raw_style : HeaderStyle

pub record RegisterRequest : Type 0 where
  pub family : Text
  pub version : Text
  pub namespaces : List Text
  pub protocol_version : ℕ
  pub request_header_style : HeaderStyle

pub record RegisterResponse : Type 0 where
  pub is_error : Bool
  pub protocol_version : ℕ

-- TpProcessResponse.Status
pub data ProcessStatus : Type 0 where
  process_ok invalid_status internal_status : ProcessStatus

-- The contents that the processor sends back: TpProcessResponse and PingResponse.
pub data Response : Type 0 where
  process_response : ProcessStatus → Option Message → Option Bytes → Response
  ping : Response

-- The stream of a processor. `send` returns the id of the future; `result` waits for it.
pub record Link (W : Type 0) : Type 0 where
  pub peer : Peer W
  pub is_ready : W → Bool
  pub wait_for_ready : Exec W (Unit {0})
  pub send_back : ℕ → Text → Response → Exec W (Unit {0})
  pub send_register : RegisterRequest → Exec W Text
  pub register_result : Text → Exec W RegisterResponse
  pub send_unregister : Exec W Text
  pub unregister_result : Text → ℕ → Exec W (Unit {0})
  pub close : Exec W (Unit {0})

-- `ParseFromString` of the two messages, which may raise DecodeError, and `Message.MessageType.Name`,
-- which raises ValueError for a number that has no name.
pub record Protobuf : Type 0 where
  pub has_name : ℕ → Bool
  pub parse_process_request : Bytes → Result ProcessRequest
  pub parse_header : Bytes → Result Header

-- sawtooth_sdk/processor/handler.py: a subclass of TransactionHandler
pub record TransactionHandler (W : Type 0) : Type 0 where
  pub family_name : Text
  pub family_versions : List Text
  pub namespaces : List Text
  pub apply : ProcessRequest → Context W → Exec W (Unit {0})
