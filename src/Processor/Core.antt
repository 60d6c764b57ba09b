-- ===== src/Processor/Core.antt =====
-- sawtooth_sdk/processor/core.py: `TransactionProcessor`. The messages for the log are not modelled.
pub mod Register
pub mod Loop
pub mod Search
pub mod Answers
pub mod Shutdown
mod Examples
use sawtooth_sdk_python.Base.{
  ℕ, suc, Bool, true, false, not, ◌&&◌, ◌||◌, Option, none, some, List, [], ◌∷◌, ◌++◌,
  if◌then◌else◌, ◌==◌, ltb, concat, map,
}
use sawtooth_sdk_python.Base.Text.{Text, Bytes, text_eq}
use sawtooth_sdk_python.Base.Exec.{
  Exc, Exec, Result, Message, ok, raised, pure, raise, lift, ◌>>=◌, ◌>>◌, invalid_transaction,
  internal_error, authorization_exception, validator_connection_error, value_error, continue_with,
}
use sawtooth_sdk_python.Processor.Context.{Context}
use sawtooth_sdk_python.Processor.Link.{
  Envelope, tp_process_request, tp_process_response, Header, ProcessRequest, HeaderStyle,
  header_style_unset, expanded, raw_style, RegisterRequest, ProcessStatus, process_ok,
  invalid_status, internal_status, process_response, Link, Protobuf, TransactionHandler,
}

-- The fields of `TransactionProcessor`; `_FeatureVersion` by its values.
pub record Processor (W : Type 0) : Type 0 where
  pub handlers : List (TransactionHandler W)
  pub highest_sdk_feature_requested : ℕ
  pub header_style : HeaderStyle

abbrev pub feature_unused : ℕ
feature_unused = 0

abbrev pub feature_custom_header_style : ℕ
feature_custom_header_style = 1

-- `v in versions`
unfoldable pub mentions : Text → List Text → Bool
mentions v [] = false
mentions v (u ∷ versions) = text_eq v u || mentions v versions

module _ {W : Type 0} where
  -- `__init__`, after the stream has been opened
  unfoldable pub init : Processor W
  init = record {
    handlers = [];
    highest_sdk_feature_requested = feature_unused;
    header_style = header_style_unset;
  }

  unfoldable pub add_handler : TransactionHandler W → Processor W → Processor W
  add_handler handler p = record p { handlers = p.handlers ++ (handler ∷ []) }

  unfoldable pub set_header_style : HeaderStyle → Processor W → Processor W
  set_header_style style p = record p {
    highest_sdk_feature_requested =
        if ltb p.highest_sdk_feature_requested feature_custom_header_style
        then feature_custom_header_style
        else p.highest_sdk_feature_requested;
    header_style = style;
  }

  -- `_matches`
  unfoldable pub matches : TransactionHandler W → Header → Bool
  unfolding mentions
  matches handler header =
      text_eq header.family_name handler.family_name
      && mentions header.family_version handler.family_versions

  -- `_find_handler`
  unfoldable pub find_handler : List (TransactionHandler W) → Header → Option (TransactionHandler W)
  find_handler [] header = none
  find_handler (handler ∷ handlers) header =
      if matches handler header then some handler else find_handler handlers header

  -- `try: m except ValidatorConnectionError: pass`
  unfoldable pub unless_disconnected : Result (Unit {0}) × W → Result (Unit {0}) × W
  unless_disconnected (raised validator_connection_error, w) = (ok tt, w)
  unless_disconnected out = out

module _ {W : Type 0} (link : Link W) (protobuf : Protobuf) where
  unfoldable pub respond : Text → ProcessStatus → Option Message → Option Bytes → Exec W (Unit {0})
  respond correlation_id status text extended =
      link.send_back tp_process_response correlation_id (process_response status text extended)

  -- The `except` clauses of `_process`; an exception of any other class goes on.
  unfoldable pub answer_exception : Text → Exc → Exec W (Unit {0})
  unfolding unless_disconnected respond
  answer_exception id (invalid_transaction text extended) w =
      unless_disconnected (respond id invalid_status (some text) extended w)
  answer_exception id (internal_error text extended) w =
      unless_disconnected (respond id internal_status (some text) extended w)
  answer_exception id validator_connection_error w = (ok tt, w)
  answer_exception id (authorization_exception text) w =
      unless_disconnected (respond id invalid_status (some text) none w)
  answer_exception id e w = (raised e, w)

  unfoldable pub catch_exception : Text → Result (Unit {0}) × W → Result (Unit {0}) × W
  unfolding answer_exception
  catch_exception id (ok u, w) = (ok u, w)
  catch_exception id (raised e, w) = answer_exception id e w

  -- `handler.apply(request, state)` and the answer, if a handler was found
  unfoldable pub run_handler :
      Text → ProcessRequest → Option (TransactionHandler W) → Exec W (Unit {0})
  unfolding respond
  run_handler id request none = pure tt
  run_handler id request (some handler) = do
    handler.apply request (record { stream = link.peer; context_id = request.context_id })
    respond id process_ok none none

  -- The `try` of `_process`
  unfoldable pub try_process :
      List (TransactionHandler W) → Text → ProcessRequest → Header → Exec W (Unit {0})
  unfolding run_handler
  try_process handlers id request header w =
      if not (link.is_ready w)
      then (raised validator_connection_error, w)
      else run_handler id request (find_handler handlers header) w

  -- The header that the style of the registration asks for
  unfoldable pub header_of : HeaderStyle → ProcessRequest → Result Header
  header_of raw_style request = protobuf.parse_header request.header_bytes
  header_of expanded request = ok request.header
  header_of header_style_unset request = ok request.header

  -- `Message.MessageType.Name`, which the messages for the log ask for
  unfoldable pub type_name : ℕ → Exec W (Unit {0})
  type_name t = if protobuf.has_name t then pure tt else raise value_error

  -- `_process`
  unfoldable pub process : Processor W → Envelope → Exec W (Unit {0})
  unfolding type_name try_process catch_exception header_of
  process p msg w =
      if not (msg.message_type == tp_process_request)
      then type_name msg.message_type w
      else (do
        request ← lift (protobuf.parse_process_request msg.content)
        header ← lift (header_of p.header_style request)
        (λ w'.
            catch_exception msg.correlation_id
              (try_process p.handlers msg.correlation_id request header w')))
          w
