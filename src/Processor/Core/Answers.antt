-- ===== src/Processor/Core/Answers.antt =====
-- What the processor sends back for a request: one answer at most, by how the handler ended.
use sawtooth_sdk_python.Base.{
  ℕ, ◌≡◌, refl, sym, ap, ◌∙◌, Bool, true, false, Option, none, some, List, [], ◌∷◌, ◌++◌,
  Bool-cases, inl, inr,
}
use mathlib.Core.List.{append-nil}
use sawtooth_sdk_python.Base.Text.{Text}
use sawtooth_sdk_python.Base.Exec.{
  Exc, Result, ok, raised, invalid_transaction, internal_error, authorization_exception,
  validator_connection_error, continue_with,
}
use sawtooth_sdk_python.Processor.Link.{
  Envelope, tp_process_request, tp_process_response, Header, ProcessRequest, Response, process_ok,
  invalid_status, internal_status, process_response, Link, Protobuf, TransactionHandler,
}
use sawtooth_sdk_python.Processor.Core.{
  Processor, find_handler, unless_disconnected, respond, answer_exception, catch_exception,
  run_handler, try_process, header_of, process,
}

-- What a handler's ending makes the processor answer, if anything.
unfoldable pub answer : Result (Unit {0}) → Option Response
answer (ok u) = some (process_response process_ok none none)
answer (raised (invalid_transaction m x)) = some (process_response invalid_status (some m) x)
answer (raised (internal_error m x)) = some (process_response internal_status (some m) x)
answer (raised (authorization_exception m)) = some (process_response invalid_status (some m) none)
answer (raised e) = none

-- What then comes out of `_process` itself.
pub escape : Result (Unit {0}) → Result (Unit {0})
escape (ok u) = ok tt
escape (raised (invalid_transaction m x)) = ok tt
escape (raised (internal_error m x)) = ok tt
escape (raised (authorization_exception m)) = ok tt
escape (raised validator_connection_error) = ok tt
escape (raised e) = raised e

-- A stream that records what is sent back while it is connected, and raises when it is not.
pub record Recorded {W : Type 0} (link : Link W) : Type 0 where
  pub sent : W → List (ℕ × Text × Response)
  pub send_back_ready :
      (t : ℕ) (id : Text) (r : Response) (w : W)
      → link.is_ready w ≡ true
      → (w' : W) × (link.send_back t id r w ≡ (ok tt, w')) × (sent w' ≡ sent w ++ ((t, id, r) ∷ []))
  pub send_back_lost :
      (t : ℕ) (id : Text) (r : Response) (w : W)
      → link.is_ready w ≡ false
      → link.send_back t id r w ≡ (raised validator_connection_error, w)

abbrev answers : Text → Option Response → List (ℕ × Text × Response)
answers id none = []
answers id (some r) = (tp_process_response, id, r) ∷ []

module _ {W : Type 0} (link : Link W) (protobuf : Protobuf) (rec : Recorded link) where
  -- `sent` after the call is `sent` before it and the answers; the result is as given.
  abbrev Ends : W → Result (Unit {0}) → List (ℕ × Text × Response) → Result (Unit {0}) × W → Type 0
  Ends w r more out = (out.0 ≡ r) × (rec.sent out.1 ≡ rec.sent w ++ more)

  nothing_sent : (w : W) (r : Result (Unit {0})) → Ends w r [] (r, w)
  nothing_sent w r = (refl, sym (append-nil (rec.sent w)))

  -- An exception of the handler, on a stream that is connected, or not.
  answer_ready :
      (id : Text) (e : Exc) (w : W)
      → link.is_ready w ≡ true
      → Ends w
          (escape (raised e))
          (answers id (answer (raised e)))
          (answer_exception link protobuf id e w)
  unfolding answer_exception unless_disconnected respond answer escape
  answer_ready id (invalid_transaction m x) w h =
      let (w', e, s) =
        rec.send_back_ready tp_process_response id (process_response invalid_status (some m) x) w
          h in
      rw (e, answer_exception) (refl, s)
  answer_ready id (internal_error m x) w h =
      let (w', e, s) =
        rec.send_back_ready tp_process_response id (process_response internal_status (some m) x) w
          h in
      rw (e, answer_exception) (refl, s)
  answer_ready id (authorization_exception m) w h =
      let (w', e, s) =
        rec.send_back_ready tp_process_response id (process_response invalid_status (some m) none) w
          h in
      rw (e, answer_exception) (refl, s)
  answer_ready id validator_connection_error w h = nothing_sent w (ok tt)
  answer_ready id e w h = nothing_sent w (raised e)

  answer_lost :
      (id : Text) (e : Exc) (w : W)
      → link.is_ready w ≡ false
      → Ends w (escape (raised e)) [] (answer_exception link protobuf id e w)
  unfolding answer_exception unless_disconnected respond escape
  answer_lost id (invalid_transaction m x) w h =
      rw
        (
          rec.send_back_lost tp_process_response id (process_response invalid_status (some m) x) w
              h,
          answer_exception,
        )
        (nothing_sent w (ok tt))
  answer_lost id (internal_error m x) w h =
      rw
        (
          rec.send_back_lost tp_process_response id (process_response internal_status (some m) x) w
              h,
          answer_exception,
        )
        (nothing_sent w (ok tt))
  answer_lost id (authorization_exception m) w h =
      rw
        (
          rec.send_back_lost tp_process_response id (process_response invalid_status (some m) none)
              w h,
          answer_exception,
        )
        (nothing_sent w (ok tt))
  answer_lost id validator_connection_error w h = nothing_sent w (ok tt)
  answer_lost id e w h = nothing_sent w (raised e)

  abbrev when_ready : Bool → List (ℕ × Text × Response) → List (ℕ × Text × Response)
  when_ready true more = more
  when_ready false more = []

  abbrev after_handler : Text → Result (Unit {0}) × W → Result (Unit {0}) × W
  after_handler id (ok u, w) =
      catch_exception link protobuf id (respond link protobuf id process_ok none none w)
  after_handler id (raised e, w) = answer_exception link protobuf id e w

  handled :
      (id : Text) (r : Result (Unit {0})) (w : W)
      → Ends w
          (escape r)
          (when_ready (link.is_ready w) (answers id (answer r)))
          (after_handler id (r, w))
  unfolding catch_exception respond answer escape
  handled id (ok tt) w = elim (Bool-cases (link.is_ready w)) [
    | inl h ↦
        let (w', e, s) =
          rec.send_back_ready tp_process_response id (process_response process_ok none none) w h in
        rw (e, h) (refl, s)
    | inr h ↦
        rw
          (rec.send_back_lost tp_process_response id (process_response process_ok none none) w h, h)
          (unfold answer_exception in nothing_sent w (ok tt))
  ]
  handled id (raised e) w = elim (Bool-cases (link.is_ready w)) [
    | inl h ↦ rw h (answer_ready id e w h)
    | inr h ↦ rw h (answer_lost id e w h)
  ]

  joined :
      (id : Text) (r : Result (Unit {0})) (w : W)
      → catch_exception link protobuf id
          (continue_with r w (λ _. respond link protobuf id process_ok none none))
        ≡ after_handler id (r, w)
  unfolding catch_exception
  joined id (ok u) w = refl
  joined id (raised e) w = refl

  -- A TP_PROCESS_REQUEST that can be parsed, on a connected stream, for which a handler is found
  -- that itself sends no answer: if the stream is still connected when the handler ends, exactly one
  -- TP_PROCESS_RESPONSE is sent for InvalidTransaction, AuthorizationException, InternalError and
  -- for a normal end, with the status, the message and the extended data of that ending, and none
  -- for another exception; if it is not, nothing is sent. `_process` itself returns, but for the
  -- exceptions outside these and ValidatorConnectionError, which go on.
  pub process-Ends :
      (p : Processor W) (msg : Envelope) (w w1 : W) {request : ProcessRequest} {header : Header}
      {handler : TransactionHandler W} {r : Result (Unit {0})}
      → msg.message_type ≡ tp_process_request
      → protobuf.parse_process_request msg.content ≡ ok request
      → header_of link protobuf p.header_style request ≡ ok header
      → link.is_ready w ≡ true
      → find_handler p.handlers header ≡ some handler
      → handler.apply request (record { stream = link.peer; context_id = request.context_id }) w
        ≡ (r, w1)
      → rec.sent w1 ≡ rec.sent w
      → Ends w
          (escape r)
          (when_ready (link.is_ready w1) (answers msg.correlation_id (answer r)))
          (process link protobuf p msg w)
  unfolding process try_process run_handler
  process-Ends p msg w w1 {request} {header} {handler} {r} t parsed headed ready found applied
        quiet =
      let (same, more) = handled msg.correlation_id r w1 in
      rw (t, parsed, headed, ready, found, applied, joined msg.correlation_id r w1)
        (
          same,
          more
              ∙ ap (λ l. l ++ when_ready (link.is_ready w1) (answers msg.correlation_id (answer r)))
                  quiet,
        )
