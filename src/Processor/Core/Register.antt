-- ===== src/Processor/Core/Register.antt =====
-- sawtooth_sdk/processor/core.py: `_register_requests`, `_register` and `_unregister`.
use sawtooth_sdk_python.Base.{ℕ, not, List, [], ◌∷◌, ◌++◌, if◌then◌else◌, ◌==◌}
use sawtooth_sdk_python.Base.Text.{Text}
use sawtooth_sdk_python.Base.Exec.{
  Exec, Result, ok, raised, pure, lift, ◌>>=◌, ◌>>◌, validator_version_error, runtime_error,
}
use sawtooth_sdk_python.Processor.Link.{RegisterRequest, RegisterResponse, Link, TransactionHandler}
use sawtooth_sdk_python.Processor.Core.{Processor, unless_disconnected}

module _ {W : Type 0} where
  abbrev pub request_for : Processor W → TransactionHandler W → Text → RegisterRequest
  request_for p h version = record {
    family = h.family_name;
    version = version;
    namespaces = h.namespaces;
    protocol_version = p.highest_sdk_feature_requested;
    request_header_style = p.header_style;
  }

  -- The product of the one family name with the versions
  unfoldable pub requests_for :
      Processor W → TransactionHandler W → List Text → List RegisterRequest
  requests_for p h [] = []
  requests_for p h (version ∷ versions) = request_for p h version ∷ requests_for p h versions

  -- `_register_requests`, for the given handlers
  unfoldable pub register_requests :
      Processor W → List (TransactionHandler W) → List RegisterRequest
  unfolding requests_for
  register_requests p [] = []
  register_requests p (h ∷ handlers) =
      requests_for p h h.family_versions ++ register_requests p handlers

-- The checks of one response
unfoldable pub check_response : ℕ → RegisterResponse → Result (Unit {0})
check_response highest response =
    if not (response.protocol_version == highest)
    then raised validator_version_error
    else if response.is_error
    then raised runtime_error
    else ok tt

module _ {W : Type 0} (link : Link W) where
  -- The first loop of `_register`, which collects the futures.
  unfoldable pub send_all : List RegisterRequest → Exec W (List Text)
  send_all [] = pure []
  send_all (request ∷ requests) = do
    link.wait_for_ready
    future ← link.send_register request
    futures ← send_all requests
    pure (future ∷ futures)

  -- The body of the second loop, with its `try`.
  unfoldable pub await_one : ℕ → Text → Exec W (Unit {0})
  unfolding check_response unless_disconnected
  await_one highest future w =
      unless_disconnected
        ((do response ← link.register_result future; lift (check_response highest response)) w)

  unfoldable pub await_all : ℕ → List Text → Exec W (Unit {0})
  unfolding await_one
  await_all highest [] = pure tt
  await_all highest (future ∷ futures) = do await_one highest future; await_all highest futures

  -- `_register`
  unfoldable pub register : Processor W → Exec W (Unit {0})
  unfolding register_requests send_all await_all
  register p = do
    futures ← send_all (register_requests p p.handlers)
    await_all p.highest_sdk_feature_requested futures

  -- `_unregister`
  unfoldable pub unregister : Exec W (Unit {0})
  unfolding unless_disconnected
  unregister = do
    link.wait_for_ready
    future ← link.send_unregister
    (λ w. unless_disconnected (link.unregister_result future 1 w))
