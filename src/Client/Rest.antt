-- ===== src/Client/Rest.antt =====
-- What examples/xo_python/sawtooth_xo/xo_client.py and
-- examples/intkey_python/sawtooth_intkey/client_cli/intkey_client.py share: requests over HTTP, and the
-- wait for a batch. The package `requests`, `yaml` and the clock are parameters.
use sawtooth_sdk_python.Base.{
  ℕ, zero, suc, ◌+◌, ◌-◌, Bool, not, Option, none, some, List, [], ◌∷◌, ◌++◌, if◌then◌else◌, ltb,
  ◌==◌, take,
}
use Prim.Native.Nat.{◌/◌, ◌%◌}
use sawtooth_sdk_python.Base.Text.{Text, Bytes, codes, text_eq}
use sawtooth_sdk_python.Base.Dict.{Dict}
use sawtooth_sdk_python.Base.Exec.{Exec, Result, ok, raised, Exc, pure, ◌>>=◌}
use sawtooth_sdk_python.Batch.Messages.{Batch}

pub record HttpRequest : Type 0 where
  pub url : Text
  pub headers : Dict Text
  pub body : Option Bytes

-- How a request ends: a response with its status code, `ok`, its reason and its text; a
-- `requests.ConnectionError`; or another exception.
pub data Answer : Type 0 where
  response : ℕ → Bool → Text → Text → Answer
  refused failed : Answer

pub record Rest (W : Type 0) : Type 0 where
  -- `requests.post` with a body, `requests.get` without
  pub exchange : HttpRequest → W → Answer × W
  -- `BatchList(batches=…).SerializeToString()`
  pub batch_list_bytes : List Batch → Bytes
  -- Of a text in YAML, with none for any exception: `[…]['data'][0]['status']`, the decoded
  -- `entry["data"]` of all entries, and the decoded `["data"]`
  pub status_of : Text → Option Text
  pub entries_of : Text → Option (List Bytes)
  pub data_of : Text → Option Bytes
  -- `b64encode(b).decode()`
  pub b64encode : Bytes → Text

-- `str(n)`: `fuel` bounds the digits.
unfoldable pub digits : ℕ → ℕ → Text
digits zero n = []
digits (suc fuel) n =
    let rest = digits fuel (n / 10) ++ (48 + n % 10) ∷ [] in
    if ltb n 10 then (48 + n) ∷ [] else rest

unfoldable pub str_nat : ℕ → Text
unfolding digits
str_nat n = digits (suc n) n

-- The exceptions of a client: for a missing name, an answer that is no success, a refused connection,
-- and any other. An exception raised in the `try` is caught there and raised again in another of the
-- same text.
pub record Failures : Type 0 where
  pub missing : Option Text → Exc
  pub unsuccessful : Text → Text → Exc
  pub connection : Text → Exc
  pub wrapped : Exc

-- `url.startswith("http://")` decides the url of a request.
unfoldable pub full_url : Text → Text → Text
full_url base suffix =
    let path = base ++ codes "/" ++ suffix in
    if text_eq (take 7 base) (codes "http://") then path else codes "http://" ++ path

-- The outcome of `_send_request`
unfoldable pub text_of : Failures → Text → Option Text → Answer → Result Text
text_of failures url name (response code succeeded reason text) =
    if code == 404
    then raised (failures.missing name)
    else if not succeeded
    then raised (failures.unsuccessful (str_nat code) reason)
    else ok text
text_of failures url name refused = raised (failures.connection url)
text_of failures url name failed = raised failures.wrapped

module _ {W : Type 0} (rest : Rest W) (failures : Failures) (base : Text) where
  -- `_send_request`, with the headers for the user if any
  unfoldable pub send_request :
      Dict Text → (suffix : Text) → Option Bytes → Option Text → Option Text → Exec W Text
  unfolding full_url text_of
  send_request auth suffix body content_type name w =
      let url = full_url base suffix in
      let headers : Dict Text = elim content_type [
        | none ↦ auth
        | some t ↦ auth ++ (codes "Content-Type", t) ∷ []
      ] in
      let (answer, w') = rest.exchange (record { url = url; headers = headers; body = body }) w in
      (text_of failures url name answer, w')

  abbrev pub status_or_fail : Result Text → Result Text
  status_or_fail (ok text) = elim (rest.status_of text) [
    | none ↦ raised failures.wrapped
    | some status ↦ ok status
  ]
  status_or_fail (raised e) = raised failures.wrapped

  -- `_get_status`
  unfoldable pub get_status : Dict Text → Text → ℕ → Exec W Text
  unfolding send_request
  get_status auth batch_id wait w =
      let (r, w') =
        send_request auth (codes "batch_statuses?id=" ++ batch_id ++ codes "&wait=" ++ str_nat wait)
          none none none w in
      (status_or_fail r, w')

  -- The loop that waits: `elapsed` lists the whole seconds since the start, after each status; after
  -- the last of them the time is over.
  unfoldable pub wait_loop : Dict Text → Text → Text → (wait wait_time : ℕ) → List ℕ → Exec W Text
  unfolding get_status
  wait_loop auth batch_id answer wait wait_time [] w = (ok answer, w)
  wait_loop auth batch_id answer wait wait_time (now ∷ elapsed) w =
      let more =
        (do
          status ← get_status auth batch_id (wait - wait_time)
          if not (text_eq status (codes "PENDING"))
              then pure answer
              else wait_loop auth batch_id answer wait now elapsed)
          w in
      if ltb wait_time wait then more else (ok answer, w)

  -- The end of `_send_xo_txn` and `_send_transaction`: the post, and the wait if one is asked for
  unfoldable pub post_batch : Dict Text → Batch → Option ℕ → List ℕ → Exec W Text
  unfolding send_request wait_loop
  post_batch auth batch wait elapsed = do
    answer ←
        send_request auth (codes "batches") (some (rest.batch_list_bytes (batch ∷ [])))
          (some (codes "application/octet-stream")) none
    elim wait [
      | none ↦ pure answer
      | some seconds ↦ wait_loop auth batch.header_signature answer seconds 0 elapsed
    ]

  -- `list`, where none is None
  unfoldable pub list_entries : Dict Text → Text → Exec W (Option (List Bytes))
  unfolding send_request
  list_entries auth prefix = do
    text ← send_request auth (codes "state?address=" ++ prefix) none none none
    pure (rest.entries_of text)

  -- `show`
  unfoldable pub show_data : Dict Text → Text → Text → Exec W (Option Bytes)
  unfolding send_request
  show_data auth address name = do
    text ← send_request auth (codes "state/" ++ address) none none (some name)
    pure (rest.data_of text)
