-- ===== src/Client/Posted.antt =====
-- What `_send_xo_txn` of examples/xo_python/sawtooth_xo/xo_client.py asks over HTTP, and what it makes of
-- the answers: the post of a batch, and the questions for its status.
use sawtooth_sdk_python.Base.{
  ℕ, ◌-◌, ◌≤◌, ◌<◌, ◌≡◌, ◌≢◌, refl, inl, inr, not, ◌||◌, Option, none, some, List, [], ◌∷◌, ◌++◌,
  if◌then◌else◌, ◌==◌, arith, Bool-cases,
}
use sawtooth_sdk_python.Base.Text.{Text, Bytes, codes}
use sawtooth_sdk_python.Base.Dict.{Dict}
use sawtooth_sdk_python.Base.Exec.{Exc, Result, ok, raised}
use sawtooth_sdk_python.Batch.Messages.{Batch}
use sawtooth_sdk_python.Client.Rest.{
  HttpRequest, Answer, response, refused, failed, Rest, Failures, str_nat, text_of,
}

-- The text of an answer that is a success.
abbrev pub text_in : Answer → Option Text
text_in (response code succeeded reason text) =
    if code == 404 || not succeeded then none else some text
text_in refused = none
text_in failed = none

-- The post of a batch list.
abbrev pub batches_request : (base : Text) → Dict Text → Bytes → HttpRequest
batches_request base auth bytes = record {
  url = base ++ codes "/" ++ codes "batches";
  headers = auth ++ (codes "Content-Type", codes "application/octet-stream") ∷ [];
  body = some bytes;
}

-- The question for the status of a batch.
abbrev pub status_request : (base : Text) → Dict Text → (id : Text) → (wait : ℕ) → HttpRequest
status_request base auth id wait = record {
  url = base ++ codes "/" ++ (codes "batch_statuses?id=" ++ id ++ codes "&wait=" ++ str_nat wait);
  headers = auth;
  body = none;
}

pub text_of-some :
    (failures : Failures) (url : Text) (name : Option Text) (a : Answer) {text : Text}
    → text_in a ≡ some text
    → text_of failures url name a ≡ ok text
unfolding text_of
text_of-some failures url name (response code succeeded reason t) h = ground arith
text_of-some failures url name refused h = absurd (cc)
text_of-some failures url name failed h = absurd (cc)

pub text_of-none :
    (failures : Failures) (url : Text) (name : Option Text) (a : Answer)
    → text_in a ≡ none
    → (e : Exc) × (text_of failures url name a ≡ raised e)
unfolding text_of
text_of-none failures url name (response code succeeded reason t) h =
    elim (Bool-cases (code == 404)) [
      | inl c ↦ (failures.missing name, rw c refl)
      | inr c ↦ elim (Bool-cases succeeded) [
        | inl s ↦ absurd (ground arith)
        | inr s ↦ (failures.unsuccessful (str_nat code) reason, rw (c, s) refl)
      ]
    ]
text_of-none failures url name refused h = (failures.connection url, refl)
text_of-none failures url name failed h = (failures.wrapped, refl)

module _ {W : Type 0} (rest : Rest W) where
  -- The status that an answer reports.
  abbrev pub status_in : Answer → Option Text
  status_in a = elim (text_in a) [ none ↦ none | some text ↦ rest.status_of text ]

  -- The wait for a batch, `wait` seconds at most: the clock shows how many have passed after each
  -- question. A status other than PENDING ends the wait, and so does an answer without a status,
  -- which is reported.
  pub data Waited (base : Text) (auth : Dict Text) (id answer : Text) (wait : ℕ)
      : ℕ → List ℕ → W → Result Text → W → Type 0 where
    over :
        {waited : ℕ} {clock : List ℕ} {w : W}
        → wait ≤ waited
        → Waited base auth id answer wait waited clock w (ok answer) w
    stopped : {waited : ℕ} {w : W} → Waited base auth id answer wait waited [] w (ok answer) w
    lost :
        {waited now : ℕ} {clock : List ℕ} {w w' : W} (a : Answer) (e : Exc)
        → waited < wait
        → rest.exchange (status_request base auth id (wait - waited)) w ≡ (a, w')
        → status_in a ≡ none
        → Waited base auth id answer wait waited (now ∷ clock) w (raised e) w'
    settled :
        {waited now : ℕ} {clock : List ℕ} {w w' : W} (a : Answer) (status : Text)
        → waited < wait
        → rest.exchange (status_request base auth id (wait - waited)) w ≡ (a, w')
        → status_in a ≡ some status
        → status ≢ codes "PENDING"
        → Waited base auth id answer wait waited (now ∷ clock) w (ok answer) w'
    pending :
        {waited now : ℕ} {clock : List ℕ} {w w' w'' : W} {r : Result Text} (a : Answer)
        → waited < wait
        → rest.exchange (status_request base auth id (wait - waited)) w ≡ (a, w')
        → status_in a ≡ some (codes "PENDING")
        → Waited base auth id answer wait now clock w' r w''
        → Waited base auth id answer wait waited (now ∷ clock) w r w''

  -- The post of a batch list of this one batch, and the wait if one is asked for. An answer that is no
  -- success is reported; otherwise its text is returned.
  pub data Posted (base : Text) (auth : Dict Text) (batch : Batch) (wait : Option ℕ)
      (clock : List ℕ) : W → Result Text → W → Type 0 where
    rejected :
        {w w' : W} (a : Answer) (e : Exc)
        → rest.exchange (batches_request base auth (rest.batch_list_bytes (batch ∷ []))) w ≡ (a, w')
        → text_in a ≡ none
        → Posted base auth batch wait clock w (raised e) w'
    accepted :
        {w w' : W} (a : Answer) (text : Text)
        → rest.exchange (batches_request base auth (rest.batch_list_bytes (batch ∷ []))) w ≡ (a, w')
        → text_in a ≡ some text
        → wait ≡ none
        → Posted base auth batch wait clock w (ok text) w'
    awaited :
        {w w' w'' : W} {r : Result Text} (a : Answer) (text : Text) (seconds : ℕ)
        → rest.exchange (batches_request base auth (rest.batch_list_bytes (batch ∷ []))) w ≡ (a, w')
        → text_in a ≡ some text
        → wait ≡ some seconds
        → Waited base auth batch.header_signature text seconds 0 clock w' r w''
        → Posted base auth batch wait clock w r w''
