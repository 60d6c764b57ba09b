-- ===== src/Client/Waits.antt =====
-- The post of a batch and the wait for it, in examples/xo_python/sawtooth_xo/xo_client.py, ask and answer
-- as `Posted` says.
use sawtooth_sdk_python.Base.{
  subst, ℕ, ◌-◌, ◌<◌, ◌≡◌, refl, true, inl, inr, not, Option, none, some, List, [], ◌∷◌, ◌++◌,
  if◌then◌else◌, ltb, take, arith, Bool-cases, Option-cases, ap, sym,
}
use sawtooth_sdk_python.Base.Text.{Text, Bytes, codes, text_eq, text_eq_iff}
use sawtooth_sdk_python.Base.Dict.{Dict}
use sawtooth_sdk_python.Base.Exec.{Exc, Result, ok, raised, pure, continue_with}
use sawtooth_sdk_python.Batch.Messages.{Batch}
use sawtooth_sdk_python.Client.Rest.{
  Answer, Rest, Failures, str_nat, full_url, text_of, status_or_fail, send_request, get_status,
  wait_loop, post_batch,
}
use sawtooth_sdk_python.Client.Posted.{
  text_in, batches_request, status_request, text_of-some, text_of-none, status_in, Waited, over,
  stopped, lost, settled, pending, Posted, rejected, accepted, awaited,
}

module _ {W : Type 0} (rest : Rest W) where
  module _ (failures : Failures) (base : Text)
      (http : text_eq (take 7 base) (codes "http://") ≡ true) (auth : Dict Text) where
    status_or_fail-some :
        (url : Text) (name : Option Text) (a : Answer) {status : Text}
        → status_in rest a ≡ some status
        → status_or_fail rest failures base (text_of failures url name a) ≡ ok status
    status_or_fail-some url name a s = elim (Option-cases (text_in a)) [
      | inl t ↦ absurd (let f = rw (t, status_in) at s in cc)
      | inr (text, t) ↦
          rw (text_of-some failures url name a t) (rw (rw (t, status_in) at s, status_or_fail) refl)
    ]

    status_or_fail-none :
        (url : Text) (name : Option Text) (a : Answer)
        → status_in rest a ≡ none
        → (e : Exc) × (status_or_fail rest failures base (text_of failures url name a) ≡ raised e)
    status_or_fail-none url name a s = elim (Option-cases (text_in a)) [
      | inl t ↦ let (e, f) = text_of-none failures url name a t in (failures.wrapped, rw f refl)
      | inr (text, t) ↦ (
        failures.wrapped,
        rw (text_of-some failures url name a t) (rw (rw (t, status_in) at s, status_or_fail) refl),
      )
    ]

    full_url-eq : (suffix : Text) → full_url base suffix ≡ base ++ codes "/" ++ suffix
    unfolding full_url
    full_url-eq suffix = rw http refl

    pub send_request-eq :
        (suffix : Text) (content_type name : Option Text) (body : Option Bytes)
        (headers : Dict Text) (w w' : W) (a : Answer)
        → rest.exchange
            (record { url = base ++ codes "/" ++ suffix; headers = headers; body = body })
            w
          ≡ (a, w')
        → headers
          ≡ elim content_type [ none ↦ auth | some t ↦ auth ++ (codes "Content-Type", t) ∷ [] ]
        → send_request rest failures base auth suffix body content_type name w
          ≡ (text_of failures (base ++ codes "/" ++ suffix) name a, w')
    unfolding send_request
    send_request-eq suffix content_type name body headers w w' a e h =
        rw (full_url-eq suffix) (rw (← h) (rw e refl))

    get_status-eq :
        (id : Text) (wait : ℕ) (w w' : W) (a : Answer)
        → rest.exchange (status_request base auth id wait) w ≡ (a, w')
        → get_status rest failures base auth id wait w ≡ (
          status_or_fail rest failures base
              (text_of failures (status_request base auth id wait).url none a),
          w',
        )
    unfolding get_status
    get_status-eq id wait w w' a e =
        ap {A = Result Text × W} {B = Result Text × W}
          (λ p. (status_or_fail rest failures base p.0, p.1))
          (send_request-eq (codes "batch_statuses?id=" ++ id ++ codes "&wait=" ++ str_nat wait) none
            none none auth w w' a e refl)

    wait_loop-Waited :
        (id answer : Text) (wait waited : ℕ) (clock : List ℕ) (w : W)
        → Waited rest base auth id answer wait waited clock w
            (wait_loop rest failures base auth id answer wait waited clock w).0
            (wait_loop rest failures base auth id answer wait waited clock w).1
    unfolding wait_loop
    wait_loop-Waited id answer wait waited [] w = stopped
    wait_loop-Waited id answer wait waited (now ∷ clock) w = elim (Bool-cases (ltb waited wait)) [
      | inr done ↦ rw done (over (ground arith))
      | inl going ↦ rw going (
          round (wait_loop-Waited id answer wait now clock) (ground arith)
            (rest.exchange (status_request base auth id (wait - waited)) w) refl)
    ]
      where
        After : Result Text × W → Type 0
        After got =
            let out = continue_with got.0 got.1 (λ status.
              if not (text_eq status (codes "PENDING"))
              then pure answer
              else wait_loop rest failures base auth id answer wait now clock) in
            Waited rest base auth id answer wait waited (now ∷ clock) w out.0 out.1

        round :
            ((w' : W)
              → Waited rest base auth id answer wait now clock w'
                  (wait_loop rest failures base auth id answer wait now clock w').0
                  (wait_loop rest failures base auth id answer wait now clock w').1)
            → waited < wait
            → (out : Answer × W)
            → rest.exchange (status_request base auth id (wait - waited)) w ≡ out
            → After (get_status rest failures base auth id (wait - waited) w)
        round later lt (a, w') e = elim (Option-cases (status_in rest a)) [
          | inl s ↦
              let (x, f) =
                status_or_fail-none (status_request base auth id (wait - waited)).url none a s in
              let got : get_status rest failures base auth id (wait - waited) w ≡ (raised x, w') =
                rw (get_status-eq id (wait - waited) w w' a e, f) refl in
              subst After (sym got) (lost a x lt e s)
          | inr (status, s) ↦
              let f =
                status_or_fail-some (status_request base auth id (wait - waited)).url none a s in
              let got : get_status rest failures base auth id (wait - waited) w ≡ (ok status, w') =
                rw (get_status-eq id (wait - waited) w w' a e, f) refl in
              subst After (sym got) (
                (elim (Bool-cases (text_eq status (codes "PENDING"))) [
                  | inl p ↦ rw p (
                      pending a lt e
                        (subst (λ t. status_in rest a ≡ some t) ((text_eq_iff status _).0 p) s)
                        (later w'))
                  | inr p ↦ rw p (
                      settled a status lt e s
                        (λ q. let t = (text_eq_iff status (codes "PENDING")).1 q in cc))
                ]))
        ]

    pub post_batch-Posted :
        (batch : Batch) (wait : Option ℕ) (clock : List ℕ) (w : W)
        → Posted rest base auth batch wait clock w
            (post_batch rest failures base auth batch wait clock w).0
            (post_batch rest failures base auth batch wait clock w).1
    unfolding post_batch
    post_batch-Posted batch wait clock w =
        posted (rest.exchange (batches_request base auth bytes) w) refl
      where
        bytes : Bytes
        bytes = rest.batch_list_bytes (batch ∷ [])

        After : (wait : Option ℕ) → Result Text × W → Type 0
        After wait got =
            let out = continue_with got.0 got.1 (λ answer. elim wait [
              | none ↦ pure answer
              | some seconds ↦
                  wait_loop rest failures base auth batch.header_signature answer seconds 0 clock
            ]) in
            Posted rest base auth batch wait clock w out.0 out.1

        sent :
            (a : Answer) (w' : W)
            → rest.exchange (batches_request base auth bytes) w ≡ (a, w')
            → send_request rest failures base auth
                (codes "batches")
                (some bytes)
                (some (codes "application/octet-stream"))
                none
                w
              ≡ (text_of failures (base ++ codes "/" ++ codes "batches") none a, w')
        sent a w' e =
            send_request-eq (codes "batches") (some (codes "application/octet-stream")) none
              (some bytes) (auth ++ (codes "Content-Type", codes "application/octet-stream") ∷ []) w
              w' a e refl

        answered :
            (wait : Option ℕ) (a : Answer) (text : Text) (w' : W)
            → rest.exchange (batches_request base auth bytes) w ≡ (a, w')
            → text_in a ≡ some text
            → After wait (ok text, w')
        answered none a text w' e t = accepted a text e t refl
        answered (some seconds) a text w' e t =
            awaited a text seconds e t refl
              (wait_loop-Waited batch.header_signature text seconds 0 clock w')

        posted :
            (out : Answer × W)
            → rest.exchange (batches_request base auth bytes) w ≡ out
            → After wait (
                send_request rest failures base auth
                  (codes "batches")
                  (some bytes)
                  (some (codes "application/octet-stream"))
                  none
                  w)
        posted (a, w') e = elim (Option-cases (text_in a)) [
          | inl t ↦
              let (x, f) = text_of-none failures (base ++ codes "/" ++ codes "batches") none a t in
              subst (After wait) (sym (sent a w' e)) (rw f (rejected a x e t))
          | inr (text, t) ↦ subst (After wait) (sym (sent a w' e)) (
              rw (text_of-some failures (base ++ codes "/" ++ codes "batches") none a t)
                (answered wait a text w' e t))
        ]
