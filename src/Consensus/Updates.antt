-- ===== src/Consensus/Updates.antt =====
-- What the driver's loop hands to the engine, against what arrives.
use sawtooth_sdk_python.Base.{
  ℕ, ◌≡◌, refl, ap, sym, ◌∙◌, true, false, List, [], ◌∷◌, ◌++◌, arith, ◌==◌,
}
use mathlib.Core.List.{append-nil, append_assoc}
use sawtooth_sdk_python.Base.Exec.{Exc, Result, ok, raised, receive_error}
use sawtooth_sdk_python.Processor.Link.{Envelope, ping_request}
use sawtooth_sdk_python.Consensus.Driver.{
  Data, no_data, Notices, Channel, Driver, Arrival, timed_out, cancelled, reconnect_event, stopped,
  arrived, stop, read_notice, process_notice, put_update, after_process, driver_loop,
}
use sawtooth_sdk_python.Consensus.Meanings.{
  Calm, Meaning, news, farewell, ping, unknown, meaning, Outcome, nothing_more, one_more,
  after_failure, with_meaning, outcome,
}

module _ {W : Type 0} (channel : Channel W) (n : Notices) (calm : Calm channel) where
  abbrev read_as : Meaning → Envelope → Driver W → Result Data × Driver W
  read_as (news r) msg d = (r, d)
  read_as farewell msg d = (ok no_data, (stop channel d).1)
  read_as ping msg d = (ok no_data, d)
  read_as unknown msg d = (raised (receive_error msg.message_type), d)

  -- `stop` raises nothing here, hands over nothing and acknowledges nothing.
  stopped_by :
      (d : Driver W)
      → (d' : Driver W) × (stop channel d ≡ (ok tt, d'))
        × (d'.exit ≡ true)
        × (d'.updates ≡ d.updates)
        × (calm.acks d'.world ≡ calm.acks d.world)
  unfolding stop
  stopped_by d =
      let (w1, e1, a1) = calm.stop_ok d.world in
      let (w2, e2, a2) = calm.close_ok w1 in
      (
        record { exit = true; updates = d.updates; world = w2 },
        rw (e1, stop) (rw (e2, stop) refl),
        refl,
        refl,
        a2 ∙ a1,
      )

  read_notice-eq :
      (msg : Envelope) (d : Driver W) → read_notice channel n msg d ≡ read_as (meaning n msg) msg d
  unfolding read_notice meaning
  read_notice-eq msg d = let (d', e, _, _, _) = stopped_by d in ground arith

  tag_ping : (msg : Envelope) → meaning n msg ≡ ping → (msg.message_type == ping_request) ≡ true
  unfolding meaning
  tag_ping msg h = ground arith

  tag_news :
      (msg : Envelope) {r : Result Data}
      → meaning n msg ≡ news r
      → (msg.message_type == ping_request) ≡ false
  unfolding meaning
  tag_news msg h = ground arith

  tag_farewell :
      (msg : Envelope) → meaning n msg ≡ farewell → (msg.message_type == ping_request) ≡ false
  unfolding meaning
  tag_farewell msg h = ground arith

  -- What has been read is acknowledged and returned.
  process_notice-ok :
      (msg : Envelope) (x : Data) (d d1 : Driver W)
      → read_notice channel n msg d ≡ (ok x, d1)
      → (d' : Driver W) × (process_notice channel n msg d ≡ (ok (msg.message_type, x), d'))
        × (d'.exit ≡ d1.exit)
        × (d'.updates ≡ d1.updates)
        × (calm.acks d'.world ≡ calm.acks d1.world ++ (msg.correlation_id ∷ []))
  unfolding process_notice
  process_notice-ok msg x d d1 h =
      let (w, e, a) = calm.ack_ok msg.correlation_id d1.world in
      (record d1 { world = w }, rw (h, process_notice) (rw (e, process_notice) refl), refl, refl, a)

  process_notice-raised :
      (msg : Envelope) (e : Exc) (d d1 : Driver W)
      → read_notice channel n msg d ≡ (raised e, d1)
      → process_notice channel n msg d ≡ (raised e, d1)
  unfolding process_notice
  process_notice-raised msg e d d1 h = rw (h, process_notice) refl

  -- The updates and the acknowledgements of `out` are those of `d`, and then those of the outcome.
  abbrev Hands : Driver W → Outcome → Driver W → Type 0
  Hands d o out =
      (out.updates ≡ d.updates ++ o.handed)
      × (calm.acks out.world ≡ calm.acks d.world ++ o.acknowledged)

  Hands-nothing :
      (d out : Driver W)
      → out.updates ≡ d.updates
      → calm.acks out.world ≡ calm.acks d.world
      → Hands d nothing_more out
  Hands-nothing d out u a =
      (u ∙ sym (append-nil d.updates), a ∙ sym (append-nil (calm.acks d.world)))

  -- Once `_exit` is set, the loop stops the engine and ends.
  driver_loop-exit :
      (arrivals : List Arrival) (d : Driver W)
      → d.exit ≡ true
      → ((driver_loop channel n arrivals d).updates ≡ d.updates)
        × (calm.acks (driver_loop channel n arrivals d).world ≡ calm.acks d.world)
  unfolding driver_loop
  driver_loop-exit [] d h = let (w, e, a) = calm.stop_ok d.world in rw h (rw e (refl, a))
  driver_loop-exit (arrival ∷ arrivals) d h =
      let (w, e, a) = calm.stop_ok d.world in rw h (rw e (refl, a))

  Hands-one :
      (msg : Envelope) (x : Data) (d d' out : Driver W) (o : Outcome)
      → d'.updates ≡ d.updates ++ ((msg.message_type, x) ∷ [])
      → calm.acks d'.world ≡ calm.acks d.world ++ (msg.correlation_id ∷ [])
      → Hands d' o out
      → Hands d (one_more msg x o) out
  Hands-one msg x d d' out o u a (hu, ha) = (
    hu ∙ ap (λ l. l ++ o.handed) u ∙ append_assoc d.updates ((msg.message_type, x) ∷ []) o.handed,
    ha
        ∙ ap (λ l. l ++ o.acknowledged) a
        ∙ append_assoc (calm.acks d.world) (msg.correlation_id ∷ []) o.acknowledged,
  )

  module _ (msg : Envelope) (arrivals : List Arrival) (d : Driver W) where
    abbrev rest_of : Result (ℕ × Data) × Driver W → Driver W
    rest_of out = after_process channel n out (driver_loop channel n arrivals)

    round :
        (m : Meaning)
        → meaning n msg ≡ m
        → d.exit ≡ false
        → ((d' : Driver W)
            → d'.exit ≡ false
            → Hands d' (outcome n arrivals) (driver_loop channel n arrivals d'))
        → Hands d
            (with_meaning m msg (outcome n arrivals))
            (rest_of (process_notice channel n msg d))
    unfolding after_process put_update
    round (news (ok x)) h going ih =
        let (d', e, keeps, u, a) =
          process_notice-ok msg x d d (read_notice-eq msg d ∙ ap (λ m. read_as m msg d) h) in
        rw (e, after_process)
          (rw (tag_news msg h) (
            Hands-one msg x d (record d' { updates = d'.updates ++ ((msg.message_type, x) ∷ []) })
              (driver_loop channel n arrivals
                (record d' { updates = d'.updates ++ ((msg.message_type, x) ∷ []) }))
              (outcome n arrivals) (ap (λ l. l ++ ((msg.message_type, x) ∷ [])) u) a
              (ih (record d' { updates = d'.updates ++ ((msg.message_type, x) ∷ []) })
                (keeps ∙ going))))
    round (news (raised e)) h going ih =
        rw
          (
            process_notice-raised msg e d d (read_notice-eq msg d ∙ ap (λ m. read_as m msg d) h),
            after_process,
          )
          (failed e)
      where
        failed : (e : Exc) → Hands d (after_failure e (outcome n arrivals)) (rest_of (raised e, d))
        failed (receive_error status) = ih d going
        failed e = Hands-nothing d d refl refl
    round farewell h going ih =
        let (s, stops, exits, su, sa) = stopped_by d in
        let (d', e, keeps, u, a) = process_notice-ok msg no_data d s (
          read_notice-eq msg d
          ∙ ap (λ m. read_as m msg d) h
          ∙ ap {B = Result Data × Driver W}
              (λ (p : Result (Unit {0}) × Driver W). (ok no_data, p.1)) stops) in
        let (lu, la) =
          driver_loop-exit arrivals
            (record d' { updates = d'.updates ++ ((msg.message_type, no_data) ∷ []) })
            (keeps ∙ exits) in
        rw (e, after_process)
          (rw (tag_farewell msg h) (
            lu ∙ ap (λ l. l ++ ((msg.message_type, no_data) ∷ [])) (u ∙ su),
            la ∙ a ∙ ap (λ l. l ++ (msg.correlation_id ∷ [])) sa,
          ))
    round ping h going ih =
        let (d', e, keeps, u, a) =
          process_notice-ok msg no_data d d (read_notice-eq msg d ∙ ap (λ m. read_as m msg d) h) in
        rw (e, after_process)
          (rw (tag_ping msg h) (
            let (hu, ha) = ih d' (keeps ∙ going) in
            (
              hu ∙ ap (λ l. l ++ (outcome n arrivals).handed) u,
              ha
                  ∙ ap (λ l. l ++ (outcome n arrivals).acknowledged) a
                  ∙ append_assoc (calm.acks d.world) (msg.correlation_id ∷ [])
                      (outcome n arrivals).acknowledged,
            )))
    round unknown h going ih =
        rw
          (
            process_notice-raised msg (receive_error msg.message_type) d d
                (read_notice-eq msg d ∙ ap (λ m. read_as m msg d) h),
            after_process,
          )
          (ih d going)

  -- While the loop of the driver runs, on a stream and an engine that raise nothing: the engine is
  -- handed exactly the news that arrive, in order and with what was read from them, and so is the
  -- end of its activation, which is the last; pings, messages of unknown types and timeouts are
  -- skipped. What is handed over and the pings are acknowledged, each once and in order, and nothing
  -- else is. News that cannot be read, `stop`, and a reconnect or a disconnect of the stream end the
  -- loop.
  pub driver_loop-outcome :
      (arrivals : List Arrival) (d : Driver W)
      → d.exit ≡ false
      → Hands d (outcome n arrivals) (driver_loop channel n arrivals d)
  unfolding driver_loop outcome
  driver_loop-outcome [] d h = simp h (Hands-nothing d d refl refl)
  driver_loop-outcome (timed_out ∷ arrivals) d h = simp h (driver_loop-outcome arrivals d h)
  driver_loop-outcome (cancelled ∷ arrivals) d h = simp h (Hands-nothing d d refl refl)
  driver_loop-outcome (reconnect_event ∷ arrivals) d h = simp h (Hands-nothing d d refl refl)
  driver_loop-outcome (stopped ∷ arrivals) d h =
      let (d', e, exits, u, a) = stopped_by d in
      let (lu, la) = driver_loop-exit arrivals d' exits in
      simp h (rw e (Hands-nothing d (driver_loop channel n arrivals d') (lu ∙ u) (la ∙ a)))
  driver_loop-outcome (arrived msg ∷ arrivals) d h =
      simp h (round msg arrivals d (meaning n msg) refl h (driver_loop-outcome arrivals))
