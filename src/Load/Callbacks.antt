-- ===== src/Load/Callbacks.antt =====
-- The callbacks of examples/intkey_python/sawtooth_intkey/client_cli/intkey_workload.py keep what holds
-- of the batches that are tracked, whatever is drawn, posted and answered.
use sawtooth_sdk_python.Base.{
  ℕ, ◌+◌, ◌≤◌, ◌≡◌, refl, sym, ◌∙◌, true, false, Option, none, some, ◌⊎◌, inl, inr, List, [], ◌∷◌,
  if◌then◌else◌, ltb, ◌==◌, Bool-cases, Option-cases, arith,
}
use sawtooth_sdk_python.Base.Text.{Text, codes, text_eq, text_eq_refl}
use sawtooth_sdk_python.Base.Dict.{
  lookup, insert, erase, lookup-insert, lookup-erase, erase-IsKeyed,
}
use sawtooth_sdk_python.Base.Int.{pos}
use sawtooth_sdk_python.Base.Exec.{Exec, Result, ok, raised, ◌>>=◌, ◌>>◌, continue_with}
use sawtooth_sdk_python.Base.Platform.{Platform}
use sawtooth_sdk_python.Intkey.Payload.{Cbor}
use sawtooth_sdk_python.Batch.Messages.{Proto, create_batch}
use sawtooth_sdk_python.Batch.Intkey.{SortedDumps, create_intkey_transaction}
use sawtooth_sdk_python.Load.Intkey.{
  IntKeyState, Workload, Draw, choose, contains, signed, on_validator_discovered,
  on_validator_removed, on_new_batch, track, remember, new_key_at, create_new_key, increment,
  committed_key, on_batch_committed,
}
use sawtooth_sdk_python.Load.Tracked.{
  IsKnown, Tracks, contains-choose, insert-IsTracked, insert_dep-IsTracked,
}
use sawtooth_sdk_python.Load.Validators.{discovered-Tracks, removed-Tracks}

-- What holds of the state that a chain leaves.
module _ {S A B : Type 0} (Before After : S → Type 0) where
  then_keeps :
      (r : Result A × S) (f : A → Exec S B)
      → Before r.1
      → ((s : S) → Before s → After s)
      → ((a : A) (s : S) → Before s → After (f a s).1)
      → After (continue_with r.0 r.1 f).1
  then_keeps (ok a, s) f b keep step = step a s b
  then_keeps (raised e, s) f b keep step = keep s b

module _ {Private Public : Type 0} where
  -- The workload tracks, and the key and the url of a batch to come are known.
  abbrev Ready : Text → Text → Workload Private Public → Type 0
  Ready name url w =
      Tracks w × ((dep : Text) × (lookup name w.deps ≡ some dep)) × (contains url w.urls ≡ true)

  track-Tracks :
      (id : Text) (g : IntKeyState) (posted : Option ℕ) (w : Workload Private Public)
      → g.value ≤ 1000000
      → Ready g.name g.url w
      → Tracks (track id g posted w).1
  unfolding track on_new_batch
  track-Tracks id g none w b r = r.0
  track-Tracks id g (some code) w b r = elim (Bool-cases (code == 202)) [
    | inl e ↦ rw e (
        insert-IsTracked w.urls w.deps w.pending_batches id g r.0
          (record { dep = r.1.0; set = r.1.1; bounded = b; listed = r.2 }))
    | inr e ↦ rw e r.0
  ]

  module _ (platform : Platform) (cbor : Cbor) (dumps : SortedDumps cbor) (proto : Proto) where
    new_key_at-Tracks :
        (d : Draw) (url : Text) (w : Workload Private Public)
        → Tracks w
        → contains url w.urls ≡ true
        → Tracks (new_key_at platform cbor dumps proto d url w).1
    unfolding new_key_at remember
    new_key_at-Tracks d url w t listed =
        then_keeps Listed Tracks
          (signed
            (create_intkey_transaction platform cbor dumps proto (codes "set") d.name (pos 0) []
              d.nonce)
            w)
          (λ txn. signed (create_batch proto (txn ∷ [])) >>= λ batch.
            remember d.name txn.header_signature
            >> track batch.header_signature (record { name = d.name; url = url; value = 0 })
                d.posted)
          (t, listed) (λ s b. b.0)
          (λ txn s b.
            then_keeps Listed Tracks (signed (create_batch proto (txn ∷ [])) s)
              (λ batch.
                remember d.name txn.header_signature
                >> track batch.header_signature (record { name = d.name; url = url; value = 0 })
                    d.posted)
              b (λ s' b'. b'.0)
              (λ batch s' b'.
                track-Tracks batch.header_signature (record { name = d.name; url = url; value = 0 })
                  d.posted (record s' { deps = insert d.name txn.header_signature s'.deps })
                  (omega arith)
                  (
                    insert_dep-IsTracked s'.urls s'.deps s'.pending_batches d.name
                        txn.header_signature b'.0,
                    (
                      txn.header_signature,
                      lookup-insert d.name d.name txn.header_signature s'.deps
                          ∙ rw (text_eq_refl d.name) refl,
                    ),
                    b'.1,
                  )))
      where
        Listed : Workload Private Public → Type 0
        Listed s = Tracks s × (contains url s.urls ≡ true)

    increment-Tracks :
        (d : Draw) (key : IntKeyState) (dep : Text) (w : Workload Private Public)
        → Tracks w
        → IsKnown w.urls w.deps key
        → ltb key.value 1000000 ≡ true
        → Tracks (increment platform cbor dumps proto d key dep w).1
    unfolding increment
    increment-Tracks d key dep w t known small =
        then_keeps Kept Tracks
          (signed
            (create_intkey_transaction platform cbor dumps proto (codes "inc") key.name (pos 1)
              (dep ∷ []) d.nonce)
            w)
          (λ txn. signed (create_batch proto (txn ∷ [])) >>= λ batch.
            track batch.header_signature raised_key d.posted)
          (t, known) (λ s b. b.0)
          (λ txn s b.
            then_keeps Kept Tracks (signed (create_batch proto (txn ∷ [])) s)
              (λ batch. track batch.header_signature raised_key d.posted) b (λ s' b'. b'.0)
              (λ batch s' b'.
                track-Tracks batch.header_signature raised_key d.posted s' (ground arith)
                  (b'.0, (b'.1.dep, b'.1.set), b'.1.listed)))
      where
        raised_key : IntKeyState
        raised_key = record { name = key.name; url = key.url; value = key.value + 1 }

        Kept : Workload Private Public → Type 0
        Kept s = Tracks s × IsKnown s.urls s.deps key

    create_new_key-Tracks :
        (d : Draw) (w : Workload Private Public)
        → Tracks w
        → Tracks (create_new_key platform cbor dumps proto d w).1
    unfolding create_new_key
    create_new_key-Tracks d w t = elim (Option-cases (choose w.urls d.place)) [
      | inl e ↦ rw (e, create_new_key) t
      | inr (url, e) ↦
          rw (e, create_new_key) (new_key_at-Tracks d url w t (contains-choose w.urls d.place e))
    ]

    -- A batch that is tracked: its key has a dependency, so that no KeyError is raised.
    committed_key-Tracks :
        (d : Draw) (key : IntKeyState) (w : Workload Private Public)
        → Tracks w
        → IsKnown w.urls w.deps key
        → Tracks (committed_key platform cbor dumps proto d key w).1
    unfolding committed_key
    committed_key-Tracks d key w t known = elim (Bool-cases (ltb key.value 1000000)) [
      | inl e ↦ rw e (rw (known.set, committed_key) (increment-Tracks d key known.dep w t known e))
      | inr e ↦ rw e t
    ]

    erase-Tracks :
        (w : Workload Private Public) (id : Text)
        → Tracks w
        → Tracks (record w { pending_batches = erase id w.pending_batches })
    erase-Tracks w id t = record {
      keyed = erase-IsKeyed id w.pending_batches t.keyed;
      at = λ j g h.
          erased j g (Bool-cases (text_eq id j))
            (sym (lookup-erase id j w.pending_batches t.keyed) ∙ h);
    }
      where
        erased :
            (j : Text) (g : IntKeyState)
            → (text_eq id j ≡ true) ⊎ (text_eq id j ≡ false)
            → (if text_eq id j then none else lookup j w.pending_batches) ≡ some g
            → IsKnown w.urls w.deps g
        erased j g (inl e) h = let f : none ≡ some g = sym (rw e refl) ∙ h in absurd (cc)
        erased j g (inr e) h = t.at j g (sym (rw e refl) ∙ h)

    on_batch_committed-Tracks :
        (id : Text) (d : Draw) (w : Workload Private Public)
        → Tracks w
        → Tracks (on_batch_committed platform cbor dumps proto id d w).1
    unfolding on_batch_committed
    on_batch_committed-Tracks id d w t = elim (Option-cases (lookup id w.pending_batches)) [
      | inl e ↦ rw (e, on_batch_committed) t
      | inr (key, e) ↦
          rw (e, on_batch_committed)
            (committed_key-Tracks d key (record w { pending_batches = erase id w.pending_batches })
              (erase-Tracks w id t) (t.at id key e))
    ]

-- What the generator calls of the workload.
pub data Event : Type 0 where
  discovered removed : Text → Event
  all_committed not_yet_committed : Draw → Event
  committed : Text → Draw → Event

module _ (platform : Platform) (cbor : Cbor) (dumps : SortedDumps cbor) (proto : Proto)
    {Private Public : Type 0} where
  -- The workload after a call, whether it returns or raises an exception
  abbrev pub after_event : Event → Workload Private Public → Workload Private Public
  after_event (discovered url) w = (on_validator_discovered url w).1
  after_event (removed url) w = (on_validator_removed url w).1
  after_event (all_committed d) w = (create_new_key platform cbor dumps proto d w).1
  after_event (not_yet_committed d) w = (create_new_key platform cbor dumps proto d w).1
  after_event (committed id d) w = (on_batch_committed platform cbor dumps proto id d w).1

  abbrev pub after_events : List Event → Workload Private Public → Workload Private Public
  after_events [] w = w
  after_events (e ∷ es) w = after_events es (after_event e w)

  event-Tracks : (e : Event) (w : Workload Private Public) → Tracks w → Tracks (after_event e w)
  event-Tracks (discovered url) w t = discovered-Tracks url w t
  event-Tracks (removed url) w t = removed-Tracks url w t
  event-Tracks (all_committed d) w t = create_new_key-Tracks platform cbor dumps proto d w t
  event-Tracks (not_yet_committed d) w t = create_new_key-Tracks platform cbor dumps proto d w t
  event-Tracks (committed id d) w t = on_batch_committed-Tracks platform cbor dumps proto id d w t

  -- An invariant of the load: after any sequence of calls of the workload, whatever they draw,
  -- whatever the posts come to, and whether the calls return or raise, each batch that is tracked has
  -- a key whose setting transaction is on record, so that no increment fails for want of a
  -- dependency; the value of the key is at most 1000000; and the validator of the batch is still one
  -- of the workload's. It is enough that this holds before, as it does where nothing is tracked.
  pub after_events-Tracks :
      (es : List Event) (w : Workload Private Public) → Tracks w → Tracks (after_events es w)
  after_events-Tracks [] w t = t
  after_events-Tracks (e ∷ es) w t = after_events-Tracks es (after_event e w) (event-Tracks e w t)
