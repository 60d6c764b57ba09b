-- ===== src/Load/Status.antt =====
-- `_check_on_batch` of examples/intkey_python/sawtooth_intkey/client_cli/workload/workload_generator.py
-- after a validator has been removed.
use sawtooth_sdk_python.Base.{◌+◌, ◌≡◌, refl, true, none, some, [], ◌∷◌, arith}
use sawtooth_sdk_python.Base.Text.{Text, codes, text_eq, text_eq_iff}
use sawtooth_sdk_python.Base.Dict.{Dict, lookup, IsKeyed}
use sawtooth_sdk_python.Base.Exec.{raised, attribute_error}
use sawtooth_sdk_python.Base.Platform.{Platform}
use sawtooth_sdk_python.Intkey.Payload.{Cbor}
use sawtooth_sdk_python.Batch.Messages.{Proto}
use sawtooth_sdk_python.Batch.Intkey.{SortedDumps}
use sawtooth_sdk_python.Load.Intkey.{
  IntKeyState, PendingBatch, Draw, contains, others, on_validator_removed, on_batch_committed,
}
use sawtooth_sdk_python.Load.Generator.{
  Generator, answered, remove_unresponsive_validator, status_request, on_status, check_on_batch,
}
use sawtooth_sdk_python.Load.Tracked.{lookup-others_none}

lookup-others_dropped :
    (url id : Text) (d : Dict IntKeyState) {g : IntKeyState}
    → IsKeyed d
    → lookup id d ≡ some g
    → text_eq g.url url ≡ true
    → lookup id (others url d) ≡ none
unfolding others lookup
lookup-others_dropped url id [] u h e = absurd (cc)
lookup-others_dropped url id ((t, k) ∷ d) {g} u h e = ground (
  arith,
  lookup-others_dropped url id d {g = g} u.1,
  lookup-others_none url id d,
  text_eq_iff t id,
  lookup-others_none url t d u.0,
)

module _ (platform : Platform) (cbor : Cbor) (dumps : SortedDumps cbor) (proto : Proto)
    {Private Public : Type 0} where
  -- A batch that outlives its validator ends its check. Let the workload track a batch that was sent to
  -- the validator `url`, and let the generator remove this validator as unresponsive, which leaves
  -- the batch in the generator's queue. If the batch is asked about after that, and the answer is
  -- COMMITTED, then AttributeError is raised; the commit is counted, but the request stays counted
  -- as outstanding.
  pub removed-check_on_batch :
      (g : Generator Private Public) (batch : PendingBatch) (state : IntKeyState) (d : Draw)
      → IsKeyed g.workload.pending_batches
      → lookup batch.id g.workload.pending_batches ≡ some state
      → text_eq state.url batch.url ≡ true
      → contains batch.url g.workload.urls ≡ true
      → (let g' = (remove_unresponsive_validator batch.url g).1 in
          check_on_batch platform cbor dumps proto
            (some batch)
            (answered 200 (codes "COMMITTED"))
            d
            g'
          ≡ (
            raised attribute_error,
            record g' { committed_batches_sample = g'.committed_batches_sample + 1 },
          ))
        × ((remove_unresponsive_validator batch.url g).1.number_of_outstanding_requests
            ≡ g.number_of_outstanding_requests)
        × ((remove_unresponsive_validator batch.url g).1.workload.queue ≡ g.workload.queue)
  unfolding remove_unresponsive_validator on_validator_removed check_on_batch status_request
      on_status on_batch_committed text_eq
  removed-check_on_batch g batch state d keyed tracked same listed = rw listed (
      rw
        (
          lookup-others_dropped batch.url batch.id g.workload.pending_batches keyed tracked same,
          on_batch_committed,
        )
        (refl, refl, refl))
