-- ===== src/Load/Generator.antt =====
-- examples/intkey_python/sawtooth_intkey/client_cli/workload/workload_generator.py: what
-- `WorkloadGenerator` does with a batch in its queue. The rates that are printed are left out.
use sawtooth_sdk_python.Base.{ℕ, ◌+◌, ◌==◌, ◌||◌, Option, none, some, List, [], ◌∷◌, if◌then◌else◌}
use sawtooth_sdk_python.Base.Text.{Text, codes, text_eq}
use sawtooth_sdk_python.Base.Int.{ℤ, pos, ◌-ℤ◌, ◌+ℤ◌}
use sawtooth_sdk_python.Base.Exec.{Exec, ok, pure, ◌>>=◌, ◌>>◌}
use sawtooth_sdk_python.Base.Platform.{Platform}
use sawtooth_sdk_python.Intkey.Payload.{Cbor}
use sawtooth_sdk_python.Batch.Messages.{Proto}
use sawtooth_sdk_python.Batch.Intkey.{SortedDumps}
use sawtooth_sdk_python.Load.Intkey.{
  Workload, PendingBatch, Draw, contains, remove_first, on_validator_discovered,
  on_validator_removed, create_new_key, on_batch_committed,
}

pub record Generator (Private Public : Type 0) : Type 0 where
  pub workload : Workload Private Public
  pub validators : List Text
  pub number_of_outstanding_requests : ℤ
  pub committed_batches_sample : ℕ

-- What the request for a status comes to: an answer with a code and the first status in it, an
-- answer that is no JSON, an HTTP error with the code in its body, a connection that is closed, or
-- none at all.
pub data Reply : Type 0 where
  answered : ℕ → Text → Reply
  no_json : Reply
  http_error : ℕ → Reply
  remote_disconnected connection_error : Reply

module _ {Private Public : Type 0} where
  abbrev pub on_workload :
      {A : Type 0} → Exec (Workload Private Public) A → Exec (Generator Private Public) A
  on_workload m g = let (r, w) = m g.workload in (r, record g { workload = w })

  -- `_remove_unresponsive_validator`
  unfoldable pub remove_unresponsive_validator : Text → Exec (Generator Private Public) (Unit {0})
  remove_unresponsive_validator url g = on_workload (on_validator_removed url) (record g {
    validators = if contains url g.validators then remove_first url g.validators else g.validators;
  })

  -- `_status_request`
  unfoldable pub status_request : Reply → Text → Exec (Generator Private Public) Text
  unfolding remove_unresponsive_validator
  status_request (answered code status) url =
      pure (if code == 200 || code == 201 || code == 202 then status else codes "UNKNOWN")
  status_request no_json url = pure (codes "UNKNOWN")
  status_request (http_error code) url =
      if code == 18
      then remove_unresponsive_validator url >> pure (codes "UNKNOWN")
      else pure (codes "UNKNOWN")
  status_request remote_disconnected url =
      remove_unresponsive_validator url >> pure (codes "UNKNOWN")
  status_request connection_error url = remove_unresponsive_validator url >> pure (codes "UNKNOWN")

  -- A pull from the queue, in a round of `_simulator_loop`: the batch is asked about in a thread.
  unfoldable pub pull : Exec (Generator Private Public) (Option PendingBatch)
  pull g =
      let counted = record g {
        number_of_outstanding_requests = g.number_of_outstanding_requests +ℤ pos 1;
      } in
      elim g.workload.queue [
        | [] ↦ (ok none, counted)
        | batch ∷ rest ↦
            (ok (some batch), record counted { workload = record g.workload { queue = rest } })
      ]

  -- `_discover_validators`
  unfoldable pub discover_validators : List Text → Exec (Generator Private Public) (Unit {0})
  discover_validators [] = pure tt
  discover_validators (validator ∷ validators) = do
    on_workload (on_validator_discovered validator)
    discover_validators validators

  abbrev count_commit : Exec (Generator Private Public) (Unit {0})
  count_commit g = (ok tt, record g { committed_batches_sample = g.committed_batches_sample + 1 })

  abbrev put_back : PendingBatch → Exec (Generator Private Public) (Unit {0})
  put_back batch g =
      (ok tt, record g { workload = record g.workload { queue = batch ∷ g.workload.queue } })

  abbrev finish : Exec (Generator Private Public) (Unit {0})
  finish g = (
    ok tt,
    record g { number_of_outstanding_requests = g.number_of_outstanding_requests -ℤ pos 1 },
  )

  module _ (platform : Platform) (cbor : Cbor) (dumps : SortedDumps cbor) (proto : Proto) where
    -- The callback for a status
    unfoldable pub on_status :
        Text → PendingBatch → Draw → Exec (Generator Private Public) (Unit {0})
    on_status status batch d =
        if text_eq status (codes "COMMITTED")
        then count_commit >> on_workload (on_batch_committed platform cbor dumps proto batch.id d)
        else if text_eq status (codes "PENDING")
        then on_workload (create_new_key platform cbor dumps proto d) >> put_back batch
        else on_workload (create_new_key platform cbor dumps proto d)

    -- `_check_on_batch`
    unfoldable pub check_on_batch :
        Option PendingBatch → Reply → Draw → Exec (Generator Private Public) (Unit {0})
    unfolding status_request on_status
    check_on_batch none reply d = do
      on_workload (create_new_key platform cbor dumps proto d)
      finish
    check_on_batch (some batch) reply d = do
      status ← status_request reply batch.url
      on_status status batch d
      finish
