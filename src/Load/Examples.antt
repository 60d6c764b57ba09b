-- ===== src/Load/Examples.antt =====
-- The theorems on the load of intkey with one validator and one key.
use sawtooth_sdk_python.Base.{◌+◌, ◌≡◌, refl, Bool, true, none, some, [], ◌∷◌}
use sawtooth_sdk_python.Base.Ascii.{ascii}
use sawtooth_sdk_python.Base.Text.{codes, text_eq}
use sawtooth_sdk_python.Base.Dict.{lookup}
use sawtooth_sdk_python.Base.Int.{pos}
use sawtooth_sdk_python.Base.Exec.{raised, attribute_error}
use sawtooth_sdk_python.Intkey.Plain.{plain, loads-dumps}
use sawtooth_sdk_python.Signing.Signer.{init}
use sawtooth_sdk_python.Signing.Bits.{bits_context}
use sawtooth_sdk_python.Batch.Intkey.{SortedDumps}
use sawtooth_sdk_python.Batch.Plain.{plain_proto}
use sawtooth_sdk_python.Load.Intkey.{IntKeyState, Workload, PendingBatch, Draw, contains}
use sawtooth_sdk_python.Load.Generator.{
  Generator, answered, remove_unresponsive_validator, check_on_batch,
}
use sawtooth_sdk_python.Load.Tracked.{Tracks}
use sawtooth_sdk_python.Load.Callbacks.{
  discovered, removed, all_committed, after_events, after_events-Tracks,
}
use sawtooth_sdk_python.Load.Status.{removed-check_on_batch}

unfoldable in_order : SortedDumps plain
in_order = record {
  dumps_sorted = plain.dumps;
  sorted_entries = λ d. d;
  loads-dumps_sorted = loads-dumps;
  lookup-sorted_entries = λ k d. refl;
}

abbrev drawn : Draw
drawn = record { place = 0; name = codes "k"; nonce = codes "0x7"; posted = some 202 }

abbrev new_workload : Workload Bool Bool
new_workload = record {
  urls = [];
  pending_batches = [];
  deps = [];
  signer = init bits_context true;
  queue = [];
  submitted_batches_sample = 0;
}

new_workload-Tracks : Tracks new_workload
unfolding lookup
new_workload-Tracks = record { keyed = tt; at = λ id g h. absurd (cc) }

after_events-Tracks_example : Tracks (
    after_events ascii plain in_order plain_proto
      (discovered (codes "v") ∷ all_committed drawn ∷ removed (codes "v") ∷ [])
      new_workload)
after_events-Tracks_example =
    after_events-Tracks ascii plain in_order plain_proto
      (discovered (codes "v") ∷ all_committed drawn ∷ removed (codes "v") ∷ []) new_workload
      new_workload-Tracks

abbrev a_batch : PendingBatch
a_batch = record { id = codes "01"; url = codes "v" }

abbrev a_state : IntKeyState
a_state = record { name = codes "k"; url = codes "v"; value = 0 }

abbrev tracking : Generator Bool Bool
tracking = record {
  workload = record {
    urls = codes "v" ∷ [];
    pending_batches = (codes "01", a_state) ∷ [];
    deps = (codes "k", codes "02") ∷ [];
    signer = init bits_context true;
    queue = [];
    submitted_batches_sample = 1;
  };
  validators = codes "v" ∷ [];
  number_of_outstanding_requests = pos 1;
  committed_batches_sample = 0;
}

a_batch_tracked : lookup (codes "01") tracking.workload.pending_batches ≡ some a_state
unfolding lookup text_eq
a_batch_tracked = refl

no_key : lookup {V = IntKeyState} (codes "01") [] ≡ none
unfolding lookup
no_key = refl

v_same : text_eq (codes "v") (codes "v") ≡ true
unfolding text_eq
v_same = refl

v_listed : contains (codes "v") (codes "v" ∷ []) ≡ true
unfolding contains text_eq
v_listed = refl

removed-check_on_batch_example :
    (let g' = (remove_unresponsive_validator (codes "v") tracking).1 in
      check_on_batch ascii plain in_order plain_proto
        (some a_batch)
        (answered 200 (codes "COMMITTED"))
        drawn
        g'
      ≡ (
        raised attribute_error,
        record g' { committed_batches_sample = g'.committed_batches_sample + 1 },
      ))
    × ((remove_unresponsive_validator (codes "v") tracking).1.number_of_outstanding_requests
        ≡ tracking.number_of_outstanding_requests)
    × ((remove_unresponsive_validator (codes "v") tracking).1.workload.queue
        ≡ tracking.workload.queue)
removed-check_on_batch_example =
    removed-check_on_batch ascii plain in_order plain_proto tracking a_batch a_state drawn
      (no_key, tt) a_batch_tracked v_same v_listed
