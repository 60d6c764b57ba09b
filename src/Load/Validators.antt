-- ===== src/Load/Validators.antt =====
-- A validator that is discovered or removed keeps what holds of the batches that are tracked:
-- examples/intkey_python/sawtooth_intkey/client_cli/intkey_workload.py.
use sawtooth_sdk_python.Base.{inl, inr, Bool-cases}
use sawtooth_sdk_python.Base.Text.{Text}
use sawtooth_sdk_python.Load.Intkey.{
  Workload, contains, on_validator_discovered, on_validator_removed,
}
use sawtooth_sdk_python.Load.Tracked.{
  Tracks, contains-append, contains-remove_first, others-IsKeyed, lookup-others,
}

module _ {Private Public : Type 0} where
  pub discovered-Tracks :
      (url : Text) (w : Workload Private Public)
      → Tracks w
      → Tracks (on_validator_discovered url w).1
  unfolding on_validator_discovered
  discovered-Tracks url w t = record {
    keyed = t.keyed;
    at = λ id g h.
        let known = t.at id g h in
        record {
          dep = known.dep;
          set = known.set;
          bounded = known.bounded;
          listed = contains-append g.url url w.urls known.listed;
        };
  }

  pub removed-Tracks :
      (url : Text) (w : Workload Private Public) → Tracks w → Tracks (on_validator_removed url w).1
  unfolding on_validator_removed
  removed-Tracks url w t = elim (Bool-cases (contains url w.urls)) [
    | inl e ↦ rw e (record {
      keyed = others-IsKeyed url w.pending_batches t.keyed;
      at = λ id g h.
          let (held, other) = lookup-others url id w.pending_batches t.keyed h in
          let known = t.at id g held in
          record {
            dep = known.dep;
            set = known.set;
            bounded = known.bounded;
            listed = contains-remove_first url g.url w.urls other known.listed;
          };
    })
    | inr e ↦ rw e t
  ]
