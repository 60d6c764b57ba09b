-- ===== src/Load/Intkey.antt =====
-- examples/intkey_python/sawtooth_intkey/client_cli/intkey_workload.py: `IntKeyWorkload`, with what it
-- calls of its delegate, `on_new_batch` of workload/workload_generator.py.
use sawtooth_sdk_python.Base.{
  ℕ, ◌+◌, Bool, true, false, Option, none, some, List, [], ◌∷◌, ◌++◌, get_elem?, if◌then◌else◌, ltb,
  ◌==◌,
}
use sawtooth_sdk_python.Base.Text.{Text, codes, text_eq}
use sawtooth_sdk_python.Base.Dict.{Dict, lookup, insert, erase}
use sawtooth_sdk_python.Base.Int.{pos}
use sawtooth_sdk_python.Base.Exec.{
  Exec, ok, raised, ◌>>=◌, ◌>>◌, key_error, type_error, attribute_error,
}
use sawtooth_sdk_python.Base.Platform.{Platform}
use sawtooth_sdk_python.Intkey.Payload.{Cbor}
use sawtooth_sdk_python.Signing.Signer.{Signer}
use sawtooth_sdk_python.Batch.Messages.{Proto, create_batch}
use sawtooth_sdk_python.Batch.Intkey.{SortedDumps, create_intkey_transaction}

pub record IntKeyState : Type 0 where
  pub name : Text
  pub url : Text
  pub value : ℕ

pub record PendingBatch : Type 0 where
  pub id : Text
  pub url : Text

-- The workload, and of its delegate the queue of batches to ask about and the number submitted.
pub record Workload (Private Public : Type 0) : Type 0 where
  pub urls : List Text
  pub pending_batches : Dict IntKeyState
  pub deps : Dict Text
  pub signer : Signer Private Public
  pub queue : List PendingBatch
  pub submitted_batches_sample : ℕ

-- What a callback draws and is given: the place of the url, the name made of the time, the nonce, and
-- the status code of the post, where `none` stands for the None that `post_batches` returns where the
-- connection fails.
pub record Draw : Type 0 where
  pub place : ℕ
  pub name : Text
  pub nonce : Text
  pub posted : Option ℕ

-- `random.choice(urls) if urls else None`: the element at the place that is drawn. A place beyond the
-- list, which `random` does not draw, is taken for the first.
unfoldable pub choose : List Text → ℕ → Option Text
choose [] place = none
choose (u ∷ us) place = elim (get_elem? (u ∷ us) place) [ none ↦ some u | some v ↦ some v ]

-- `url in urls`, and `urls.remove(url)` of one that is there
unfoldable pub contains : Text → List Text → Bool
contains url [] = false
contains url (u ∷ us) = let rest = contains url us in if text_eq u url then true else rest

unfoldable pub remove_first : Text → List Text → List Text
remove_first url [] = []
remove_first url (u ∷ us) = let rest = remove_first url us in if text_eq u url then us else u ∷ rest

-- `{t: g for t, g in pending.items() if g.url != url}`
unfoldable pub others : Text → Dict IntKeyState → Dict IntKeyState
others url [] = []
others url ((t, g) ∷ pending) =
    let rest = others url pending in if text_eq g.url url then rest else (t, g) ∷ rest

module _ {Private Public : Type 0} where
  -- A step of the signer.
  abbrev pub signed :
      {A : Type 0} → Exec (Signer Private Public) A → Exec (Workload Private Public) A
  signed m w = let (r, s) = m w.signer in (r, record w { signer = s })

  -- `on_validator_discovered`
  unfoldable pub on_validator_discovered : Text → Exec (Workload Private Public) (Unit {0})
  on_validator_discovered url w = (ok tt, record w { urls = w.urls ++ url ∷ [] })

  -- `on_validator_removed`
  unfoldable pub on_validator_removed : Text → Exec (Workload Private Public) (Unit {0})
  on_validator_removed url w =
      if contains url w.urls
      then (
        ok tt,
        record w { urls = remove_first url w.urls; pending_batches = others url w.pending_batches },
      )
      else (ok tt, w)

  -- `WorkloadGenerator.on_new_batch`, of an id that is not None
  unfoldable pub on_new_batch : Text → Text → Exec (Workload Private Public) (Unit {0})
  on_new_batch id url w = (
    ok tt,
    record w {
      queue = w.queue ++ record { id = id; url = url } ∷ [];
      submitted_batches_sample = w.submitted_batches_sample + 1;
    },
  )

  -- After the post: `(code, _) = None` is a TypeError, and a batch is tracked if the code is 202.
  unfoldable pub track : Text → IntKeyState → Option ℕ → Exec (Workload Private Public) (Unit {0})
  unfolding on_new_batch
  track id state none w = (raised type_error, w)
  track id state (some code) w =
      if code == 202
      then on_new_batch id state.url
          (record w { pending_batches = insert id state w.pending_batches })
      else (ok tt, w)

  -- `self._deps[name] = signature`
  unfoldable pub remember : Text → Text → Exec (Workload Private Public) (Unit {0})
  remember name signature w = (ok tt, record w { deps = insert name signature w.deps })

  module _ (platform : Platform) (cbor : Cbor) (dumps : SortedDumps cbor) (proto : Proto) where
    -- `_create_new_key` once a url has been chosen
    unfoldable pub new_key_at : Draw → Text → Exec (Workload Private Public) (Unit {0})
    unfolding track remember
    new_key_at d url = do
      txn ← signed (
          create_intkey_transaction platform cbor dumps proto (codes "set") d.name (pos 0) []
            d.nonce)
      batch ← signed (create_batch proto (txn ∷ []))
      remember d.name txn.header_signature
      track batch.header_signature (record { name = d.name; url = url; value = 0 }) d.posted

    -- `_create_new_key`, which is all that `on_all_batches_committed` and
    -- `on_batch_not_yet_committed` do
    unfoldable pub create_new_key : Draw → Exec (Workload Private Public) (Unit {0})
    unfolding new_key_at choose
    create_new_key d w = elim (choose w.urls d.place) [
      | none ↦ (ok tt, w)
      | some url ↦ new_key_at d url w
    ]

    -- The increment of a key, dependent on the transaction that set it
    unfoldable pub increment : Draw → IntKeyState → Text → Exec (Workload Private Public) (Unit {0})
    unfolding track
    increment d key dep = do
      txn ← signed (
          create_intkey_transaction platform cbor dumps proto (codes "inc") key.name (pos 1)
            (dep ∷ []) d.nonce)
      batch ← signed (create_batch proto (txn ∷ []))
      track batch.header_signature
          (record { name = key.name; url = key.url; value = key.value + 1 }) d.posted

    -- `on_batch_committed` with a key
    unfoldable pub committed_key : Draw → IntKeyState → Exec (Workload Private Public) (Unit {0})
    unfolding increment
    committed_key d key w =
        if ltb key.value 1000000
        then elim (lookup key.name w.deps) [
          | none ↦ (raised key_error, w)
          | some dep ↦ increment d key dep w
        ]
        else (ok tt, w)

    -- `on_batch_committed`: without a key, `key.name` for the log is read of None.
    unfoldable pub on_batch_committed : Text → Draw → Exec (Workload Private Public) (Unit {0})
    unfolding committed_key
    on_batch_committed batch_id d w = elim (lookup batch_id w.pending_batches) [
      | none ↦ (raised attribute_error, w)
      | some key ↦
          committed_key d key (record w { pending_batches = erase batch_id w.pending_batches })
    ]
