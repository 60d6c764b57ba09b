-- ===== src/Load/Noop.antt =====
-- examples/noop_python/sawtooth_noop/client_cli/workload.py: `NoopWorkload`.
use sawtooth_sdk_python.Base.{ℕ, ◌+◌, none, some, List, [], ◌∷◌, ◌++◌, if◌then◌else◌}
use sawtooth_sdk_python.Base.Text.{Text}
use sawtooth_sdk_python.Base.Exec.{Exec, ok, ◌>>=◌}
use sawtooth_sdk_python.Base.Platform.{Platform}
use sawtooth_sdk_python.Signing.Signer.{Signer}
use sawtooth_sdk_python.Batch.Messages.{Proto, create_batch}
use sawtooth_sdk_python.Batch.Noop.{create_noop_transaction}
use sawtooth_sdk_python.Load.Intkey.{PendingBatch, choose, contains, remove_first}

-- The workload, and of its delegate the queue and the number submitted
pub record NoopWorkload (Private Public : Type 0) : Type 0 where
  pub urls : List Text
  pub signer : Signer Private Public
  pub queue : List PendingBatch
  pub submitted_batches_sample : ℕ

module _ {Private Public : Type 0} where
  abbrev signed :
      {A : Type 0} → Exec (Signer Private Public) A → Exec (NoopWorkload Private Public) A
  signed m w = let (r, s) = m w.signer in (r, record w { signer = s })

  -- `on_validator_discovered`
  unfoldable pub on_validator_discovered : Text → Exec (NoopWorkload Private Public) (Unit {0})
  on_validator_discovered url w = (ok tt, record w { urls = w.urls ++ url ∷ [] })

  -- `on_validator_removed`
  unfoldable pub on_validator_removed : Text → Exec (NoopWorkload Private Public) (Unit {0})
  on_validator_removed url w =
      if contains url w.urls
      then (ok tt, record w { urls = remove_first url w.urls })
      else (ok tt, w)

  -- `on_new_batch` of the delegate
  unfoldable pub on_new_batch : Text → Text → Exec (NoopWorkload Private Public) (Unit {0})
  on_new_batch id url w = (
    ok tt,
    record w {
      queue = w.queue ++ record { id = id; url = url } ∷ [];
      submitted_batches_sample = w.submitted_batches_sample + 1;
    },
  )

  module _ (platform : Platform) (proto : Proto) where
    -- `_send_batch` to a url. What the post comes to is not looked at: the batch is reported.
    unfoldable pub send_batch_to :
        (bits : ℕ) (nonce url : Text) → Exec (NoopWorkload Private Public) (Unit {0})
    unfolding on_new_batch
    send_batch_to bits nonce url = do
      txn ← signed (create_noop_transaction platform proto bits nonce)
      batch ← signed (create_batch proto (txn ∷ []))
      on_new_batch batch.header_signature url

    -- `_send_batch`, which is all that the three callbacks for batches do: `place`, `bits` and
    -- `nonce` are what it draws.
    unfoldable pub send_batch :
        (place bits : ℕ) (nonce : Text) → Exec (NoopWorkload Private Public) (Unit {0})
    unfolding send_batch_to
    send_batch place bits nonce w = elim (choose w.urls place) [
      | none ↦ (ok tt, w)
      | some url ↦ send_batch_to bits nonce url w
    ]
