-- ===== src/Batch/Generated.antt =====
-- The batches of `do_generate` and `do_populate` of create_batch.py: what is in them.
use sawtooth_sdk_python.Base.{ℕ, ◌<◌, ◌≡◌, Option, some, ◌⊎◌, List, [], ◌∷◌, length, get_elem?}
use sawtooth_sdk_python.Base.Text.{Text}
use sawtooth_sdk_python.Base.Dict.{Dict, lookup}
use sawtooth_sdk_python.Base.Int.{pos}
use sawtooth_sdk_python.Base.Exec.{Result, ok}
use sawtooth_sdk_python.Base.Platform.{Platform}
use sawtooth_sdk_python.Intkey.Payload.{Cbor}
use sawtooth_sdk_python.Signing.Keys.{Context}
use sawtooth_sdk_python.Signing.Signer.{Signer}
use sawtooth_sdk_python.Batch.Messages.{Proto, Transaction, Batch}
use sawtooth_sdk_python.Batch.Signed.{IsSignedBatch, filled}
use sawtooth_sdk_python.Batch.Intkey.{SortedDumps, names, Choice, choice_verb}
use sawtooth_sdk_python.Batch.Accepted.{IsFor}

-- Every key has been set.
abbrev pub AllSet : Dict (Option Text) → Type 0
AllSet keys =
    (i : ℕ)
    → i < length (names keys)
    → (name : Text) × (s : Text) × (get_elem? (names keys) i ≡ some name)
      × (lookup name keys ≡ some (some s))

module _ {Private Public : Type 0} where
  -- Call after call: the signer may not have been asked for its key at all.
  abbrev pub IsAfter : Signer Private Public → Signer Private Public → Type 0
  IsAfter signer s = (s ≡ signer) ⊎ (s ≡ filled signer)

  pub record Ends {A : Type 0} (signer : Signer Private Public) (P : A → Type 0)
      (r : Result A × Signer Private Public) : Type 0 where
    pub result : A
    pub left : Signer Private Public
    pub returns : r ≡ (ok result, left)
    pub after : IsAfter signer left
    pub holds : P result

module _ (platform : Platform) (cbor : Cbor) (dumps : SortedDumps cbor) (proto : Proto)
    {Private Public : Type 0} where
  -- The choices fall on keys that have been set, and each transaction is the one chosen, dependent
  -- on the transaction whose signature the key holds.
  abbrev pub Generated :
      Context Private Public → Public → Dict (Option Text) → List Choice → List Transaction → Type 0
  Generated context p keys [] [] = Unit
  Generated context p keys (c ∷ cs) (t ∷ ts) =
      ((name : Text) × (s : Text) × (get_elem? (names keys) c.place ≡ some name)
        × (lookup name keys ≡ some (some s))
        × IsFor platform cbor dumps proto context p (choice_verb c) name (pos c.value) (s ∷ [])
            c.nonce t)
      × Generated context p keys cs ts
  Generated context p keys _ _ = ⊥

  -- A batch for each list of choices, signed, with the transactions chosen.
  abbrev pub GeneratedBatches :
      Context Private Public
      → Public
      → Dict (Option Text)
      → List (List Choice)
      → List Batch
      → Type 0
  GeneratedBatches context p keys [] [] = Unit
  GeneratedBatches context p keys (cs ∷ css) (b ∷ bs) =
      IsSignedBatch platform proto context p b.transactions b
      × Generated context p keys cs b.transactions
      × GeneratedBatches context p keys css bs
  GeneratedBatches context p keys _ _ = ⊥
