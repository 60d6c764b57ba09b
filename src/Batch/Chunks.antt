-- ===== src/Batch/Chunks.antt =====
-- `_split_batch_list` and `_get_auth_info` of
-- examples/intkey_python/sawtooth_intkey/client_cli/load.py: the batches of a file in lists of 100.
use sawtooth_sdk_python.Base.{
  ◌+◌, ◌≤◌, ◌<◌, ◌≡◌, refl, ◌∙◌, Option, none, some, List, [], ◌∷◌, ◌++◌, length, concat,
  length-append, arith, ◌==◌, if◌then◌else◌, Bool-cases, inl, inr,
}
use mathlib.Core.List.{append_assoc}
use sawtooth_sdk_python.Base.Text.{Text, Bytes, codes}
use sawtooth_sdk_python.Base.Platform.{Platform}

module _ {A : Type 0} where
  -- The loop, from the batches that are left and the list that has been started; a list is what the
  -- generator yields.
  unfoldable pub split_from : List A → List A → List (List A)
  split_from [] [] = []
  split_from [] (b ∷ new_list) = (b ∷ new_list) ∷ []
  split_from (batch ∷ batches) new_list =
      let grown = new_list ++ batch ∷ [] in
      let full = grown ∷ split_from batches [] in
      let rest = split_from batches grown in if length grown == 100 then full else rest

  -- `_split_batch_list`
  unfoldable pub split_batch_list : List A → List (List A)
  unfolding split_from
  split_batch_list batches = split_from batches []

  -- All lists but the last have 100 items, and the last has at least one and at most 100.
  abbrev pub AreChunks : List (List A) → Type 0
  AreChunks [] = Unit
  AreChunks (xs ∷ []) = (0 < length xs) × (length xs ≤ 100)
  AreChunks (xs ∷ ys ∷ xss) = (length xs ≡ 100) × AreChunks (ys ∷ xss)

  concat-split_from :
      (batches new_list : List A) → concat (split_from batches new_list) ≡ new_list ++ batches
  unfolding split_from
  concat-split_from [] [] = refl
  concat-split_from [] (b ∷ new_list) = refl
  concat-split_from (batch ∷ batches) new_list =
      elim (Bool-cases (length (new_list ++ batch ∷ []) == 100)) [
        | inl e ↦
            rw e (rw (concat-split_from batches []) (append_assoc new_list (batch ∷ []) batches))
        | inr e ↦ rw e (
            concat-split_from batches (new_list ++ batch ∷ [])
            ∙ append_assoc new_list (batch ∷ []) batches)
      ]

  AreChunks-cons :
      (xs : List A) (xss : List (List A)) → length xs ≡ 100 → AreChunks xss → AreChunks (xs ∷ xss)
  AreChunks-cons xs [] e h = omega arith
  AreChunks-cons xs (ys ∷ xss) e h = (e, h)

  split_from-AreChunks :
      (batches new_list : List A) → length new_list < 100 → AreChunks (split_from batches new_list)
  unfolding split_from
  split_from-AreChunks [] [] h = tt
  split_from-AreChunks [] (b ∷ new_list) h = omega arith
  split_from-AreChunks (batch ∷ batches) new_list h =
      let grown : length (new_list ++ batch ∷ []) ≡ length new_list + 1 =
        length-append new_list (batch ∷ []) in
      elim (Bool-cases (length (new_list ++ batch ∷ []) == 100)) [
        | inl e ↦ rw e (
            AreChunks-cons (new_list ++ batch ∷ []) (split_from batches []) (ground arith)
              (split_from-AreChunks batches [] (omega arith)))
        | inr e ↦ rw e (split_from-AreChunks batches (new_list ++ batch ∷ []) (ground arith))
      ]

  -- The lists of batches that are posted hold all the batches, in order and once: one after the
  -- other they are the list that was read. Every list but the last has 100 batches; the last has at
  -- least one and at most 100, so that none is empty.
  pub split_batch_list-AreChunks :
      (batches : List A)
      → (concat (split_batch_list batches) ≡ batches) × AreChunks (split_batch_list batches)
  unfolding split_batch_list
  split_batch_list-AreChunks batches =
      (concat-split_from batches [], split_from-AreChunks batches [] (omega arith))

-- `_get_auth_info`: `prompted` is what `getpass` returns, `b64encode` the function of that name,
-- decoded.
unfoldable pub get_auth_info :
    Platform
    → (Bytes → Text)
    → (prompted : Text) (auth_user auth_password : Option Text) → Option Text
get_auth_info platform b64encode prompted none auth_password = none
get_auth_info platform b64encode prompted (some auth_user) auth_password =
    let password : Text = elim auth_password [ none ↦ prompted | some given ↦ given ] in
    some (b64encode (platform.encode (auth_user ++ codes ":" ++ password)))
