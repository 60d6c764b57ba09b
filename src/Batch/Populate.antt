-- ===== src/Batch/Populate.antt =====
-- `do_populate` of create_batch.py and of populate.py, in
-- examples/intkey_python/sawtooth_intkey/client_cli: the two make the same batch.
use sawtooth_sdk_python.Base.{
  ℕ, zero, suc, ◌+◌, ◌≡◌, refl, ap, ◌∙◌, Option, none, some, inl, inr, List, [], ◌∷◌, ◌++◌, length,
  get_elem?, Option-cases, Bool-cases,
}
use sawtooth_sdk_python.Base.Text.{Text, codes, text_eq, text_eq_iff}
use sawtooth_sdk_python.Base.Dict.{Dict, insert}
use sawtooth_sdk_python.Base.Int.{pos, ℤ}
use sawtooth_sdk_python.Base.Exec.{Exec, Result, ok, raised, pure, ◌>>=◌, continue_with}
use sawtooth_sdk_python.Base.Platform.{Platform}
use sawtooth_sdk_python.Intkey.Payload.{Cbor}
use sawtooth_sdk_python.Signing.Signer.{Signer}
use sawtooth_sdk_python.Batch.Messages.{Proto, Transaction, Batch, create_batch, sign_transaction}
use sawtooth_sdk_python.Batch.Words
use sawtooth_sdk_python.Batch.Words.{populate_words_loop, populate_words}
use sawtooth_sdk_python.Batch.Intkey.{
  SortedDumps, names, create_intkey_transaction, populate_loop, do_populate, intkey_header, sha512,
  to_cbor, to_hash, new_payload,
}

-- Writing to a key that is there keeps the keys and their order.
names-insert {ℓ} :
    {V : Type ℓ} (d : Dict V) (i : ℕ) (k : Text) (v : V)
    → get_elem? (names d) i ≡ some k
    → names (insert k v d) ≡ names d
unfolding names insert
names-insert [] i k v h = absurd (cc)
names-insert ((j, w) ∷ d) zero k v h = let same : j ≡ k = cc in rw ((text_eq_iff j k).1 same) refl
names-insert ((j, w) ∷ d) (suc i) k v h = elim (Bool-cases (text_eq j k)) [
  | inl e ↦ rw e refl
  | inr e ↦ rw e (ap (λ ks. j ∷ ks) (names-insert d i k v h))
]

length-names {ℓ} : {V : Type ℓ} (d : Dict V) → length (names d) ≡ length d
unfolding names
length-names [] = refl
length-names ((k, v) ∷ d) = ap suc (length-names d)

-- Two chains that begin alike and go on alike end alike.
module _ {S A B C : Type 0} where
  bind_alike :
      (r : Result A × S) (f : A → Exec S B) (g : B → C) (h : A → Exec S C)
      → ((a : A) (s : S) → (f a >>= λ b. pure (g b)) s ≡ h a s)
      → (let (b, s) = continue_with r.0 r.1 f in continue_with b s (λ x. pure (g x)))
        ≡ continue_with r.0 r.1 h
  bind_alike (ok a, s) f g h e = e a s
  bind_alike (raised x, s) f g h e = refl

abbrev Keys : Type 0
Keys = Dict (Option Text)

abbrev paired : Keys → Batch → List Batch × Keys
paired k b = (b ∷ [], k)

module _ (platform : Platform) (cbor : Cbor) (dumps : SortedDumps cbor) {Private Public : Type 0}
    (proto : Proto) where
  abbrev batches_with_keys :
      List Transaction × Keys → Exec (Signer Private Public) (List Batch × Keys)
  batches_with_keys made = create_batch proto made.0 >>= λ b. pure (paired made.1 b)

  abbrev batches_alone : List Transaction → Exec (Signer Private Public) (List Batch)
  batches_alone txns = Words.create_batch platform cbor dumps proto txns >>= λ b. pure (b ∷ [])

  batch_alike :
      (r : Result (List Transaction × Keys) × Signer Private Public)
      → (let (a, s) = continue_with r.0 r.1 batches_with_keys in
          continue_with a s (λ (m : List Batch × Keys). pure m.0))
        ≡ (let (a, s) = continue_with r.0 r.1 (λ (m : List Transaction × Keys). pure m.0) in
            continue_with a s batches_alone)
  unfolding create_batch Words.create_batch
  batch_alike (ok made, s) =
      bind_alike (create_batch proto made.0 s) (λ b. pure (paired made.1 b)) (λ m. m.0)
        (λ b. pure (b ∷ [])) (λ b s'. refl)
  batch_alike (raised e, s) = refl

module _ (platform : Platform) (cbor : Cbor) (dumps : SortedDumps cbor) (proto : Proto)
    {Private Public : Type 0} (value : ℕ → ℕ) (nonce : ℕ → Text) where
  transaction-alike :
      (verb name : Text) (v : ℤ) (drawn : Text) (signer : Signer Private Public)
      → create_intkey_transaction platform cbor dumps proto verb name v [] drawn signer
        ≡ Words.create_intkey_transaction platform cbor dumps proto verb name v drawn signer
  unfolding create_intkey_transaction sign_transaction Words.create_intkey_transaction intkey_header
      Words.intkey_header sha512 Words.sha512 to_cbor Words.to_cbor to_hash Words.to_hash
      new_payload Words.new_payload
  transaction-alike verb name v drawn signer = refl

  populate_loop-words :
      (words : List Text) (left i : ℕ) (txns : List Transaction) (keys : Dict (Option Text))
      (signer : Signer Private Public)
      → names keys ≡ words
      → (populate_loop platform cbor dumps proto value nonce left i txns keys >>= λ made.
            pure made.0)
          signer
        ≡ populate_words_loop platform cbor dumps proto value nonce words left i txns signer
  unfolding populate_loop populate_words_loop
  populate_loop-words words zero i txns keys signer e = refl
  populate_loop-words words (suc left) i txns keys signer e =
      elim (Option-cases (get_elem? words i)) [
        | inl f ↦
            let g : get_elem? (names keys) i ≡ none = rw e f in
            rw (g, populate_loop) (rw (f, populate_words_loop) refl)
        | inr (name, f) ↦
            let g : get_elem? (names keys) i ≡ some name = rw e f in
            rw (g, populate_loop)
              (rw (f, populate_words_loop)
                (rw (← transaction-alike (codes "set") name (pos (value i)) (nonce i) signer) (
                  bind_alike
                    (create_intkey_transaction platform cbor dumps proto (codes "set") name
                      (pos (value i)) [] (nonce i) signer)
                    (λ txn.
                      populate_loop platform cbor dumps proto value nonce left (i + 1)
                        (txns ++ txn ∷ []) (insert name (some txn.header_signature) keys))
                    (λ made. made.0)
                    (λ txn.
                      populate_words_loop platform cbor dumps proto value nonce words left (i + 1)
                        (txns ++ txn ∷ []))
                    (λ txn s.
                      populate_loop-words words left (i + 1) (txns ++ txn ∷ [])
                        (insert name (some txn.header_signature) keys) s
                        (names-insert keys i name (some txn.header_signature) g ∙ e)))))
      ]

  -- Both commands do the same: for the same random draws and the same signer, the batches that
  -- `do_populate` of create_batch.py appends to no batches, for a dict of keys, are those that
  -- `do_populate` of populate.py makes of the list of the keys; where the one raises an exception, so
  -- does the other, and the signer is left the same.
  pub do_populate-eq-populate_words :
      (keys : Dict (Option Text)) (signer : Signer Private Public)
      → (do_populate platform cbor dumps proto value nonce [] keys >>= λ made. pure made.0) signer
        ≡ populate_words platform cbor dumps proto value nonce (names keys) signer
  unfolding do_populate populate_words
  do_populate-eq-populate_words keys signer = rw (length-names keys) (
      rw (← populate_loop-words (names keys) (length keys) 0 [] keys signer refl) (
        batch_alike platform cbor dumps proto
          (populate_loop platform cbor dumps proto value nonce (length keys) 0 [] keys signer)))
