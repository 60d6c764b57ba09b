-- ===== src/Messaging/Tracked.antt =====
-- A collection of futures that loses none, under the operations of sawtooth_sdk/messaging/future.py.
use sawtooth_sdk_python.Base.{
  ℕ, zero, suc, ◌≡◌, ◌≢◌, ◌⊎◌, inl, inr, refl, ap, sym, ◌∙◌, true, false, none, some, List, [], ◌∷◌,
  ◌++◌, arith, if◌then◌else◌, ◌==◌, get_elem?, length, Bool-cases, Option-cases,
}
use sawtooth_sdk_python.Base.Text.{Text, text_eq, text_eq_iff}
use sawtooth_sdk_python.Base.Dict.{
  Dict, lookup, insert, erase, lookup-insert, lookup-erase, IsKeyed, insert-IsKeyed, erase-IsKeyed,
}
use sawtooth_sdk_python.Messaging.Future.{
  Future, Futures, Outcome, set_result, resolve_all, get_elem?-set_result,
}

-- Every future that is not done is in the collection under its id, and every key stands once.
pub record IsTracked (c : Futures) : Type 0 where
  pub keyed : IsKeyed c.collection
  pub pending :
      (i : ℕ) (f : Future)
      → get_elem? c.store i ≡ some f
      → f.result ≡ none
      → lookup f.correlation_id c.collection ≡ some i

get_elem?-append :
    (store : List Future) (f g : Future) (i : ℕ)
    → get_elem? (store ++ (f ∷ [])) i ≡ some g
    → (get_elem? store i ≡ some g) ⊎ ((i ≡ length store) × (f ≡ g))
get_elem?-append [] f g zero h = inr (refl, let p : f ≡ g = cc in p)
get_elem?-append [] f g (suc i) h = cc
get_elem?-append (x ∷ store) f g zero h = inl h
get_elem?-append (x ∷ store) f g (suc i) h = shift (get_elem?-append store f g i h)
  where
    shift :
        (get_elem? store i ≡ some g) ⊎ ((i ≡ length store) × (f ≡ g))
        → (get_elem? store i ≡ some g) ⊎ ((suc i ≡ suc (length store)) × (f ≡ g))
    shift (inl e) = inl e
    shift (inr (e, p)) = inr (ap suc e, p)

-- A new future, under an id that the collection does not hold.
pub add-IsTracked :
    (c : Futures) (f : Future)
    → lookup f.correlation_id c.collection ≡ none
    → IsTracked c
    → IsTracked (record {
      store = c.store ++ (f ∷ []);
      collection = insert f.correlation_id (length c.store) c.collection;
    })
add-IsTracked c f fresh t = record {
  keyed = insert-IsKeyed f.correlation_id (length c.store) c.collection t.keyed;
  pending = λ i g e p. rw lookup-insert (kept i g p (get_elem?-append c.store f g i e));
}
  where
    kept :
        (i : ℕ) (g : Future)
        → g.result ≡ none
        → (get_elem? c.store i ≡ some g) ⊎ ((i ≡ length c.store) × (f ≡ g))
        → (if text_eq f.correlation_id g.correlation_id
            then some (length c.store)
            else lookup g.correlation_id c.collection)
          ≡ some i
    kept i g p (inl e) =
        let old = t.pending i g e p in ground (arith, text_eq_iff f.correlation_id g.correlation_id)
    kept i g p (inr (e, same)) =
        let t' =
          (text_eq_iff f.correlation_id g.correlation_id).1
            (ap (λ (x : Future). x.correlation_id) same) in
        rw (t', e) refl

-- The future of a place is resolved, and its id leaves the collection.
pub settle-IsTracked :
    (c : Futures) (id : Text) (place : ℕ) (o : Outcome)
    → lookup id c.collection ≡ some place
    → IsTracked c
    → IsTracked (record { store = set_result c.store place o; collection = erase id c.collection })
settle-IsTracked c id place o here t = record {
  keyed = erase-IsKeyed id c.collection t.keyed;
  pending = λ i g e p. rw (lookup-erase id g.correlation_id c.collection t.keyed) (
      kept i g p (sym (get_elem?-set_result c.store place i o) ∙ e)
        (Option-cases (get_elem? c.store i)));
}
  where
    kept :
        (i : ℕ) (g : Future)
        → g.result ≡ none
        → (if place == i
            then elim (get_elem? c.store i) [
              | none ↦ none
              | some f ↦ some (record f { result = some o })
            ]
            else get_elem? c.store i)
          ≡ some g
        → (get_elem? c.store i ≡ none) ⊎ ((f : Future) × (get_elem? c.store i ≡ some f))
        → (if text_eq id g.correlation_id then none else lookup g.correlation_id c.collection)
          ≡ some i
    kept i g p e (inl missing) = ground arith
    kept i g p e (inr (f, found)) = ground (arith, t.pending i g, text_eq_iff id g.correlation_id)

-- A future that is not done after the loop over a collection was not done before it, and its place
-- is not in the collection.
resolve_all-pending :
    (d : Dict ℕ) (o : Outcome) (store : List Future) (i : ℕ) (g : Future)
    → get_elem? (resolve_all d o store) i ≡ some g
    → g.result ≡ none
    → (get_elem? store i ≡ some g) × ((k : Text) → lookup k d ≢ some i)
unfolding resolve_all lookup
resolve_all-pending [] o store i g h p = (h, λ k e. cc)
resolve_all-pending ((id, place) ∷ d) o store i g h p =
    let (before, absent) = resolve_all-pending d o (set_result store place o) i g h p in
    apart absent (sym (get_elem?-set_result store place i o) ∙ before)
      (Option-cases (get_elem? store i)) (Bool-cases (place == i))
  where
    apart :
        ((k : Text) → lookup k d ≢ some i)
        → (if place == i
            then elim (get_elem? store i) [
              | none ↦ none
              | some f ↦ some (record f { result = some o })
            ]
            else get_elem? store i)
          ≡ some g
        → (get_elem? store i ≡ none) ⊎ ((f : Future) × (get_elem? store i ≡ some f))
        → (place == i) ≡ true ⊎ ((place == i) ≡ false)
        → (get_elem? store i ≡ some g) × ((k : Text) → lookup k ((id, place) ∷ d) ≢ some i)
    apart absent e (inl missing) b = absurd (ground arith)
    apart absent e (inr (f, found)) (inl same) = absurd (ground arith)
    apart absent e (inr (f, found)) (inr other) = (ground arith, λ k at. ground (arith, absent k))

-- After the loop nobody of a tracked collection still waits.
pub all_done :
    (c : Futures) (o : Outcome) (i : ℕ) (g : Future)
    → IsTracked c
    → get_elem? (resolve_all c.collection o c.store) i ≡ some g
    → g.result ≢ none
all_done c o i g t h p =
    let (before, absent) = resolve_all-pending c.collection o c.store i g h p in
    absent g.correlation_id (t.pending i g before p)
