-- ===== src/Load/Tracked.antt =====
-- What holds of the batches that `IntKeyWorkload` tracks, whatever is drawn, posted and answered.
use sawtooth_sdk_python.Base.{
  ℕ, zero, suc, ◌≤◌, ◌≡◌, refl, sym, ◌∙◌, true, false, none, some, ◌⊎◌, inl, inr, List, [], ◌∷◌,
  ◌++◌, get_elem?, if◌then◌else◌, Bool-cases, Option-cases, arith,
}
use sawtooth_sdk_python.Base.Text.{Text, text_eq, text_eq_iff}
use sawtooth_sdk_python.Base.Dict.{Dict, lookup, insert, IsKeyed, lookup-insert, insert-IsKeyed}
use sawtooth_sdk_python.Load.Intkey.{IntKeyState, Workload, choose, contains, remove_first, others}

-- The key of a batch is one that has been set, its value is within the bound, and the validator it
-- was sent to has not been removed.
pub record IsKnown (urls : List Text) (deps : Dict Text) (g : IntKeyState) : Type 0 where
  pub dep : Text
  pub set : lookup g.name deps ≡ some dep
  pub bounded : g.value ≤ 1000000
  pub listed : contains g.url urls ≡ true

pub record IsTracked (urls : List Text) (deps : Dict Text) (pending : Dict IntKeyState)
    : Type 0 where
  pub keyed : IsKeyed pending
  pub at : (id : Text) (g : IntKeyState) → lookup id pending ≡ some g → IsKnown urls deps g

abbrev pub Tracks : {Private Public : Type 0} → Workload Private Public → Type 0
Tracks w = IsTracked w.urls w.deps w.pending_batches

pub contains-append :
    (url v : Text) (urls : List Text)
    → contains url urls ≡ true
    → contains url (urls ++ v ∷ []) ≡ true
unfolding contains
contains-append url v [] h = absurd (cc)
contains-append url v (u ∷ urls) h = ground (arith, contains-append url v urls)

pub contains-remove_first :
    (url v : Text) (urls : List Text)
    → text_eq v url ≡ false
    → contains v urls ≡ true
    → contains v (remove_first url urls) ≡ true
unfolding contains remove_first
contains-remove_first url v [] ne h = absurd (cc)
contains-remove_first url v (u ∷ urls) ne h =
    ground (
      arith,
      contains-remove_first url v urls,
      text_eq_iff u url,
      text_eq_iff u v,
      text_eq_iff v url,
    )

contains-get :
    (urls : List Text) (i : ℕ) {url : Text} → get_elem? urls i ≡ some url → contains url urls ≡ true
unfolding contains
contains-get [] i h = absurd (cc)
contains-get (u ∷ urls) zero {url} h = let e : u ≡ url = cc in rw ((text_eq_iff u url).1 e) refl
contains-get (u ∷ urls) (suc i) {url} h = ground (arith, contains-get urls i h)

pub contains-choose :
    (urls : List Text) (i : ℕ) {url : Text} → choose urls i ≡ some url → contains url urls ≡ true
unfolding choose contains
contains-choose [] i h = absurd (cc)
contains-choose (u ∷ urls) i {url} h = elim (Option-cases (get_elem? (u ∷ urls) i)) [
  | inl e ↦
      let f : some u ≡ some url = rw (e, choose) at h in
      let same : u ≡ url = cc in rw ((text_eq_iff u url).1 same) refl
  | inr (v, e) ↦
      let f : some v ≡ some url = rw (e, choose) at h in
      let same : v ≡ url = cc in contains-get (u ∷ urls) i (e ∙ f)
]

pub lookup-others_none :
    (url id : Text) (d : Dict IntKeyState) → lookup id d ≡ none → lookup id (others url d) ≡ none
unfolding others lookup
lookup-others_none url id [] h = refl
lookup-others_none url id ((t, g) ∷ d) h = ground (arith, lookup-others_none url id d)

pub others-IsKeyed : (url : Text) (d : Dict IntKeyState) → IsKeyed d → IsKeyed (others url d)
unfolding others
others-IsKeyed url [] u = tt
others-IsKeyed url ((t, g) ∷ d) u =
    ground (arith, others-IsKeyed url d u.1, lookup-others_none url t d u.0)

pub lookup-others :
    (url id : Text) (d : Dict IntKeyState) {g : IntKeyState}
    → IsKeyed d
    → lookup id (others url d) ≡ some g
    → (lookup id d ≡ some g) × (text_eq g.url url ≡ false)
unfolding others lookup
lookup-others url id [] u h = absurd (cc)
lookup-others url id ((t, k) ∷ d) {g} u h = ground (
  arith,
  lookup-others url id d {g = g} u.1,
  lookup-others_none url id d,
  text_eq_iff t id,
  lookup-others_none url t d u.0,
)

pub insert-IsTracked :
    (urls : List Text) (deps : Dict Text) (pending : Dict IntKeyState) (id : Text) (g : IntKeyState)
    → IsTracked urls deps pending
    → IsKnown urls deps g
    → IsTracked urls deps (insert id g pending)
insert-IsTracked urls deps pending id g is known = record {
  keyed = insert-IsKeyed id g pending is.keyed;
  at = λ j h k. at_key j h (Bool-cases (text_eq id j)) (sym (lookup-insert id j g pending) ∙ k);
}
  where
    at_key :
        (j : Text) (h : IntKeyState)
        → (text_eq id j ≡ true) ⊎ (text_eq id j ≡ false)
        → (if text_eq id j then some g else lookup j pending) ≡ some h
        → IsKnown urls deps h
    at_key j h (inl e) k =
        let f : some g ≡ some h = sym (rw e refl) ∙ k in let same : g ≡ h = cc in rw (← same) known
    at_key j h (inr e) k = is.at j h (sym (rw e refl) ∙ k)

pub insert_dep-IsTracked :
    (urls : List Text) (deps : Dict Text) (pending : Dict IntKeyState) (name signature : Text)
    → IsTracked urls deps pending
    → IsTracked urls (insert name signature deps) pending
insert_dep-IsTracked urls deps pending name signature is = record {
  keyed = is.keyed;
  at = λ id g h. still_known g (is.at id g h) (Bool-cases (text_eq name g.name));
}
  where
    still_known :
        (g : IntKeyState)
        → IsKnown urls deps g
        → (text_eq name g.name ≡ true) ⊎ (text_eq name g.name ≡ false)
        → IsKnown urls (insert name signature deps) g
    still_known g known (inl e) = record {
      dep = signature;
      set = lookup-insert name g.name signature deps ∙ rw e refl;
      bounded = known.bounded;
      listed = known.listed;
    }
    still_known g known (inr e) = record {
      dep = known.dep;
      set = lookup-insert name g.name signature deps ∙ rw e known.set;
      bounded = known.bounded;
      listed = known.listed;
    }
