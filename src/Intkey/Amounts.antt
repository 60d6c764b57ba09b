-- ===== src/Intkey/Amounts.antt =====
-- The verbs of intkey against their specification: what each name holds is a number up to the
-- maximum, or nothing.
use sawtooth_sdk_python.Base.{
  subst, ℕ, ◌+◌, ◌-◌, ◌≤◌, ◌≡◌, ◌⊎◌, inl, inr, refl, sym, ◌∙◌, true, false, Option, none, some, [],
  ◌∷◌, arith, if◌then◌else◌, leb, Bool-cases, Option-cases,
}
use sawtooth_sdk_python.Base.Text.{Text, codes, text_eq}
use sawtooth_sdk_python.Base.Dict.{Dict, lookup, insert, lookup-insert}
use sawtooth_sdk_python.Base.Int.{ℤ, pos, ◌+ℤ◌, ◌-ℤ◌, pos_part}
use sawtooth_sdk_python.Base.Exec.{Message, Result, ok, raised, invalid_transaction, invalid}
use sawtooth_sdk_python.Intkey.Payload.{Value, int, str, as_int, is_verb, max_value}
use sawtooth_sdk_python.Intkey.Verbs.{do_set, do_inc, do_dec, do_intkey}

-- The value is an integer from 0 to the maximum.
pub record IsAmount (v : Value) (n : ℕ) : Type 0 where
  pub reads : as_int v ≡ some (pos n)
  pub bounded : n ≤ max_value

abbrev number_of : Option ℤ → Option ℕ
number_of none = none
number_of (some z) = some (pos_part z)

abbrev amount_of : Option Value → Option ℕ
amount_of none = none
amount_of (some v) = number_of (as_int v)

-- What a name holds.
unfoldable pub amount : Dict Value → Text → Option ℕ
amount state name = amount_of (lookup name state)

-- Every value of the state is an amount.
pub record IsBounded (state : Dict Value) : Type 0 where
  pub at : (k : Text) (v : Value) → lookup k state ≡ some v → (n : ℕ) × IsAmount v n

pub amount-le :
    (state : Dict Value) (k : Text) (n : ℕ)
    → IsBounded state
    → amount state k ≡ some n
    → n ≤ max_value
unfolding amount
amount-le state k n b h = elim (Option-cases (lookup k state)) [
  | inl e ↦ ground arith
  | inr (v, e) ↦ let (m, a) = b.at k v e in let r = a.reads in let u = a.bounded in ground arith
]

-- What a verb makes of what a name holds; `none` refuses.
pub set_amount : ℕ → Option ℕ → Option ℕ
set_amount n none = some n
set_amount n (some c) = none

pub inc_amount : ℕ → Option ℕ → Option ℕ
inc_amount n none = none
inc_amount n (some c) = if leb (c + n) max_value then some (c + n) else none

pub dec_amount : ℕ → Option ℕ → Option ℕ
dec_amount n none = none
dec_amount n (some c) = if leb n c then some (c - n) else none

pub verb_amount : Text → ℕ → Option ℕ → Option ℕ
unfolding set_amount inc_amount dec_amount
verb_amount verb n held =
    if text_eq verb (codes "set")
    then set_amount n held
    else if text_eq verb (codes "inc")
    then inc_amount n held
    else dec_amount n held

-- A refusal leaves no new state; a success holds `r` under the name, and all else as before.
pub record Updates (name : Text) (r : ℕ) (state state' : Dict Value) : Type 0 where
  pub bounded : IsBounded state'
  pub holds : (k : Text) → amount state' k ≡ (if text_eq name k then some r else amount state k)

pub data Follows (name : Text) (state : Dict Value) : Option ℕ → Result (Dict Value) → Type 0 where
  done :
      (r : ℕ) (state' : Dict Value)
      → Updates name r state state'
      → Follows name state (some r) (ok state')
  refused : (m : Message) → Follows name state none (raised (invalid_transaction m none))

insert-Updates :
    (name : Text) (v : Value) (r : ℕ) (state : Dict Value)
    → IsBounded state
    → IsAmount v r
    → Updates name r state (insert name v state)
unfolding amount
insert-Updates name v r state b a = record {
  bounded = record { at = λ k w h. inserted k w (Bool-cases (text_eq name k)) h };
  holds = λ k. rw lookup-insert (ground (arith, a.reads));
}
  where
    inserted :
        (k : Text) (w : Value)
        → (text_eq name k ≡ true) ⊎ (text_eq name k ≡ false)
        → lookup k (insert name v state) ≡ some w
        → (n : ℕ) × IsAmount w n
    inserted k w (inl same) h =
        let e : some v ≡ some w = sym (lookup-insert name k v state ∙ rw same refl) ∙ h in
        let f : v ≡ w = cc in (r, subst (λ x. IsAmount x r) f a)
    inserted k w (inr differ) h = b.at k w (sym (lookup-insert name k v state ∙ rw differ refl) ∙ h)

int-IsAmount : (n : ℕ) → n ≤ max_value → IsAmount (int (pos n)) n
unfolding as_int
int-IsAmount n h = record { reads = refl; bounded = h }

module _ (name : Text) (v : Value) (n : ℕ) (state : Dict Value) (b : IsBounded state)
    (a : IsAmount v n) where
  amount-none : lookup name state ≡ none → amount state name ≡ none
  unfolding amount
  amount-none e = rw e refl

  amount-some :
      (w : Value) (c : ℕ) → lookup name state ≡ some w → IsAmount w c → amount state name ≡ some c
  unfolding amount
  amount-some w c e held = ground (arith, held.reads)

  set_follows : Follows name state (set_amount n (amount state name)) (do_set name v state)
  unfolding set_amount do_set
  set_follows = elim (Option-cases (lookup name state)) [
    | inl e ↦
        rw (amount-none e, e, do_set)
          (done n (insert name v state) (insert-Updates name v n state b a))
    | inr (w, e) ↦
        let (c, held) = b.at name w e in rw (amount-some w c e held, e, do_set) (refused _)
  ]

  inc_follows : Follows name state (inc_amount n (amount state name)) (do_inc name v state)
  unfolding inc_amount do_inc ◌+ℤ◌
  inc_follows = elim (Option-cases (lookup name state)) [
    | inl e ↦ rw (amount-none e, e, do_inc) (refused _)
    | inr (w, e) ↦
        let (c, held) = b.at name w e in
        elim (Bool-cases (leb (c + n) max_value)) [
          | inl fits ↦
              let p : inc_amount n (amount state name) ≡ some (c + n) =
                rw (amount-some w c e held) (rw fits refl) in
              let q : do_inc name v state ≡ ok (insert name (int (pos (c + n))) state) =
                ground (arith, held.reads, a.reads) in
              rw (p, q)
                (done (c + n) (insert name (int (pos (c + n))) state) (
                  insert-Updates name (int (pos (c + n))) (c + n) state b
                    (int-IsAmount (c + n) (ground arith))))
          | inr large ↦
              let p : inc_amount n (amount state name) ≡ none =
                rw (amount-some w c e held) (rw large refl) in
              let q : do_inc name v state
                  ≡ raised (
                      invalid "Verb is \"inc\", but result would be greater than {}"
                        (codes "4294967295" ∷ [])) =
                ground (arith, held.reads, a.reads) in
              rw (p, q) (refused _)
        ]
  ]

  dec_follows : Follows name state (dec_amount n (amount state name)) (do_dec name v state)
  unfolding dec_amount do_dec ◌-ℤ◌
  dec_follows = elim (Option-cases (lookup name state)) [
    | inl e ↦ rw (amount-none e, e, do_dec) (refused _)
    | inr (w, e) ↦
        let (c, held) = b.at name w e in
        elim (Bool-cases (leb n c)) [
          | inl fits ↦
              let p : dec_amount n (amount state name) ≡ some (c - n) =
                rw (amount-some w c e held) (rw fits refl) in
              let q : do_dec name v state ≡ ok (insert name (int (pos (c - n))) state) =
                ground (arith, held.reads, a.reads) in
              rw (p, q)
                (done (c - n) (insert name (int (pos (c - n))) state) (
                  insert-Updates name (int (pos (c - n))) (c - n) state b
                    (int-IsAmount (c - n) (let h = held.bounded in omega arith))))
          | inr large ↦
              let p : dec_amount n (amount state name) ≡ none =
                rw (amount-some w c e held) (rw large refl) in
              let q : do_dec name v state
                  ≡ raised (
                      invalid "Verb is \"dec\", but result would be less than {}"
                        (codes "0" ∷ [])) =
                ground (arith, held.reads, a.reads) in
              rw (p, q) (refused _)
        ]
  ]

  -- On a bounded state, a verb that is valid does to the name what the specification of the verb
  -- does to what the name holds, and to no other name anything; the new state is bounded. Where the
  -- specification refuses, `_do_intkey` raises InvalidTransaction, and never anything else.
  pub do_intkey-Follows :
      (verb : Text)
      → is_verb (str verb) ≡ true
      → Follows name state (verb_amount verb n (amount state name)) (do_intkey verb name v state)
  unfolding is_verb verb_amount do_intkey
  do_intkey-Follows verb h = elim (Bool-cases (text_eq verb (codes "set"))) [
    | inl set ↦ rw set set_follows
    | inr not_set ↦ elim (Bool-cases (text_eq verb (codes "inc"))) [
      | inl inc ↦ rw (not_set, inc) inc_follows
      | inr not_inc ↦
          let dec : text_eq verb (codes "dec") ≡ true = ground arith in
          rw (not_set, not_inc, dec) dec_follows
    ]
  ]
