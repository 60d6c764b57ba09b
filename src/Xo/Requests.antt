-- ===== src/Xo/Requests.antt =====
-- What a payload that is accepted says: one of the three actions, with fields that can be stored.
use sawtooth_sdk_python.Base.{
  ℕ, zero, suc, ◌<◌, ◌≡◌, ◌⊎◌, inl, inr, refl, ap, sym, ◌∙◌, true, false, not, ◌||◌, Option, none,
  some, List, [], ◌∷◌, arith, if◌then◌else◌, subst, All, Bool-cases,
}
use sawtooth_sdk_python.Base.Text.{Text, Bytes, codes, has, text_eq, text_eq_iff}
use sawtooth_sdk_python.Base.Text.Split.{IsFree, split, split-All-IsFree}
use sawtooth_sdk_python.Base.Int.{ℤ, pos, negsuc, ltb_ℤ}
use sawtooth_sdk_python.Base.Exec.{Result, ok, raised, invalid, then_do}
use sawtooth_sdk_python.Base.Platform.{Platform, parse_int}
use sawtooth_sdk_python.Xo.Game.RoundTrip.{IsPlain}
use sawtooth_sdk_python.Xo.Ledger.{
  Action, create, delete, take_square, name_of, payload_of, IsOnBoard,
}
use sawtooth_sdk_python.Xo.Payload.{
  XoPayload, raw, number, read_space, check_fields, three_fields, from_bytes,
}

-- The payload is that of an action on a name without separators.
pub record Accepted (p : XoPayload) : Type 0 where
  pub action : Action
  pub same : p ≡ payload_of action
  pub plain : IsPlain (name_of action)
  pub on_board : IsOnBoard action

module _ (platform : Platform) where
  square_of :
      (o : Option ℤ) {n : ℤ}
      → elim o as (λ _. Result ℤ) [
        | none ↦ raised (invalid "Space must be an integer from 1 to 9" [])
        | some n ↦
            if ltb_ℤ n (pos 1) || not (ltb_ℤ n (pos 10))
            then raised (invalid "Space must be an integer from 1 to 9" [])
            else ok n
      ]
        ≡ ok n
      → (k : ℕ) × (n ≡ pos (suc k)) × (k < 9)
  square_of none h = absurd (cc)
  square_of (some (pos zero)) h = absurd (ground arith)
  square_of (some (pos (suc k))) h = (k, ground arith, ground arith)
  square_of (some (negsuc k)) h = absurd (ground arith)

  space_ok :
      (space : Text) {n : ℤ}
      → read_space platform space ≡ ok n
      → (k : ℕ) × (n ≡ pos (suc k)) × (k < 9)
  unfolding read_space
  space_ok space h = square_of (parse_int platform space) h

  abbrev with_number : Text → Result ℤ → Result XoPayload
  with_number name r =
      then_do r (λ n. ok (record { name = name; action = codes "take"; space = number n }))

  take-Accepted :
      (name : Text) (r : Result ℤ) {p : XoPayload}
      → IsPlain name
      → ((n : ℤ) → r ≡ ok n → (k : ℕ) × (n ≡ pos (suc k)) × (k < 9))
      → with_number name r ≡ ok p
      → Accepted p
  take-Accepted name (raised e) plain square h = absurd (cc)
  take-Accepted name (ok n) {p} plain square h =
      let (k, e, lt) = square n refl in
      let q : record { name = name; action = codes "take"; space = number n } ≡ p = cc in
      record {
        action = take_square name k;
        same = sym q ∙ ap (λ m. record { name = name; action = codes "take"; space = number m }) e;
        plain = plain;
        on_board = lt;
      }

  -- The checks that every accepted payload has passed, and what is left of the last one.
  passed :
      (name action space : Text) {p : XoPayload}
      → check_fields platform name action space ≡ ok p
      → (has b'|' name ≡ false)
        × (((text_eq action (codes "take") ≡ true)
              × (then_do
                    (read_space platform space)
                    (λ n. ok (record { name = name; action = action; space = number n }))
                  ≡ ok p))
            ⊎ (((text_eq action (codes "create") ≡ true) ⊎ (text_eq action (codes "delete") ≡ true))
                × (p ≡ record { name = name; action = action; space = raw space })))
  unfolding check_fields
  passed name action space {p} h = (
    ground arith,
    elim (Bool-cases (text_eq action (codes "take"))) [
      | inl e ↦ inl (e, ground arith)
      | inr e ↦ elim (Bool-cases (text_eq action (codes "create"))) [
        | inl c ↦ inr (inl c, ground arith)
        | inr c ↦ inr (inr (ground arith), ground arith)
      ]
    ],
  )

  check_fields-Accepted :
      (name action space : Text) {p : XoPayload}
      → IsFree b',' name
      → check_fields platform name action space ≡ ok p
      → Accepted p
  check_fields-Accepted name action space {p} free h = split_on (passed name action space h).1
    where
      plain : IsPlain name
      plain = record { no_comma = free; no_bar = (passed name action space h).0 }

      named : Text → XoPayload
      named a = record { name = name; action = a; space = raw space }

      split_on :
          ((text_eq action (codes "take") ≡ true)
              × (then_do
                    (read_space platform space)
                    (λ n. ok (record { name = name; action = action; space = number n }))
                  ≡ ok p))
            ⊎ (((text_eq action (codes "create") ≡ true) ⊎ (text_eq action (codes "delete") ≡ true))
                × (p ≡ record { name = name; action = action; space = raw space }))
          → Accepted p
      split_on (inl (e, rest)) =
          take-Accepted name (read_space platform space) plain (λ n. space_ok space)
            (subst
              (λ a.
                then_do (read_space platform space)
                  (λ n. ok (record { name = name; action = a; space = number n }))
                ≡ ok p)
              ((text_eq_iff action (codes "take")).0 e) rest)
      split_on (inr (inl e, same)) = record {
        action = create name space;
        same = same ∙ ap named ((text_eq_iff action (codes "create")).0 e);
        plain = plain;
        on_board = tt;
      }
      split_on (inr (inr e, same)) = record {
        action = delete name space;
        same = same ∙ ap named ((text_eq_iff action (codes "delete")).0 e);
        plain = plain;
        on_board = tt;
      }

  three_fields-Accepted :
      (fields : List Text) {p : XoPayload}
      → All (IsFree b',') fields
      → three_fields platform fields ≡ ok p
      → Accepted p
  unfolding three_fields
  three_fields-Accepted (name ∷ action ∷ space ∷ []) f h =
      check_fields-Accepted name action space f.0 h
  three_fields-Accepted [] f h = absurd (cc)
  three_fields-Accepted (a ∷ []) f h = absurd (cc)
  three_fields-Accepted (a ∷ b ∷ []) f h = absurd (cc)
  three_fields-Accepted (a ∷ b ∷ c ∷ d ∷ rest) f h = absurd (cc)

  -- Whatever bytes `XoPayload.from_bytes` accepts are those of `create`, `delete` or `take`, on a
  -- name that holds neither separator of the stored games, and for `take` on one of the nine
  -- squares: the conditions under which a transaction does what the rules say.
  pub from_bytes-Accepted :
      (payload : Bytes) {p : XoPayload} → from_bytes platform payload ≡ ok p → Accepted p
  unfolding from_bytes
  from_bytes-Accepted payload {p} h = decoded (platform.decode payload) h
    where
      decoded :
          (o : Option Text)
          → elim o as (λ _. Result XoPayload) [
            | none ↦ raised (invalid "Invalid payload serialization" [])
            | some text ↦ three_fields platform (split b',' text)
          ]
            ≡ ok p
          → Accepted p
      decoded none e = absurd (cc)
      decoded (some text) e = three_fields-Accepted (split b',' text) (split-All-IsFree b',' text) e
