-- ===== src/Intkey/Ledger.antt =====
-- The transactions of intkey against the validator's state, as a map from names to numbers.
use sawtooth_sdk_python.Base.{
  ℕ, ◌≡◌, inl, inr, refl, ap, true, false, Option, none, some, [], ◌∷◌, if◌then◌else◌, Bool-cases,
}
use sawtooth_sdk_python.Base.Text.{Text, Bytes, is_empty, text_eq, text_eq_iff}
use sawtooth_sdk_python.Base.Dict.{Dict, lookup}
use sawtooth_sdk_python.Base.Exec.{Message, Result, ok, raised, invalid_transaction, continue_with}
use sawtooth_sdk_python.Base.Platform.{Platform}
use sawtooth_sdk_python.Processor.Context.{Context}
use sawtooth_sdk_python.Processor.Validator.{
  Validator, after_set, get_state_one, set_state_one, contents-after_set,
}
use sawtooth_sdk_python.Intkey.Payload.{Value, str, Cbor, is_verb}
use sawtooth_sdk_python.Intkey.Verbs.{do_intkey}
use sawtooth_sdk_python.Intkey.Handler.{
  make_intkey_address, read_state, get_state_data, set_state_data, run_request,
}
use sawtooth_sdk_python.Intkey.Amounts.{
  IsAmount, IsBounded, amount, verb_amount, Updates, Follows, done, refused, do_intkey-Follows,
}

module _ (cbor : Cbor) where
  -- The dict that the bytes of an address stand for.
  unfoldable pub state_of : Bytes → Dict Value
  state_of bytes =
      if is_empty bytes
      then []
      else elim (cbor.loads_state bytes) [ none ↦ [] | some state ↦ state ]

  -- Bytes that the handler has left: none, or a bounded dict.
  pub data IsWritten (bytes : Bytes) : Type 0 where
    nothing : bytes ≡ [] → IsWritten bytes
    dumped : (d : Dict Value) → bytes ≡ cbor.dumps d → IsBounded d → IsWritten bytes

  state_of-dumps : (d : Dict Value) → state_of (cbor.dumps d) ≡ d
  unfolding state_of
  state_of-dumps d = rw (cbor.is_empty-dumps d, cbor.loads_state-dumps d) refl

  empty-IsBounded : IsBounded []
  unfolding lookup
  empty-IsBounded = record { at = λ k v h. cc }

  pub state_of-IsBounded : (bytes : Bytes) → IsWritten bytes → IsBounded (state_of bytes)
  unfolding state_of is_empty
  state_of-IsBounded bytes (nothing e) = rw e empty-IsBounded
  state_of-IsBounded bytes (dumped d e b) = rw e (rw (state_of-dumps d) b)

module _ {W : Type 0} (platform : Platform) (cbor : Cbor) (context : Context W)
    (v : Validator context.stream) where
  -- Everything in the validator's state was left by the handler.
  pub record IsLedger (w : W) : Type 0 where
    pub at : (a : Text) → IsWritten cbor (v.contents w a)

  abbrev pub dict_at : W → Text → Dict Value
  dict_at w name = state_of cbor (v.contents w (make_intkey_address platform name))

  -- What the state holds under a name.
  unfoldable pub held : W → Text → Option ℕ
  held w name = amount (dict_at w name) name

  get_state_data-eq :
      (name : Text) (w : W)
      → IsLedger w
      → get_state_data platform cbor context name w ≡ (ok (dict_at w name), w)
  unfolding get_state_data read_state state_of is_empty
  get_state_data-eq name w l =
      rw (get_state_one context v (make_intkey_address platform name) none w) (
        ap {B = Result (Dict Value) × W} (λ r. (r, w))
          (read (l.at (make_intkey_address platform name))))
    where
      read :
          {bytes : Bytes}
          → IsWritten cbor bytes
          → read_state cbor (
              if is_empty bytes
              then []
              else (record { address = make_intkey_address platform name; bytes = bytes } ∷ []))
            ≡ ok (state_of cbor bytes)
      read (nothing e) = rw e refl
      read (dumped d e b) = rw e (rw (cbor.is_empty-dumps d, cbor.loads_state-dumps d) refl)

  abbrev written : Text → Dict Value → W → W
  written name d w = after_set context v (make_intkey_address platform name) (cbor.dumps d) none w

  set_state_data-eq :
      (name : Text) (d : Dict Value) (w : W)
      → set_state_data platform cbor context name d w ≡ (ok tt, written name d w)
  unfolding set_state_data is_empty
  set_state_data-eq name d w =
      rw (set_state_one context v (make_intkey_address platform name) (cbor.dumps d) none w) refl

  written-IsLedger :
      (name : Text) (d : Dict Value) (w : W)
      → IsBounded d
      → IsLedger w
      → IsLedger (written name d w)
  written-IsLedger name d w b l = record {
    at = λ a.
        rw
          (contents-after_set context v (make_intkey_address platform name) a (cbor.dumps d) none w)
          (elim (Bool-cases (text_eq (make_intkey_address platform name) a)) [
            | inl same ↦ rw same (dumped d refl b)
            | inr differ ↦ rw differ (l.at a)
          ]);
  }

  differ_names :
      (name k : Text)
      → text_eq (make_intkey_address platform name) (make_intkey_address platform k) ≡ false
      → text_eq name k ≡ false
  differ_names name k differ = elim (Bool-cases (text_eq name k)) [
    | inl same ↦
        let t =
          (text_eq_iff (make_intkey_address platform name) (make_intkey_address platform k)).1
            (ap (make_intkey_address platform) ((text_eq_iff name k).0 same)) in
        cc
    | inr other_name ↦ other_name
  ]

  -- The names under one address share a dict; the names under another keep theirs.
  held-written :
      (name : Text) (r : ℕ) (d : Dict Value) (w : W) (k : Text)
      → Updates name r (dict_at w name) d
      → held (written name d w) k ≡ (if text_eq name k then some r else held w k)
  unfolding held
  held-written name r d w k u =
      rw
        (contents-after_set context v (make_intkey_address platform name)
          (make_intkey_address platform k) (cbor.dumps d) none w)
        (elim (Bool-cases
          (text_eq (make_intkey_address platform name) (make_intkey_address platform k))) [
            | inl same ↦
                let e =
                  (text_eq_iff (make_intkey_address platform name)
                      (make_intkey_address platform k)).0
                    same in
                rw same (rw (state_of-dumps cbor d) (rw (u.holds k) (rw e refl)))
            | inr differ ↦ rw (differ, differ_names name k differ) refl
          ])

  -- What a request has done, by what the specification makes of the amount held.
  pub data Effect (name : Text) (w : W) : Option ℕ → Result (Unit {0}) × W → Type 0 where
    stored :
        (r : ℕ) (w' : W)
        → IsLedger w'
        → ((k : Text) → held w' k ≡ (if text_eq name k then some r else held w k))
        → Effect name w (some r) (ok tt, w')
    unchanged : (m : Message) → Effect name w none (raised (invalid_transaction m none), w)

  finish :
      (name : Text) (w : W) (o : Option ℕ) (result : Result (Dict Value))
      → IsLedger w
      → Follows name (dict_at w name) o result
      → Effect name w o (continue_with result w (set_state_data platform cbor context name))
  finish name w o result l (done r d u) = rw (set_state_data-eq name d w) (
      stored r (written name d w) (written-IsLedger name d w u.bounded l)
        (λ k. held-written name r d w k u))
  finish name w o result l (refused m) = unchanged m

  -- A valid request on a validator whose state the handler has left: where the specification of the
  -- verb gives an amount, the name holds it afterwards, and every other name, also one with the same
  -- address, holds what it held; where it refuses, InvalidTransaction is raised and nothing is
  -- written.
  pub run_request-Effect :
      (verb name : Text) (value : Value) (n : ℕ) (w : W)
      → is_verb (str verb) ≡ true
      → IsAmount value n
      → IsLedger w
      → Effect name w
          (verb_amount verb n (held w name))
          (run_request platform cbor context (str verb) (str name) value w)
  unfolding run_request held
  run_request-Effect verb name value n w h a l = rw (get_state_data-eq name w l) (
      finish name w (verb_amount verb n (held w name)) (do_intkey verb name value (dict_at w name))
        l
        (do_intkey-Follows name value n (dict_at w name)
          (state_of-IsBounded cbor (v.contents w (make_intkey_address platform name))
            (l.at (make_intkey_address platform name)))
          a verb h))
