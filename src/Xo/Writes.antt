-- ===== src/Xo/Writes.antt =====
-- `_store_game` and `_delete_game` of `XoState`, at the address of a name.
use sawtooth_sdk_python.Base.{
  ◌≡◌, ◌≢◌, inl, inr, refl, sym, ◌∙◌, Option, none, some, [], if◌then◌else◌, Bool-cases,
}
use sawtooth_sdk_python.Base.Text.{Text, Bytes, is_empty, text_eq, text_eq_iff}
use sawtooth_sdk_python.Base.Dict.{Dict, lookup, insert}
use sawtooth_sdk_python.Base.Exec.{ok}
use sawtooth_sdk_python.Base.Platform.{Platform}
use sawtooth_sdk_python.Processor.Context.{Context}
use sawtooth_sdk_python.Processor.Validator.{
  Validator, after_set, after_delete, set_state_one, delete_state_one, contents-after_set,
  contents-after_delete,
}
use sawtooth_sdk_python.Xo.Game.{Game, serialize}
use sawtooth_sdk_python.Xo.Methods.{bytes_of, IsSound, found, cache-agrees}
use sawtooth_sdk_python.Xo.State.{
  Run, timeout, make_xo_address, cached_games, store_game, delete_address,
}
use sawtooth_sdk_python.Xo.Stored.{
  IsTable, IsWritten, nothing, serialized, games_of, lookup-games_of-serialize,
}

module _ {W : Type 0} (platform : Platform) (context : Context W)
    (v : Validator context.stream) where
  -- After a write at the address of a name, the names of this address have the games of a dict, and
  -- the other names keep theirs.
  pub record Written (name : Text) (d : Dict Game) (w : W) (s' : Run W) : Type 0 where
    pub sound : IsSound platform context v s'
    pub games :
        (k : Text)
        → found platform context v s'.world k ≡ (
            if text_eq (make_xo_address platform name) (make_xo_address platform k)
            then lookup k d
            else found platform context v w k)

  pub store_game_lem :
      (name : Text) (d : Dict Game) (s : Run W)
      → d ≢ []
      → IsTable d
      → IsSound platform context v s
      → (s' : Run W) × (store_game platform context name d s ≡ (ok tt, s'))
        × Written name d s.world s'
  unfolding store_game found
  store_game_lem name d s ne t sound = (
    s',
    rw (set_state_one context v here ser timeout s.world, store_game) refl,
    record { sound = record { ledger = record { at = kept }; agrees = agrees }; games = games },
  )
    where
      here : Text
      here = make_xo_address platform name

      ser : Bytes
      ser = serialize platform d

      w' : W
      w' = after_set context v here ser timeout s.world

      s' : Run W
      s' = record { world = w'; address_cache = insert here (some ser) s.address_cache }

      set : (a : Text) → v.contents w' a ≡ (if text_eq here a then ser else v.contents s.world a)
      set a = contents-after_set context v here a ser timeout s.world

      kept : (a : Text) → IsWritten platform (v.contents w' a)
      kept a = rw (set a) (elim (Bool-cases (text_eq here a)) [
        | inl e ↦ rw e (serialized d ne t refl)
        | inr e ↦ rw e (sound.ledger.at a)
      ])

      agrees :
          (a : Text) (c : Option Bytes)
          → lookup a (insert here (some ser) s.address_cache) ≡ some c
          → bytes_of c ≡ v.contents w' a
      agrees =
          cache-agrees platform context v s here (some ser) w'
            (sym (set here ∙ rw ((text_eq_iff here here).1 refl) refl))
            (λ b differ. set b ∙ rw differ refl) sound

      games :
          (k : Text)
          → found platform context v w' k ≡ (
              if text_eq here (make_xo_address platform k)
              then lookup k d
              else found platform context v s.world k)
      games k =
          rw (set (make_xo_address platform k))
            (elim (Bool-cases (text_eq here (make_xo_address platform k))) [
              | inl e ↦ rw e (lookup-games_of-serialize platform k d ne t)
              | inr e ↦ rw e refl
            ])

  pub delete_address_lem :
      (name : Text) (s : Run W)
      → IsSound platform context v s
      → (s' : Run W) × (delete_address platform context name s ≡ (ok tt, s'))
        × Written name [] s.world s'
  unfolding delete_address found
  delete_address_lem name s sound = (
    s',
    rw (delete_state_one context v here timeout s.world, delete_address) refl,
    record { sound = record { ledger = record { at = kept }; agrees = agrees }; games = games },
  )
    where
      here : Text
      here = make_xo_address platform name

      w' : W
      w' = after_delete context v here timeout s.world

      s' : Run W
      s' = record { world = w'; address_cache = insert here none s.address_cache }

      gone : (a : Text) → v.contents w' a ≡ (if text_eq here a then [] else v.contents s.world a)
      gone a = contents-after_delete context v here a timeout s.world

      kept : (a : Text) → IsWritten platform (v.contents w' a)
      kept a = rw (gone a) (elim (Bool-cases (text_eq here a)) [
        | inl e ↦ rw e (nothing refl)
        | inr e ↦ rw e (sound.ledger.at a)
      ])

      agrees :
          (a : Text) (c : Option Bytes)
          → lookup a (insert here none s.address_cache) ≡ some c
          → bytes_of c ≡ v.contents w' a
      agrees =
          cache-agrees platform context v s here none w'
            (sym (gone here ∙ rw ((text_eq_iff here here).1 refl) refl))
            (λ b differ. gone b ∙ rw differ refl) sound

      games :
          (k : Text)
          → found platform context v w' k ≡ (
              if text_eq here (make_xo_address platform k)
              then lookup k []
              else found platform context v s.world k)
      games k =
          rw (gone (make_xo_address platform k))
            (elim (Bool-cases (text_eq here (make_xo_address platform k))) [
              | inl e ↦ rw e (unfold lookup games_of cached_games is_empty in refl)
              | inr e ↦ rw e refl
            ])
