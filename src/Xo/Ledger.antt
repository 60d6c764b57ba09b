-- ===== src/Xo/Ledger.antt =====
-- A transaction of xo as a whole, against the map from names to games.
use sawtooth_sdk_python.Base.{
  ℕ, suc, ◌<◌, ◌≡◌, inl, inr, refl, ap, sym, ◌∙◌, false, Option, none, some, [], ◌∷◌, subst, All,
  Bool-cases,
}
use sawtooth_sdk_python.Base.Text.{Text, codes, is_empty, text_eq, text_eq_iff}
use sawtooth_sdk_python.Base.Int.{pos}
use sawtooth_sdk_python.Base.Exec.{Exc, Result, ok, raised, invalid, then_do, continue_with}
use sawtooth_sdk_python.Base.Platform.{Platform}
use sawtooth_sdk_python.Processor.Context.{Context}
use sawtooth_sdk_python.Processor.Validator.{Validator}
use sawtooth_sdk_python.Xo.Game.{Game}
use sawtooth_sdk_python.Xo.Game.RoundTrip.{IsPlain}
use sawtooth_sdk_python.Xo.Good.{IsGood, new_game-IsGood, take_number-IsGood}
use sawtooth_sdk_python.Base.Dict.{Dict, lookup}
use sawtooth_sdk_python.Xo.Rules.{play}
use sawtooth_sdk_python.Xo.Rules.Moves.{take_number-eq-play}
use sawtooth_sdk_python.Xo.Handler.{
  new_game, take_number, take_space, delete_found, create_found, take_found, dispatch,
}
use sawtooth_sdk_python.Xo.Methods.{IsSound, found, games_at}
use sawtooth_sdk_python.Xo.Payload.{XoPayload, number, raw}
use sawtooth_sdk_python.Xo.State.{Run, set_game}
use sawtooth_sdk_python.Xo.Updates.{
  Updated, get_game_lem, set_game_lem, delete_game_lem, IsTable-at,
}

-- A payload that has been read: the action, the name of the game, and the field `space`, which for
-- `take` is a square, from 0 here.
pub data Action : Type 0 where
  create delete : Text → Text → Action
  take_square : Text → ℕ → Action

abbrev pub name_of : Action → Text
name_of (create name space) = name
name_of (delete name space) = name
name_of (take_square name k) = name

abbrev pub payload_of : Action → XoPayload
payload_of (create name space) = record { name = name; action = codes "create"; space = raw space }
payload_of (delete name space) = record { name = name; action = codes "delete"; space = raw space }
payload_of (take_square name k) = record {
  name = name;
  action = codes "take";
  space = number (pos (suc k));
}

abbrev pub IsOnBoard : Action → Type 0
IsOnBoard (take_square name k) = k < 9
IsOnBoard action = Unit

abbrev pub Change : Type 0
Change = Result (Option Game)

-- What an action makes of the game under its name, if there is one.
abbrev pub change : Text → Action → Option Game → Change
change signer (create name space) none = ok (some (new_game name))
change signer (create name space) (some g) =
    raised (invalid "Invalid action: Game already exists: {}" (name ∷ []))
change signer (delete name space) none = raised (invalid "Invalid action: game does not exist" [])
change signer (delete name space) (some g) = ok none
change signer (take_square name k) none =
    raised (invalid "Invalid action: Take requires an existing game" [])
change signer (take_square name k) (some g) = then_do (play signer k g) (λ g'. ok (some g'))

All-lookup :
    (k : Text) (d : Dict Game) {g : Game} → All IsGood d → lookup k d ≡ some g → IsGood (k, g)
unfolding lookup
All-lookup k [] h e = absurd (cc)
All-lookup k ((j, w) ∷ d) {g} h e = elim (Bool-cases (text_eq j k)) [
  | inl same ↦
      let f : some w ≡ some g = sym (rw same refl) ∙ e in
      let same_game : w ≡ g = cc in
      subst (λ x. IsGood (k, x)) same_game
        (subst (λ x. IsGood (x, w)) ((text_eq_iff j k).0 same) h.0)
  | inr differ ↦ let f : lookup k d ≡ some g = sym (rw differ refl) ∙ e in All-lookup k d h.1 f
]

module _ {W : Type 0} (platform : Platform) (context : Context W)
    (v : Validator context.stream) where
  -- What a transaction about a name has done, by the change that it stands for.
  pub data Effect (name : Text) (w : W) : Change → Result (Unit {0}) × Run W → Type 0 where
    changed :
        (o : Option Game) (s' : Run W)
        → Updated platform context v name o w s'
        → Effect name w (ok o) (ok tt, s')
    refused : (e : Exc) (s' : Run W) → s'.world ≡ w → Effect name w (raised e) (raised e, s')

  pub IsGood-found :
      (name : Text) (g : Game) (s : Run W)
      → IsSound platform context v s
      → found platform context v s.world name ≡ some g
      → IsGood (name, g)
  unfolding found
  IsGood-found name g s sound e =
      All-lookup name (games_at platform context v s.world name)
        (IsTable-at platform context v name s sound).good e

  abbrev Answer : Text → Run W → Change → Result (Unit {0}) × Run W → Type 0
  Answer name s c out = Effect name s.world c out

  create_lem :
      (name space : Text) (s s1 : Run W) (o : Option Game)
      → IsPlain name
      → s1.world ≡ s.world
      → IsSound platform context v s1
      → Answer name s
          (change [] (create name space) o)
          (create_found platform context (payload_of (create name space)) o s1)
  unfolding create_found
  create_lem name space s s1 (some g) plain w sound = refused _ s1 w
  create_lem name space s s1 none plain w sound =
      let (s2, e, u) =
        set_game_lem platform context v name (new_game name) s1 (new_game-IsGood name plain)
          sound in
      rw e (
        changed (some (new_game name)) s2
          (subst (λ x. Updated platform context v name (some (new_game name)) x s2) w u))

  delete_lem :
      (name space : Text) (s s1 : Run W) (o : Option Game)
      → s1.world ≡ s.world
      → found platform context v s1.world name ≡ o
      → IsSound platform context v s1
      → Answer name s
          (change [] (delete name space) o)
          (delete_found platform context (payload_of (delete name space)) o s1)
  unfolding delete_found
  delete_lem name space s s1 none w there sound = refused _ s1 w
  delete_lem name space s s1 (some g) w there sound =
      let (s2, e, u) = delete_game_lem platform context v name g s1 there sound in
      rw e (changed none s2 (subst (λ x. Updated platform context v name none x s2) w u))

  take_lem :
      (signer name : Text) (k : ℕ) (s s1 : Run W) (o : Option Game)
      → is_empty signer ≡ false
      → IsPlain signer
      → k < 9
      → s1.world ≡ s.world
      → found platform context v s1.world name ≡ o
      → IsSound platform context v s1
      → Answer name s
          (change signer (take_square name k) o)
          (take_found platform context signer (payload_of (take_square name k)) o s1)
  unfolding take_found take_space
  take_lem signer name k s s1 none key plain lt w there sound = refused _ s1 w
  take_lem signer name k s s1 (some g) key plain lt w there sound =
      rw (← take_number-eq-play signer k g lt (IsGood-found name g s1 sound there).consistent)
        (played (take_number signer (pos (suc k)) g) refl)
    where
      played :
          (r : Result Game)
          → take_number signer (pos (suc k)) g ≡ r
          → Answer name s
              (then_do r (λ g'. ok (some g')))
              (continue_with r s1 (set_game platform context name))
      played (raised e) h = refused e s1 w
      played (ok g') h =
          let good =
            take_number-IsGood signer name k g key plain lt (IsGood-found name g s1 sound there)
              h in
          let (s2, e, u) = set_game_lem platform context v name g' s1 good sound in
          rw e
            (changed (some g') s2 (subst (λ x. Updated platform context v name (some g') x s2) w u))

  -- In a transaction whose cache agrees with a state that the handler has left, `create`, `delete`
  -- and `take`, of a name without separators and, for `take`, of one of the nine squares by a
  -- signer whose key is not empty and has no separator: if the rules accept the action, it raises
  -- nothing, the name then has the game that the rules give (or none, after `delete`), every other
  -- name has what it had, also one that shares the address, and state and cache agree again. If the
  -- rules refuse it, that exception is raised and the state is as it was.
  pub dispatch-Effect :
      (signer : Text) (action : Action) (s : Run W)
      → is_empty signer ≡ false
      → IsPlain signer
      → IsPlain (name_of action)
      → IsOnBoard action
      → IsSound platform context v s
      → Effect
          (name_of action)
          s.world
          (change signer action (found platform context v s.world (name_of action)))
          (dispatch platform context signer (payload_of action) s)
  unfolding dispatch text_eq
  dispatch-Effect signer (create name space) s key plain named board sound =
      let (s1, e, w, sound1) = get_game_lem platform context v name s sound in
      rw e (create_lem name space s s1 (found platform context v s.world name) named w sound1)
  dispatch-Effect signer (delete name space) s key plain named board sound =
      let (s1, e, w, sound1) = get_game_lem platform context v name s sound in
      rw e (
        delete_lem name space s s1 (found platform context v s.world name) w
          (ap (λ x. found platform context v x name) w) sound1)
  dispatch-Effect signer (take_square name k) s key plain named board sound =
      let (s1, e, w, sound1) = get_game_lem platform context v name s sound in
      rw e (
        take_lem signer name k s s1 (found platform context v s.world name) key plain board w
          (ap (λ x. found platform context v x name) w) sound1)
