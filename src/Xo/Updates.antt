-- ===== src/Xo/Updates.antt =====
-- The methods of `XoState` that write, against a map from names to games.
use sawtooth_sdk_python.Base.{
  subst, ◌≡◌, inl, inr, refl, ap, sym, ◌∙◌, true, false, Option, none, some, [], ◌∷◌, if◌then◌else◌,
  Bool-cases,
}
use sawtooth_sdk_python.Base.Text.{Text, is_empty, text_eq, text_eq_iff}
use sawtooth_sdk_python.Base.Dict.{Dict, lookup, member, insert, erase, lookup-insert, lookup-erase}
use sawtooth_sdk_python.Base.Exec.{ok}
use sawtooth_sdk_python.Base.Platform.{Platform}
use sawtooth_sdk_python.Processor.Context.{Context}
use sawtooth_sdk_python.Processor.Validator.{Validator}
use sawtooth_sdk_python.Xo.Game.{Game}
use sawtooth_sdk_python.Xo.Good.{IsGood}
use sawtooth_sdk_python.Xo.Methods.{IsSound, games_at, found, load_games_lem}
use sawtooth_sdk_python.Xo.State.{
  Run, make_xo_address, load_games, get_game, set_game, store_or_delete, delete_game,
}
use sawtooth_sdk_python.Xo.Stored.{IsTable, read_written}
use sawtooth_sdk_python.Xo.Tables.{insert-ne-nil, insert-IsTable, erase-IsTable}
use sawtooth_sdk_python.Xo.Writes.{Written, store_game_lem, delete_address_lem}

module _ {W : Type 0} (platform : Platform) (context : Context W)
    (v : Validator context.stream) where
  -- After an update of one name, no other name has another game than before.
  pub record Updated (name : Text) (o : Option Game) (w : W) (s' : Run W) : Type 0 where
    pub sound : IsSound platform context v s'
    pub games :
        (k : Text)
        → found platform context v s'.world k
          ≡ (if text_eq name k then o else found platform context v w k)

  updated :
      (name : Text) (o : Option Game) (d : Dict Game) (w : W) (s' : Run W)
      → ((k : Text)
          → lookup k d
            ≡ (if text_eq name k then o else lookup k (games_at platform context v w name)))
      → Written platform context v name d w s'
      → Updated name o w s'
  unfolding found
  updated name o d w s' h u = record {
    sound = u.sound;
    games = λ k.
        u.games k
        ∙ elim (Bool-cases (text_eq (make_xo_address platform name) (make_xo_address platform k))) [
          | inl e ↦
              let same =
                (text_eq_iff (make_xo_address platform name) (make_xo_address platform k)).0 e in
              rw e (h k ∙ rw same refl)
          | inr e ↦ rw (e, differ k e) refl
        ];
  }
    where
      differ :
          (k : Text)
          → text_eq (make_xo_address platform name) (make_xo_address platform k) ≡ false
          → text_eq name k ≡ false
      differ k e = elim (Bool-cases (text_eq name k)) [
        | inl same ↦
            let t =
              (text_eq_iff (make_xo_address platform name) (make_xo_address platform k)).1
                (ap (make_xo_address platform) ((text_eq_iff name k).0 same)) in
            cc
        | inr other ↦ other
      ]

  pub IsTable-at :
      (name : Text) (s : Run W)
      → IsSound platform context v s
      → IsTable (games_at platform context v s.world name)
  IsTable-at name s sound =
      (read_written platform (v.contents s.world (make_xo_address platform name))
        (sound.ledger.at (make_xo_address platform name))).1

  -- `get_game` finds what the state holds.
  pub get_game_lem :
      (name : Text) (s : Run W)
      → IsSound platform context v s
      → (s' : Run W) × (get_game platform context name s
          ≡ (ok (found platform context v s.world name), s'))
        × (s'.world ≡ s.world)
        × IsSound platform context v s'
  unfolding get_game found
  get_game_lem name s sound =
      let (s1, e, w, sound1) = load_games_lem platform context v name s sound in
      (s1, rw (e, get_game) refl, w, sound1)

  -- `set_game` of a game that may be stored raises nothing, and the name then has this game.
  pub set_game_lem :
      (name : Text) (g : Game) (s : Run W)
      → IsGood (name, g)
      → IsSound platform context v s
      → (s' : Run W) × (set_game platform context name g s ≡ (ok tt, s'))
        × Updated name (some g) s.world s'
  unfolding set_game
  set_game_lem name g s good sound =
      let (s1, e, w, sound1) = load_games_lem platform context v name s sound in
      let games = games_at platform context v s.world name in
      let (s2, f, u) =
        store_game_lem platform context v name (insert name g games) s1 (insert-ne-nil name g games)
          (insert-IsTable name g games good (IsTable-at name s sound)) sound1 in
      (
        s2,
        rw (e, set_game) f,
        updated name (some g) (insert name g games) s.world s2 (λ k. lookup-insert name k g games)
            (subst (λ x. Written platform context v name (insert name g games) x s2) w u),
      )

  delete_game-there :
      (name : Text) (games : Dict Game) (g : Game) (s s1 : Run W)
      → lookup name games ≡ some g
      → load_games platform context name s ≡ (ok games, s1)
      → delete_game platform context name s
        ≡ store_or_delete platform context name (erase name games) s1
  unfolding delete_game member
  delete_game-there name games g s s1 there e =
      rw (e, delete_game) (let m : member name games ≡ true = rw (there, member) refl in rw m refl)

  -- `delete_game` of a game that is there raises nothing, and the name then has no game.
  pub delete_game_lem :
      (name : Text) (g : Game) (s : Run W)
      → found platform context v s.world name ≡ some g
      → IsSound platform context v s
      → (s' : Run W) × (delete_game platform context name s ≡ (ok tt, s'))
        × Updated name none s.world s'
  unfolding store_or_delete is_empty found
  delete_game_lem name g s there sound =
      let (s1, e, w, sound1) = load_games_lem platform context v name s sound in
      rw (delete_game-there name games g s s1 there e) (finish s1 w sound1 (erase name games) refl)
    where
      games : Dict Game
      games = games_at platform context v s.world name

      lookups :
          (k : Text)
          → lookup k (erase name games) ≡ (if text_eq name k then none else lookup k games)
      lookups k = lookup-erase name k games (IsTable-at name s sound).keyed

      finish :
          (s1 : Run W)
          → s1.world ≡ s.world
          → IsSound platform context v s1
          → (d : Dict Game) → erase name games ≡ d
          → (s' : Run W) × (store_or_delete platform context name d s1 ≡ (ok tt, s'))
            × Updated name none s.world s'
      finish s1 w sound1 [] e =
          let (s2, f, u) = delete_address_lem platform context v name s1 sound1 in
          (
            s2,
            f,
            updated name none [] s.world s2 (λ k. sym (ap (lookup k) e) ∙ lookups k)
                (subst (λ x. Written platform context v name [] x s2) w u),
          )
      finish s1 w sound1 (entry ∷ d) e =
          let (s2, f, u) =
            store_game_lem platform context v name (entry ∷ d) s1 (λ h. absurd (cc))
              (subst IsTable e (erase-IsTable name games (IsTable-at name s sound))) sound1 in
          (
            s2,
            f,
            updated name none (entry ∷ d) s.world s2 (λ k. sym (ap (lookup k) e) ∙ lookups k)
                (subst (λ x. Written platform context v name (entry ∷ d) x s2) w u),
          )
