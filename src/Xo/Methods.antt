-- ===== src/Xo/Methods.antt =====
-- The methods of `XoState` on a validator whose state the handler has left, against a map from names
-- to games: they raise nothing, and change what they name.
use sawtooth_sdk_python.Base.{
  ◌≡◌, ◌⊎◌, inl, inr, refl, ap, sym, ◌∙◌, true, false, Option, none, some, [], ◌∷◌, if◌then◌else◌,
  Bool-cases, Option-cases,
}
use sawtooth_sdk_python.Base.Text.{Text, Bytes, is_empty, text_eq, text_eq_iff}
use sawtooth_sdk_python.Base.Dict.{Dict, lookup, insert, lookup-insert}
use sawtooth_sdk_python.Base.Exec.{Result, ok}
use sawtooth_sdk_python.Base.Platform.{Platform}
use sawtooth_sdk_python.Processor.Context.{Context}
use sawtooth_sdk_python.Processor.Validator.{Validator, get_state_one}
use sawtooth_sdk_python.Xo.Game.{Game, deserialize}
use sawtooth_sdk_python.Xo.State.{Run, timeout, make_xo_address, cached_games, load_games}
use sawtooth_sdk_python.Xo.Stored.{IsWritten, games_of, read_written}

abbrev pub bytes_of : Option Bytes → Bytes
bytes_of none = []
bytes_of (some d) = d

is_empty-eq : (bytes : Bytes) → is_empty bytes ≡ true → [] ≡ bytes
unfolding is_empty
is_empty-eq [] h = refl
is_empty-eq (b ∷ bytes) h = absurd (cc)

-- A cache entry that agrees with written bytes is read as they are.
cached_games-agree :
    (platform : Platform) (c : Option Bytes) (bytes : Bytes)
    → IsWritten platform bytes
    → bytes_of c ≡ bytes
    → cached_games platform c ≡ ok (games_of platform bytes)
unfolding cached_games games_of is_empty
cached_games-agree platform none bytes w h = rw (← h) refl
cached_games-agree platform (some b) bytes w h = rw h (read_written platform bytes w).0

module _ {W : Type 0} (platform : Platform) (context : Context W)
    (v : Validator context.stream) where
  -- The bytes in the state were left by the handler.
  pub record IsLedger (w : W) : Type 0 where
    pub at : (a : Text) → IsWritten platform (v.contents w a)

  -- The cache of the transaction agrees with the state, besides.
  pub record IsSound (s : Run W) : Type 0 where
    pub ledger : IsLedger s.world
    pub agrees :
        (a : Text) (c : Option Bytes)
        → lookup a s.address_cache ≡ some c
        → bytes_of c ≡ v.contents s.world a

  abbrev pub address : Text → Text
  address name = make_xo_address platform name

  abbrev pub games_at : W → Text → Dict Game
  games_at w name = games_of platform (v.contents w (address name))

  -- The game that the state holds under a name.
  unfoldable pub found : W → Text → Option Game
  found w name = lookup name (games_at w name)

  -- A cache entry that agrees with the state keeps the cache sound.
  pub cache-agrees :
      (s : Run W) (a : Text) (c : Option Bytes) (w : W)
      → bytes_of c ≡ v.contents w a
      → ((b : Text) → text_eq a b ≡ false → v.contents w b ≡ v.contents s.world b)
      → IsSound s
      → (b : Text) (d : Option Bytes) → lookup b (insert a c s.address_cache) ≡ some d
      → bytes_of d ≡ v.contents w b
  cache-agrees s a c w here there sound b d e =
      pick (Bool-cases (text_eq a b)) (sym (lookup-insert a b c s.address_cache) ∙ e)
    where
      pick :
          (text_eq a b ≡ true) ⊎ (text_eq a b ≡ false)
          → (if text_eq a b then some c else lookup b s.address_cache) ≡ some d
          → bytes_of d ≡ v.contents w b
      pick (inl same) f =
          let f' : some c ≡ some d = sym (rw same refl) ∙ f in
          let g : c ≡ d = cc in
          sym (ap bytes_of g) ∙ here ∙ ap (v.contents w) ((text_eq_iff a b).0 same)
      pick (inr other) f =
          let f' : lookup b s.address_cache ≡ some d = sym (rw other refl) ∙ f in
          sound.agrees b d f' ∙ sym (there b other)

  -- In a transaction whose cache agrees with a state that the handler has left, `_load_games` raises
  -- nothing and returns the games that the state holds at the name's address; it leaves the state as
  -- it is, and the cache in agreement with it.
  pub load_games_lem :
      (name : Text) (s : Run W)
      → IsSound s
      → (s' : Run W) × (load_games platform context name s ≡ (ok (games_at s.world name), s'))
        × (s'.world ≡ s.world)
        × IsSound s'
  unfolding load_games cached_games
  load_games_lem name s sound = split (Option-cases (lookup (address name) s.address_cache))
    where
      bytes : Bytes
      bytes = v.contents s.world (address name)

      written : IsWritten platform bytes
      written = sound.ledger.at (address name)

      kept : Option Bytes → Run W
      kept c = record s { address_cache = insert (address name) c s.address_cache }

      sound_with : (c : Option Bytes) → bytes_of c ≡ bytes → IsSound (kept c)
      sound_with c h = record {
        ledger = sound.ledger;
        agrees = cache-agrees s (address name) c s.world h (λ b differ. refl) sound;
      }

      decoded : is_empty bytes ≡ false → deserialize platform bytes ≡ ok (games_of platform bytes)
      decoded there =
          sym (rw there refl) ∙ cached_games-agree platform (some bytes) bytes written refl

      split :
          (lookup (address name) s.address_cache ≡ none)
            ⊎ ((c : Option Bytes) × (lookup (address name) s.address_cache ≡ some c))
          → (s' : Run W) × (load_games platform context name s ≡ (ok (games_at s.world name), s'))
            × (s'.world ≡ s.world)
            × IsSound s'
      split (inl e) = elim (Bool-cases (is_empty bytes)) [
        | inl none_there ↦ (
          kept none,
          rw (e, load_games)
              (rw (get_state_one context v (address name) timeout s.world) (
                rw none_there (
                  ap {B = Result (Dict Game) × Run W} (λ r. (r, kept none))
                    (cached_games-agree platform none bytes written
                      (is_empty-eq bytes none_there))))),
          refl,
          sound_with none (is_empty-eq bytes none_there),
        )
        | inr there ↦ (
          kept (some bytes),
          rw (e, load_games)
              (rw (get_state_one context v (address name) timeout s.world) (
                rw there (
                  ap {B = Result (Dict Game) × Run W} (λ r. (r, kept (some bytes)))
                    (decoded there)))),
          refl,
          sound_with (some bytes) refl,
        )
      ]
      split (inr (c, e)) = (
        s,
        rw (e, load_games)
            (ap {B = Result (Dict Game) × Run W} (λ r. (r, s))
              (cached_games-agree platform c bytes written (sound.agrees (address name) c e))),
        refl,
        sound,
      )
