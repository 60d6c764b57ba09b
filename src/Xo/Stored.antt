-- ===== src/Xo/Stored.antt =====
-- `XoState` on a validator whose state the handler has left: each of its methods against a map from
-- names to games.
use sawtooth_sdk_python.Base.{◌≡◌, ◌≢◌, refl, ap, sym, ◌∙◌, false, some, [], ◌∷◌, All}
use sawtooth_sdk_python.Base.Text.{Text, Bytes, is_empty}
use sawtooth_sdk_python.Base.Text.Split.{split}
use sawtooth_sdk_python.Base.Dict.{Dict, lookup, IsKeyed}
use sawtooth_sdk_python.Base.Exec.{Result, ok, raised}
use sawtooth_sdk_python.Base.Platform.{Platform}
use sawtooth_sdk_python.Xo.Game.{Game, deserialize, serialize, read_games, game_of, corrupt}
use sawtooth_sdk_python.Xo.Game.Sorting.{arrange, lookup-arrange, arrange-IsKeyed, arrange-All}
use sawtooth_sdk_python.Xo.Game.RoundTrip.{deserialize-serialize}
use sawtooth_sdk_python.Xo.Good.{IsGood, All-IsStorable}
use sawtooth_sdk_python.Xo.State.{cached_games}

-- The games of an address, in a good dict.
pub record IsTable (games : Dict Game) : Type 0 where
  pub keyed : IsKeyed games
  pub good : All IsGood games

module _ (platform : Platform) where
  pub data IsWritten (bytes : Bytes) : Type 0 where
    nothing : bytes ≡ [] → IsWritten bytes
    serialized :
        (d : Dict Game) → d ≢ [] → IsTable d → bytes ≡ serialize platform d → IsWritten bytes

  abbrev dict_of : Result (Dict Game) → Dict Game
  dict_of (ok d) = d
  dict_of (raised e) = []

  -- The dict that the bytes of an address stand for.
  unfoldable pub games_of : Bytes → Dict Game
  games_of bytes = dict_of (cached_games platform (some bytes))

  deserialize_nil : deserialize platform [] ≡ corrupt
  unfolding deserialize read_games game_of split
  deserialize_nil =
      rw (sym (ap platform.decode platform.encode_nil) ∙ platform.decode-encode [], deserialize)
        refl

  serialize-filled : (d : Dict Game) → d ≢ [] → IsTable d → is_empty (serialize platform d) ≡ false
  unfolding is_empty
  serialize-filled d ne t =
      filled (serialize platform d)
        (deserialize-serialize platform d ne t.keyed (All-IsStorable d t.good))
    where
      filled :
          (bytes : Bytes) → deserialize platform bytes ≡ ok (arrange d) → is_empty bytes ≡ false
      filled [] e = let z = deserialize_nil in cc
      filled (b ∷ bytes) e = refl

  games_of-serialize :
      (d : Dict Game)
      → d ≢ []
      → IsTable d
      → cached_games platform (some (serialize platform d)) ≡ ok (arrange d)
  unfolding cached_games
  games_of-serialize d ne t =
      rw (serialize-filled d ne t)
        (deserialize-serialize platform d ne t.keyed (All-IsStorable d t.good))

  -- Written bytes are read without an exception, as a good dict.
  pub read_written :
      (bytes : Bytes)
      → IsWritten bytes
      → (cached_games platform (some bytes) ≡ ok (games_of bytes)) × IsTable (games_of bytes)
  unfolding games_of cached_games is_empty
  read_written bytes (nothing e) = rw e (refl, record { keyed = tt; good = tt })
  read_written bytes (serialized d ne t e) = rw e (
      rw (games_of-serialize d ne t)
        (refl, record { keyed = arrange-IsKeyed d t.keyed; good = arrange-All IsGood d t.good }))

  pub lookup-games_of-serialize :
      (k : Text) (d : Dict Game)
      → d ≢ []
      → IsTable d
      → lookup k (games_of (serialize platform d)) ≡ lookup k d
  unfolding games_of
  lookup-games_of-serialize k d ne t = rw (games_of-serialize d ne t) (lookup-arrange k d t.keyed)
