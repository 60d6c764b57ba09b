-- ===== src/Xo/Game.antt =====
-- examples/xo_python/sawtooth_xo/processor/xo_state.py: games, and their text in the state.
pub mod Sorting
pub mod RoundTrip
use sawtooth_sdk_python.Base.{
  ℕ, Bool, true, false, Option, none, some, List, [], ◌∷◌, if◌then◌else◌,
}
use sawtooth_sdk_python.Base.Text.{Text, Bytes, text_leb}
use sawtooth_sdk_python.Base.Text.Split.{split, join}
use sawtooth_sdk_python.Base.Dict.{Dict, insert}
use sawtooth_sdk_python.Base.Exec.{Result, ok, raised, internal, then_do}
use sawtooth_sdk_python.Base.Platform.{Platform}

pub record Game : Type 0 where
  pub name : Text
  pub board : Text
  pub state : Text
  pub player1 : Text
  pub player2 : Text

abbrev pub corrupt {ℓ} : {A : Type ℓ} → Result A
corrupt = raised (internal "Failed to deserialize game data" [])

-- `name, board, state, player1, player2 = game.split(",")`
unfoldable pub game_of : List Text → Option Game
game_of (name ∷ board ∷ state ∷ player1 ∷ player2 ∷ []) =
    some
      (record { name = name; board = board; state = state; player1 = player1; player2 = player2 })
game_of _ = none

-- The loop of `_deserialize`, which fills the dict `games`.
unfoldable pub read_games : Dict Game → List Text → Result (Dict Game)
unfolding game_of
read_games games [] = ok games
read_games games (text ∷ texts) = elim (game_of (split b',' text)) [
  | none ↦ corrupt
  | some game ↦ read_games (insert game.name game games) texts
]

unfoldable pub deserialize : Platform → Bytes → Result (Dict Game)
unfolding read_games
deserialize platform bytes = elim (platform.decode bytes) [
  | none ↦ corrupt
  | some text ↦ read_games [] (split b'|' text)
]

-- `",".join([name, g.board, g.state, g.player1, g.player2])`
unfoldable pub game_str : Text × Game → Text
game_str (name, g) = join b',' (name ∷ g.board ∷ g.state ∷ g.player1 ∷ g.player2 ∷ [])

unfoldable pub game_strs : Dict Game → List Text
unfolding game_str
game_strs [] = []
game_strs (entry ∷ games) = game_str entry ∷ game_strs games

unfoldable pub insert_sorted : Text → List Text → List Text
insert_sorted t [] = t ∷ []
insert_sorted t (u ∷ us) =
    let rest = insert_sorted t us in if text_leb t u then t ∷ u ∷ us else u ∷ rest

-- `sorted(texts)`
unfoldable pub sorted : List Text → List Text
unfolding insert_sorted
sorted [] = []
sorted (t ∷ ts) = insert_sorted t (sorted ts)

unfoldable pub serialize : Platform → Dict Game → Bytes
unfolding game_strs sorted
serialize platform games = platform.encode (join b'|' (sorted (game_strs games)))
