-- ===== src/Xo/Rules.antt =====
-- The rules of the game, apart from the handler: what a consistent game is, and what a move does.
-- `take` of examples/xo_python/sawtooth_xo/processor/handler.py is compared with them.
pub mod Moves
pub mod Keeps
pub mod Seats
use sawtooth_sdk_python.Base.{
  ℕ, ◌+◌, ◌≡◌, Bool, true, false, not, ◌||◌, Option, none, some, List, [], ◌∷◌, if◌then◌else◌, ◌==◌,
  length, get_elem?, set, take, All,
}
use sawtooth_sdk_python.Base.Text.{Text, has, text_eq, is_empty}
use sawtooth_sdk_python.Base.Exec.{Result, ok, raised, invalid}
use sawtooth_sdk_python.Xo.Board.{p1_next, p2_next, p1_win, p2_win, tie}
use sawtooth_sdk_python.Xo.Board.Lines.{has_line}
use sawtooth_sdk_python.Xo.Board.Update.{IsCell, count}
use sawtooth_sdk_python.Xo.Game.{Game}

-- Nobody has a line yet, and there is room.
pub record IsOpen (board : Text) : Type 0 where
  pub no_x : has_line board b'X' ≡ false
  pub no_o : has_line board b'O' ≡ false
  pub room : has b'-' board ≡ true

-- How the state of a game and its board agree.
pub data Phase (state board : Text) : Type 0 where
  x_to_move :
      state ≡ p1_next → IsOpen board → count b'X' board ≡ count b'O' board → Phase state board
  o_to_move :
      state ≡ p2_next → IsOpen board → count b'X' board ≡ count b'O' board + 1 → Phase state board
  x_won :
      state ≡ p1_win
      → has_line board b'X' ≡ true
      → has_line board b'O' ≡ false
      → count b'X' board ≡ count b'O' board + 1
      → Phase state board
  o_won :
      state ≡ p2_win
      → has_line board b'O' ≡ true
      → has_line board b'X' ≡ false
      → count b'X' board ≡ count b'O' board
      → Phase state board
  tied :
      state ≡ tie
      → has_line board b'X' ≡ false
      → has_line board b'O' ≡ false
      → has b'-' board ≡ false
      → count b'X' board ≡ count b'O' board + 1
      → Phase state board

-- Nine squares of X, O and -, and a state that agrees with them.
pub record IsConsistent (g : Game) : Type 0 where
  pub nine : length g.board ≡ 9
  pub cells : All IsCell g.board
  pub phase : Phase g.state g.board

-- The mark of whoever is to move.
pub mark : Text → ℕ
mark state = if text_eq state p1_next then b'X' else b'O'

pub other_turn : Text → Text
other_turn state = if text_eq state p1_next then p2_next else p1_next

-- The state after a mark has been made by the mover of `state`.
pub judge : Text → Text → Text
unfolding other_turn
judge state board =
    if has_line board b'X'
    then p1_win
    else if has_line board b'O'
    then p2_win
    else if has b'-' board
    then other_turn state
    else tie

-- The seat of whoever is to move.
abbrev mover : Game → Text
mover g = if text_eq g.state p1_next then g.player1 else g.player2

-- A player may move where nobody else has the seat.
abbrev pub may_move : Text → Game → Bool
may_move signer g = is_empty (mover g) || text_eq (mover g) signer

-- The signer gets the first seat if it is free, and otherwise the second one if that is.
abbrev pub first_seat : Text → Game → Text
first_seat signer g = if is_empty g.player1 then signer else g.player1

abbrev pub second_seat : Text → Game → Text
second_seat signer g =
    if is_empty g.player1 then g.player2 else if is_empty g.player2 then signer else g.player2

unfoldable pub move : Text → ℕ → Game → Game
unfolding mark judge
move signer k g = record {
  name = g.name;
  board = set g.board k (mark g.state);
  state = judge g.state (set g.board k (mark g.state));
  player1 = first_seat signer g;
  player2 = second_seat signer g;
}

abbrev is_free : Option ℕ → Bool
is_free none = false
is_free (some c) = c == b'-'

-- What a player who takes square `k`, from 0, brings about: the game is over where neither player is
-- to move.
pub play : Text → ℕ → Game → Result Game
unfolding move
play signer k g =
    if not (text_eq g.state p1_next || text_eq g.state p2_next)
    then raised (invalid "Invalid Action: Game has ended" [])
    else if not (may_move signer g)
    then raised (invalid "Not this player's turn: {}" (take 6 signer ∷ []))
    else if is_free (get_elem? g.board k)
    then ok (move signer k g)
    else raised (invalid "Invalid Action: space {} already taken" [])
