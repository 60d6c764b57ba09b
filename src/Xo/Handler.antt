-- ===== src/Xo/Handler.antt =====
-- examples/xo_python/sawtooth_xo/processor/handler.py: `XoTransactionHandler.apply`. The messages
-- for the log are not modelled.
use sawtooth_sdk_python.Base.{
  Bool, not, ◌&&◌, ◌||◌, Option, none, some, List, [], ◌∷◌, if◌then◌else◌, ◌==◌, take,
}
use sawtooth_sdk_python.Base.Text.{Text, Bytes, codes, text_eq, is_empty}
use sawtooth_sdk_python.Base.Exec.{
  Exec, Result, ok, raised, raise, lift, ◌>>=◌, invalid, then_do, type_error,
}
use sawtooth_sdk_python.Base.Int.{ℤ}
use sawtooth_sdk_python.Base.Platform.{Platform}
use sawtooth_sdk_python.Processor.Context.{Context}
use sawtooth_sdk_python.Xo.Payload.{Space, raw, number, XoPayload, from_bytes}
use sawtooth_sdk_python.Xo.Board.{
  p1_next, p2_next, p1_win, p2_win, tie, item, index_of, update_board, update_game_state,
}
use sawtooth_sdk_python.Xo.Game.{Game}
use sawtooth_sdk_python.Xo.State.{Run, xo_namespace, get_game, set_game, delete_game}

-- The header and the payload of a TpProcessRequest, as far as the handlers read them.
pub record Transaction : Type 0 where
  pub signer_public_key : Text
  pub payload : Bytes

abbrev pub family_name : Text
family_name = codes "xo"

abbrev pub family_versions : List Text
family_versions = codes "1.0" ∷ []

unfoldable pub namespaces : Platform → List Text
unfolding xo_namespace
namespaces platform = xo_namespace platform ∷ []

-- `game.state in ('P1-WIN', 'P2-WIN', 'TIE')`
unfoldable pub has_ended : Text → Bool
has_ended state = text_eq state p1_win || text_eq state p2_win || text_eq state tie

unfoldable pub not_this_turn : Text → Game → Bool
not_this_turn signer game =
    (not (is_empty game.player1) && text_eq game.state p1_next && not (text_eq game.player1 signer))
    || (not (is_empty game.player2)
        && text_eq game.state p2_next
        && not (text_eq game.player2 signer))

-- The two assignments to `game.player1` and `game.player2`
unfoldable pub seat : Text → Game → Game
seat signer game =
    if is_empty game.player1
    then record game { player1 = signer }
    else if is_empty game.player2
    then record game { player2 = signer }
    else game

-- The branch `take` between `get_game` and `set_game`, at a game and a space that is a number. The
-- message of a taken space shows the payload object, which has no text of its own.
unfoldable pub take_number : Text → ℤ → Game → Result Game
unfolding has_ended not_this_turn seat
take_number signer space game =
    if has_ended game.state
    then raised (invalid "Invalid Action: Game has ended" [])
    else if not_this_turn signer game
    then raised (invalid "Not this player's turn: {}" (take 6 signer ∷ []))
    else then_do (item game.board (index_of space)) (λ square.
      if not (square == b'-')
      then raised (invalid "Invalid Action: space {} already taken" [])
      else then_do (update_board (seat signer game).board space (seat signer game).state) (λ board.
        then_do (update_game_state (seat signer game).state board)
          (λ state. ok (record (seat signer game) { board = board; state = state }))))

-- At a text, `xo_payload.space - 1` raises TypeError, after the checks that come before it.
unfoldable pub take_space : Text → Space → Game → Result Game
unfolding take_number
take_space signer (number n) game = take_number signer n game
take_space signer (raw text) game =
    if has_ended game.state
    then raised (invalid "Invalid Action: Game has ended" [])
    else if not_this_turn signer game
    then raised (invalid "Not this player's turn: {}" (take 6 signer ∷ []))
    else raised type_error

-- The game that `create` stores
unfoldable pub new_game : Text → Game
new_game name = record {
  name = name;
  board = codes "---------";
  state = p1_next;
  player1 = [];
  player2 = [];
}

module _ {W : Type 0} (platform : Platform) (context : Context W) where
  -- The three branches, at what `get_game` returned.
  unfoldable pub delete_found : XoPayload → Option Game → Exec (Run W) (Unit {0})
  delete_found p none = raise (invalid "Invalid action: game does not exist" [])
  delete_found p (some game) = delete_game platform context p.name

  unfoldable pub create_found : XoPayload → Option Game → Exec (Run W) (Unit {0})
  create_found p (some game) =
      raise (invalid "Invalid action: Game already exists: {}" (p.name ∷ []))
  create_found p none = set_game platform context p.name (new_game p.name)

  unfoldable pub take_found : Text → XoPayload → Option Game → Exec (Run W) (Unit {0})
  take_found signer p none = raise (invalid "Invalid action: Take requires an existing game" [])
  take_found signer p (some game) = do
    taken ← lift (take_space signer p.space game)
    set_game platform context p.name taken

  -- The dispatch on `xo_payload.action`
  unfoldable pub dispatch : Text → XoPayload → Exec (Run W) (Unit {0})
  unfolding delete_found create_found take_found
  dispatch signer p =
      if text_eq p.action (codes "delete")
      then (do found ← get_game platform context p.name; delete_found p found)
      else if text_eq p.action (codes "create")
      then (do found ← get_game platform context p.name; create_found p found)
      else if text_eq p.action (codes "take")
      then (do found ← get_game platform context p.name; take_found signer p found)
      else raise (invalid "Unhandled action: {}" (p.action ∷ []))

  -- `apply`, whose `XoState` starts with an empty cache
  unfoldable pub apply : Transaction → Exec W (Unit {0})
  unfolding dispatch
  apply transaction w =
      let (r, s) =
        (do
          p ← lift (from_bytes platform transaction.payload)
          dispatch transaction.signer_public_key p)
          (record { world = w; address_cache = [] }) in
      (r, s.world)
