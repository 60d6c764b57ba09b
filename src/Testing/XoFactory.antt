-- ===== src/Testing/XoFactory.antt =====
-- examples/xo_python/sawtooth_xo/xo_message_factory.py: the messages that the tests of xo are written
-- with.
use sawtooth_sdk_python.Base.{Option, none, some, [], ◌∷◌, ◌++◌, take}
use sawtooth_sdk_python.Base.Text.{Text, Bytes, codes}
use sawtooth_sdk_python.Base.Text.Split.{join}
use sawtooth_sdk_python.Base.Exec.{Exec, Result}
use sawtooth_sdk_python.Base.Platform.{Platform}
use sawtooth_sdk_python.Signing.Signer.{Signer}
use sawtooth_sdk_python.Batch.Messages.{Proto, Transaction}
use sawtooth_sdk_python.Testing.Factory.{
  MessageFactory, TestRequest, StateMessage, create_transaction, create_tp_process_request,
  create_get_request, create_get_response, create_set_request, create_set_response,
}

-- `XoMessageFactory.__init__`
unfoldable pub xo_factory : Platform → MessageFactory
xo_factory platform = record {
  family_name = codes "xo";
  family_version = codes "1.0";
  namespaces = take 6 (platform.sha512_hexdigest (platform.encode (codes "xo"))) ∷ [];
}

-- `namespace`, of the list that `MessageFactory.__init__` makes of one text
abbrev pub namespace : MessageFactory → Text
namespace factory = elim factory.namespaces [ [] ↦ [] | prefix ∷ rest ↦ prefix ]

-- `_game_to_address`
unfoldable pub game_to_address : Platform → Text → Text
unfolding xo_factory
game_to_address platform game =
    namespace (xo_factory platform) ++ take 64 (platform.sha512_hexdigest (platform.encode game))

-- `str(space)`
abbrev pub space_text : Option Text → Text
space_text none = codes "None"
space_text (some space) = space

-- The payload of `_create_txn`
unfoldable pub txn_payload : Platform → Text → Text → Option Text → Bytes
txn_payload platform game action space =
    platform.encode (join b',' (game ∷ action ∷ space_text space ∷ []))

module _ (platform : Platform) (proto : Proto) {Private Public : Type 0} where
  -- `create_tp_process_request` and `create_transaction`, by `_create_txn`
  unfoldable pub process_request :
      Text → Text → Option Text → Text → Exec (Signer Private Public) TestRequest
  unfolding txn_payload game_to_address xo_factory
  process_request action game space nonce =
      let addresses = game_to_address platform game ∷ [] in
      create_tp_process_request (xo_factory platform) platform proto
        (txn_payload platform game action space) addresses addresses [] (some nonce)

  unfoldable pub transaction :
      Text → Text → Option Text → Text → Exec (Signer Private Public) Transaction
  unfolding txn_payload game_to_address xo_factory
  transaction game action space nonce =
      let addresses = game_to_address platform game ∷ [] in
      create_transaction (xo_factory platform) platform proto
        (txn_payload platform game action space) addresses addresses [] nonce none

module _ (platform : Platform) where
  -- The data of a game
  unfoldable pub game_data : (game board state player1 player2 : Text) → Bytes
  game_data game board state player1 player2 =
      platform.encode (join b',' (game ∷ board ∷ state ∷ player1 ∷ player2 ∷ []))

  unfoldable pub get_request : Text → Result StateMessage
  unfolding game_to_address
  get_request game = create_get_request (game_to_address platform game ∷ [])

  -- `create_get_response`; the data is None where the board is.
  unfoldable pub get_response :
      Text → Option Text → (state player1 player2 : Text) → Result StateMessage
  unfolding game_to_address game_data
  get_response game none state player1 player2 =
      create_get_response ((game_to_address platform game, none) ∷ [])
  get_response game (some board) state player1 player2 =
      create_get_response
        ((game_to_address platform game, some (game_data game board state player1 player2)) ∷ [])

  -- `create_set_request`; the data is None where the state is.
  unfoldable pub set_request :
      Text → Text → Option Text → (player1 player2 : Text) → Result StateMessage
  unfolding game_to_address game_data
  set_request game board none player1 player2 =
      create_set_request ((game_to_address platform game, none) ∷ [])
  set_request game board (some state) player1 player2 =
      create_set_request
        ((game_to_address platform game, some (game_data game board state player1 player2)) ∷ [])

  unfoldable pub set_response : Text → Result StateMessage
  unfolding game_to_address
  set_response game = create_set_response (game_to_address platform game ∷ [])
