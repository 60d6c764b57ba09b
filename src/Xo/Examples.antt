-- ===== src/Xo/Examples.antt =====
-- The theorems on examples/xo_python/sawtooth_xo/processor at games of one player or two.
use sawtooth_sdk_python.Base.{some, ℕ, ◌≡◌, ◌≢◌, refl, false, List, [], ◌∷◌, arith, All}
use sawtooth_sdk_python.Base.Ascii.{ascii}
use sawtooth_sdk_python.Base.Text.{Text, codes, has, is_empty, text_eq}
use sawtooth_sdk_python.Base.Dict.{insert, Dict, lookup, IsKeyed}
use sawtooth_sdk_python.Base.Exec.{ok}
use sawtooth_sdk_python.Base.Int.{pos}
use sawtooth_sdk_python.Processor.Validator.{memory_context, memory_laws}
use sawtooth_sdk_python.Xo.Board.{
  p2_next, item, or_index_error, index_of, update_board, replace_from, mark_of, update_game_state,
  is_win, any_line, is_line, and_then, at_square, next_state,
}
use sawtooth_sdk_python.Xo.Game.{Game, serialize, deserialize}
use sawtooth_sdk_python.Xo.Game.RoundTrip.{IsPlain, IsStorable, lookup-round_trip}
use sawtooth_sdk_python.Xo.Good.{IsGood, IsGood-IsStorable, new_game-IsGood, take_number-IsGood}
use sawtooth_sdk_python.Xo.Handler.{
  has_ended, not_this_turn, seat, Transaction, apply, take_number, new_game, dispatch,
}
use sawtooth_sdk_python.Xo.Methods.{found, IsSound, games_at, load_games_lem}
use sawtooth_sdk_python.Xo.Ledger.{create, payload_of, change, Effect, dispatch-Effect}
use sawtooth_sdk_python.Xo.History.{after, found-IsGood}
use sawtooth_sdk_python.Xo.Payload.{raw, from_bytes, three_fields, check_fields}
use sawtooth_sdk_python.Xo.Requests.{Accepted, from_bytes-Accepted}
use sawtooth_sdk_python.Base.Text.Split.{split, join}
use sawtooth_sdk_python.Processor.Context.{get_state, set_state}
use sawtooth_sdk_python.Xo.Rules.{play, IsConsistent}
use sawtooth_sdk_python.Xo.Rules.Keeps.{new_game-IsConsistent, take_number-IsConsistent}
use sawtooth_sdk_python.Xo.Rules.Moves.{take_number-eq-play}
use sawtooth_sdk_python.Xo.Rules.Seats.{Moved, new_game-IsSeated, take_number-Moved}
use sawtooth_sdk_python.Xo.State.{
  cached_games, get_game, set_game, make_xo_address, store_game, Run, load_games,
}
use sawtooth_sdk_python.Xo.Stored.{nothing, games_of}

abbrev alice : Text
alice = codes "alice"

abbrev bob : Text
bob = codes "bob"

abbrev g : Text
g = codes "g"

-- After alice has taken the middle
abbrev middle_taken : Game
middle_taken = record {
  name = g;
  board = codes "----X----";
  state = p2_next;
  player1 = alice;
  player2 = [];
}

take_middle : take_number alice (pos 5) (new_game g) ≡ ok middle_taken
unfolding take_number has_ended not_this_turn seat new_game text_eq is_empty item or_index_error
    index_of update_board replace_from mark_of update_game_state is_win any_line is_line and_then
    at_square next_state has
take_middle = refl

plain : (t : Text) → has b',' t ≡ false → has b'|' t ≡ false → IsPlain t
plain t c b = record { no_comma = c; no_bar = b }

alice-IsPlain : IsPlain alice
unfolding has
alice-IsPlain = plain alice refl refl

g-IsPlain : IsPlain g
unfolding has
g-IsPlain = plain g refl refl

alice_named : is_empty alice ≡ false
unfolding is_empty
alice_named = refl

take_number-eq-play_example : take_number bob (pos 5) middle_taken ≡ play bob 4 middle_taken
take_number-eq-play_example = take_number-eq-play bob 4 middle_taken (omega arith) (
    take_number-IsConsistent alice 4 (new_game g) (omega arith) (new_game-IsConsistent g)
      take_middle)

take_number-IsConsistent_example : IsConsistent middle_taken
take_number-IsConsistent_example =
    take_number-IsConsistent alice 4 (new_game g) (omega arith) (new_game-IsConsistent g)
      take_middle

take_number-Moved_example : Moved alice (new_game g) middle_taken
take_number-Moved_example =
    take_number-Moved alice 4 (new_game g) alice_named (omega arith) (new_game-IsConsistent g)
      (new_game-IsSeated g) take_middle

abbrev one_game : Dict Game
one_game = (g, middle_taken) ∷ []

one_game-ne-nil : one_game ≢ []
one_game-ne-nil h = cc

one_game-IsKeyed : IsKeyed one_game
unfolding lookup
one_game-IsKeyed = (refl, tt)

one_game-All : All IsStorable one_game
one_game-All = (IsGood-IsStorable (g, middle_taken) take_number-IsGood_goods, tt)
  where
    take_number-IsGood_goods : IsGood (g, middle_taken)
    take_number-IsGood_goods =
        take_number-IsGood alice g 4 (new_game g) alice_named alice-IsPlain (omega arith)
          (new_game-IsGood g g-IsPlain) take_middle

lookup-round_trip_example :
    (read : Dict Game) × (deserialize ascii (serialize ascii one_game) ≡ ok read)
    × (lookup g read ≡ lookup g one_game)
lookup-round_trip_example =
    lookup-round_trip ascii one_game g one_game-ne-nil one_game-IsKeyed one_game-All

abbrev empty_run : Run (Dict (List ℕ))
empty_run = record { world = []; address_cache = [] }

empty-IsSound : IsSound ascii memory_context memory_laws empty_run
unfolding lookup
empty-IsSound = record { ledger = record { at = λ a. nothing refl }; agrees = λ a c h. absurd (cc) }

load_games_lem_example :
    (s' : Run (Dict (List ℕ))) × (load_games ascii memory_context g empty_run
      ≡ (ok (games_at ascii memory_context memory_laws [] g), s'))
    × (s'.world ≡ [])
    × IsSound ascii memory_context memory_laws s'
load_games_lem_example = load_games_lem ascii memory_context memory_laws g empty_run empty-IsSound

dispatch-Effect_example :
    Effect ascii memory_context memory_laws g []
      (change alice (create g []) (found ascii memory_context memory_laws [] g))
      (dispatch ascii memory_context alice (payload_of (create g [])) empty_run)
dispatch-Effect_example =
    dispatch-Effect ascii memory_context memory_laws alice (create g []) empty_run alice_named
      alice-IsPlain g-IsPlain tt empty-IsSound

abbrev create_g : Transaction
create_g = record { signer_public_key = alice; payload = codes "g,create," }

create_g_read :
    from_bytes ascii create_g.payload
    ≡ ok (record { name = g; action = codes "create"; space = raw [] })
unfolding from_bytes split three_fields check_fields is_empty has text_eq
create_g_read = refl

from_bytes-Accepted_example :
    Accepted (record { name = g; action = codes "create"; space = raw [] })
from_bytes-Accepted_example = from_bytes-Accepted ascii create_g.payload create_g_read

g-found :
    found ascii memory_context memory_laws
      (after ascii memory_context memory_laws (create_g ∷ []) [])
      g
    ≡ some (new_game g)
unfolding found after apply from_bytes split three_fields check_fields is_empty has text_eq lookup
    games_of cached_games get_game load_games get_state set_game insert make_xo_address store_game
    set_state serialize join deserialize new_game
g-found = refl

found-IsGood_example : IsGood (g, new_game g)
found-IsGood_example =
    found-IsGood ascii memory_context memory_laws (create_g ∷ []) [] g (new_game g)
      (record { named = alice_named; plain = alice-IsPlain }, tt) empty-IsSound.ledger g-found
