-- ===== src/Client/Commands.antt =====
-- examples/xo_python/sawtooth_xo/xo_cli.py: the subcommands of `xo`, after their arguments have been
-- parsed. What is printed is the state: a list of lines.
use sawtooth_sdk_python.Base.{
  ℕ, zero, suc, ◌+◌, ◌-◌, Option, none, some, List, [], ◌∷◌, ◌++◌, get_elem?, length, take,
  if◌then◌else◌, ◌==◌,
}
use sawtooth_sdk_python.Base.Text.{Text, Bytes, codes, text_eq}
use sawtooth_sdk_python.Base.Text.Split.{split}
use sawtooth_sdk_python.Base.Dict.{Dict, lookup, insert}
use sawtooth_sdk_python.Base.Exec.{
  Exec, Result, ok, raised, then_do, pure, raise, lift, ◌>>=◌, ◌>>◌, message, xo_exception,
  value_error, key_error, index_error, type_error, decode_error, continue_with,
}
use sawtooth_sdk_python.Base.Platform.{Platform}
use sawtooth_sdk_python.Xo.Game.{Game, game_of}
use sawtooth_sdk_python.Batch.Messages.{Proto}
use sawtooth_sdk_python.Client.Rest.{Rest}
use sawtooth_sdk_python.Client.Xo.{XoClient, auth_headers, create, delete, take_space, list, show}

-- The arguments; `prompted` is what `getpass` would return, `user` and `home` what the system says.
pub record Args : Type 0 where
  pub command : Text
  pub name : Text
  pub space : Text
  pub url : Option Text
  pub username : Option Text
  pub auth_user : Option Text
  pub auth_password : Option Text
  pub wait : Option ℕ
  pub prompted : Text
  pub user : Text
  pub home : Text

-- `_get_url`
unfoldable pub get_url : Args → Text
get_url args = elim args.url [ none ↦ codes "http://127.0.0.1:8008" | some url ↦ url ]

-- `_get_keyfile`
unfoldable pub get_keyfile : Args → Text
get_keyfile args =
    let username : Text = elim args.username [ none ↦ args.user | some name ↦ name ] in
    args.home ++ codes "/.sawtooth/keys/" ++ username ++ codes ".priv"

-- `_get_auth_info`
unfoldable pub get_auth_info : Args → Option Text × Option Text
get_auth_info args = elim args.auth_password [
  | some password ↦ (args.auth_user, some password)
  | none ↦ elim args.auth_user [ none ↦ (none, none) | some user ↦ (some user, some args.prompted) ]
]

abbrev Lines : Type 0
Lines = List Text

-- `print`
unfoldable pub print : Text → Exec Lines (Unit {0})
print line out = (ok tt, out ++ line ∷ [])

-- `data.decode().split('|')`
unfoldable pub game_texts : Platform → Bytes → Result (List Text)
game_texts platform bytes = elim (platform.decode bytes) [
  | none ↦ raised decode_error
  | some text ↦ ok (split b'|' text)
]

-- The five fields of each text, in a dict by their names
unfoldable pub read_rows : Dict Game → List Text → Result (Dict Game)
unfolding game_of
read_rows games [] = ok games
read_rows games (text ∷ texts) = elim (game_of (split b',' text)) [
  | none ↦ raised value_error
  | some game ↦ read_rows (insert game.name game games) texts
]

-- `list(board_str.replace("-", " "))`
abbrev pub symbol : ℕ → ℕ
symbol c = if c == b'-' then b' ' else c

-- A line of the board, from its square `i` on
abbrev pub row_line : (a b c : ℕ) → Text
row_line a b c =
    codes "  " ++ (symbol a ∷ []) ++ codes " | " ++ (symbol b ∷ []) ++ codes " | " ++ symbol c ∷ []

unfoldable pub square : Text → ℕ → Result ℕ
square board i = elim (get_elem? board i) [ none ↦ raised index_error | some c ↦ ok c ]

unfoldable pub print_row : Text → ℕ → Exec Lines (Unit {0})
unfolding square print
print_row board i = do
  a ← lift (square board i)
  b ← lift (square board (i + 1))
  c ← lift (square board (i + 2))
  print (row_line a b c)

-- What `do_show` prints of a game
unfoldable pub print_game : Text → Game → Exec Lines (Unit {0})
unfolding print_row print
print_game name g = do
  print (codes "GAME:     : " ++ name)
  print (codes "PLAYER 1  : " ++ take 6 g.player1)
  print (codes "PLAYER 2  : " ++ take 6 g.player2)
  print (codes "STATE     : " ++ g.state)
  print []
  print_row g.board 0
  print (codes " ---|---|---")
  print_row g.board 3
  print (codes " ---|---|---")
  print_row g.board 6
  print []

abbrev pub found_game : Text → Option Game → Result Game
found_game name none = raised key_error
found_game name (some g) = ok g

-- `do_show` once the client has answered
unfoldable pub show_game : Platform → Text → Option Bytes → Exec Lines (Unit {0})
unfolding game_texts read_rows print_game
show_game platform name none = raise (xo_exception (message "Game not found: {}" (name ∷ [])))
show_game platform name (some bytes) = do
  texts ← lift (game_texts platform bytes)
  games ← lift (read_rows [] texts)
  game ← lift (found_game name (lookup name games))
  print_game name game

-- `%-15s`, and `%-15.15s`
abbrev spaces : ℕ → Text
spaces zero = []
spaces (suc n) = b' ' ∷ spaces n

abbrev padded : ℕ → Text → Text
padded n t = t ++ spaces (n - length t)

abbrev list_line : (game player1 player2 board state : Text) → Text
list_line game player1 player2 board state =
    padded 15 game
    ++ codes " "
    ++ padded 15 (take 15 player1)
    ++ codes " "
    ++ padded 15 (take 15 player2)
    ++ codes " "
    ++ padded 9 board
    ++ codes " "
    ++ state

-- The loop of `do_list`
unfoldable pub print_games : List Text → Exec Lines (Unit {0})
unfolding game_of print
print_games [] = pure tt
print_games (text ∷ texts) = elim (game_of (split b',' text)) [
  | none ↦ raise value_error
  | some g ↦ do
    print (list_line g.name (take 6 g.player1) (take 6 g.player2) g.board g.state)
    print_games texts
]

-- The comprehension of `do_list`
unfoldable pub all_texts : Platform → List Bytes → Result (List Text)
unfolding game_texts
all_texts platform [] = ok []
all_texts platform (bytes ∷ rest) =
    then_do (game_texts platform bytes)
      (λ texts. then_do (all_texts platform rest) (λ more. ok (texts ++ more)))

-- `do_list` once the client has answered: None cannot be iterated, so that the test of the list for
-- None comes too late.
unfoldable pub list_games : Platform → Option (List Bytes) → Exec Lines (Unit {0})
unfolding all_texts print_games
list_games platform none = raise type_error
list_games platform (some entries) = do
  texts ← lift (all_texts platform entries)
  print (
      list_line (codes "GAME") (codes "PLAYER 1") (codes "PLAYER 2") (codes "BOARD")
        (codes "STATE"))
  print_games texts

abbrev print_response : Text → Exec Lines (Unit {0})
print_response answer = print (codes "Response: " ++ answer)

module _ (platform : Platform) {W Private Public : Type 0} (rest : Rest W) (proto : Proto) where
  -- A call of the client, and then the terminal.
  abbrev with_client :
      {A B : Type 0}
      → Exec (XoClient W Private Public) A
      → (A → Exec Lines B)
      → Exec (XoClient W Private Public × Lines) B
  with_client m f (client, out) =
      let (r, client') = m client in let (s, out') = continue_with r out f in (s, (client', out'))

  -- `main` after the arguments have been parsed: `do_create`, `do_list`, `do_show`, `do_take` and
  -- `do_delete`, of a client for `get_url` and, but for list and show, the key of `get_keyfile`
  unfoldable pub run_command :
      Args
      → (nonce : Text) → (elapsed : List ℕ) → Exec (XoClient W Private Public × Lines) (Unit {0})
  unfolding get_auth_info print show_game list_games
  run_command args nonce elapsed =
      let (user, password) = get_auth_info args in
      let auth = auth_headers platform rest user password in
      if text_eq args.command (codes "create")
      then with_client (create platform rest proto args.name nonce auth args.wait elapsed)
          print_response
      else if text_eq args.command (codes "list")
      then with_client (list platform rest proto auth) (list_games platform)
      else if text_eq args.command (codes "show")
      then with_client (show platform rest proto args.name auth) (show_game platform args.name)
      else if text_eq args.command (codes "take")
      then with_client
          (take_space platform rest proto args.name args.space nonce auth args.wait elapsed)
          print_response
      else if text_eq args.command (codes "delete")
      then with_client (delete platform rest proto args.name nonce auth args.wait elapsed)
          print_response
      else raise (xo_exception (message "invalid command: {}" (args.command ∷ [])))
