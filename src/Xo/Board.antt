-- ===== src/Xo/Board.antt =====
-- examples/xo_python/sawtooth_xo/processor/handler.py: `_update_board`, `_update_game_state` and
-- `_is_win`. A board is a text, a square of it a character.
pub mod Lines
pub mod Update
use sawtooth_sdk_python.Base.{
  ℕ, zero, suc, ◌-◌, ◌+◌, ◌≡◌, Bool, true, false, not, ◌&&◌, ◌||◌, Option, none, some, List, [],
  ◌∷◌, if◌then◌else◌, ◌==◌, ltb, length, get_elem?,
}
use sawtooth_sdk_python.Base.Text.{Text, codes, text_eq, has}
use sawtooth_sdk_python.Base.Int.{ℤ, pos, negsuc}
use sawtooth_sdk_python.Base.Exec.{
  Result, ok, raised, internal, then_do, index_error, unbound_local_error,
}

abbrev pub p1_next : Text
p1_next = codes "P1-NEXT"

abbrev pub p2_next : Text
p2_next = codes "P2-NEXT"

abbrev pub p1_win : Text
p1_win = codes "P1-WIN"

abbrev pub p2_win : Text
p2_win = codes "P2-WIN"

abbrev pub tie : Text
tie = codes "TIE"

unfoldable pub or_index_error : Option ℕ → Result ℕ
or_index_error none = raised index_error
or_index_error (some c) = ok c

-- `board[i]`: a negative index counts from the end.
unfoldable pub item : Text → ℤ → Result ℕ
unfolding or_index_error
item board (pos i) = or_index_error (get_elem? board i)
item board (negsuc i) =
    if ltb i (length board)
    then or_index_error (get_elem? board (length board - 1 - i))
    else raised index_error

-- `mark` in `_update_board`: no branch binds it in any other state.
unfoldable pub mark_of : Text → Result ℕ
mark_of state =
    if text_eq state p1_next
    then ok b'X'
    else if text_eq state p2_next
    then ok b'O'
    else raised unbound_local_error

-- `square != index`
abbrev pub is_square : ℕ → ℤ → Bool
is_square square (pos i) = square == i
is_square square (negsuc i) = false

-- The comprehension over `enumerate(board)`, from the given square on; `mark` is read only at the
-- square that is replaced.
unfoldable pub replace_from : ℕ → Text → ℤ → Result ℕ → Result Text
replace_from square [] index mark = ok []
replace_from square (current ∷ board) index mark =
    let rest = replace_from (suc square) board index mark in
    then_do (if is_square square index then mark else ok current)
      (λ c. then_do rest (λ cs. ok (c ∷ cs)))

-- `space - 1`
unfoldable pub index_of : ℤ → ℤ
index_of (pos zero) = negsuc 0
index_of (pos (suc n)) = pos n
index_of (negsuc n) = negsuc (suc n)

unfoldable pub update_board : Text → ℤ → Text → Result Text
unfolding mark_of replace_from index_of
update_board board space state = replace_from 0 board (index_of space) (mark_of state)

abbrev pub Line : Type 0
Line = ℕ × ℕ × ℕ

-- The tuple `wins`, whose squares count from 1.
abbrev pub wins : List Line
wins =
    (1, 2, 3)
    ∷ (4, 5, 6)
    ∷ (7, 8, 9)
    ∷ (1, 4, 7)
    ∷ (2, 5, 8)
    ∷ (3, 6, 9)
    ∷ (1, 5, 9)
    ∷ (3, 5, 7)
    ∷ []

-- `board[n - 1] == letter`, for a square of `wins`
unfoldable pub at_square : Text → ℕ → ℕ → Result Bool
unfolding or_index_error
at_square board n letter =
    then_do (or_index_error (get_elem? board (n - 1))) (λ c. ok (c == letter))

-- `a and b`: the right side is evaluated only if the left side is true.
unfoldable pub and_then : Result Bool → Result Bool → Result Bool
and_then m n = then_do m (λ b. if b then n else ok false)

unfoldable pub is_line : Text → ℕ → Line → Result Bool
unfolding at_square and_then
is_line board letter (i, j, k) =
    and_then (and_then (at_square board i letter) (at_square board j letter))
      (at_square board k letter)

-- The loop over `wins`, with its early return.
unfoldable pub any_line : Text → ℕ → List Line → Result Bool
unfolding is_line
any_line board letter [] = ok false
any_line board letter (line ∷ lines) =
    let rest = any_line board letter lines in
    then_do (is_line board letter line) (λ b. if b then ok true else rest)

unfoldable pub is_win : Text → ℕ → Result Bool
unfolding any_line
is_win board letter = any_line board letter wins

-- The tests of `_update_game_state` after the two calls of `_is_win`. The source spells the states
-- of its last test 'P1-WINS' and 'P2-WINS'.
unfoldable pub next_state : Bool → Bool → Text → Text → Result Text
next_state x_wins o_wins game_state board =
    if x_wins && o_wins
    then raised (internal "Two winners (there can be only one)" [])
    else if x_wins
    then ok p1_win
    else if o_wins
    then ok p2_win
    else if not (has b'-' board)
    then ok tie
    else if text_eq game_state p1_next
    then ok p2_next
    else if text_eq game_state p2_next
    then ok p1_next
    else if text_eq game_state (codes "P1-WINS")
        || text_eq game_state (codes "P2-WINS")
        || text_eq game_state tie
    then ok game_state
    else raised (internal "Unhandled state: {}" (game_state ∷ []))

unfoldable pub update_game_state : Text → Text → Result Text
unfolding is_win next_state
update_game_state game_state board =
    then_do (is_win board b'X')
      (λ x_wins. then_do (is_win board b'O') (λ o_wins. next_state x_wins o_wins game_state board))
