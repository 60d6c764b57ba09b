-- ===== src/Xo/Rules/Moves.antt =====
-- On a consistent game the handler's `take` is the move of the rules.
use sawtooth_sdk_python.Base.{
  subst, ℕ, suc, ◌<◌, ◌≡◌, ◌≢◌, ◌⊎◌, inl, inr, refl, ◌∙◌, true, false, not, ◌||◌, ◌&&◌, ap, some,
  arith, length, length-set, get_elem?, get_elem?-lt, set, Bool-cases,
}
use sawtooth_sdk_python.Base.Text.{Text, text_eq, is_empty}
use sawtooth_sdk_python.Base.Int.{pos}
use sawtooth_sdk_python.Base.Exec.{ok, then_do}
use sawtooth_sdk_python.Xo.Board.{
  p1_next, p2_next, item, index_of, or_index_error, mark_of, update_board, next_state,
  update_game_state,
}
use sawtooth_sdk_python.Xo.Board.Lines.{has_line, is_win-eq-has_line, has_line_mono}
use sawtooth_sdk_python.Xo.Board.Update.{update_board-eq-set, holds-set}
use sawtooth_sdk_python.Xo.Game.{Game}
use sawtooth_sdk_python.Xo.Handler.{has_ended, not_this_turn, seat, take_number}
use sawtooth_sdk_python.Xo.Rules.{
  IsOpen, Phase, x_to_move, o_to_move, x_won, o_won, tied, IsConsistent, mark, other_turn, judge,
  may_move, first_seat, second_seat, move, play,
}

-- A game that has not ended waits for one of the two players.
pub data Waits (state : Text) (board : Text) : Type 0 where
  waits : (state ≡ p1_next) ⊎ (state ≡ p2_next) → IsOpen board → Waits state board

pub Waits-of_Phase :
    (state board : Text) → Phase state board → has_ended state ≡ false → Waits state board
unfolding has_ended text_eq
Waits-of_Phase state board (x_to_move e o c) h = waits (inl e) o
Waits-of_Phase state board (o_to_move e o c) h = waits (inr e) o
Waits-of_Phase state board (x_won e a b c) h =
    let t : true ≡ false = subst (λ s. has_ended s ≡ false) e h in cc
Waits-of_Phase state board (o_won e a b c) h =
    let t : true ≡ false = subst (λ s. has_ended s ≡ false) e h in cc
Waits-of_Phase state board (tied e a b c d) h =
    let t : true ≡ false = subst (λ s. has_ended s ≡ false) e h in cc

module _ (state board : Text) (nine : length board ≡ 9) where
  -- Where not both letters have a line, the new state is the judgement of the rules.
  update_game_state-eq-judge :
      (state ≡ p1_next) ⊎ (state ≡ p2_next)
      → (has_line board b'X' && has_line board b'O') ≡ false
      → update_game_state state board ≡ ok (judge state board)
  unfolding update_game_state next_state judge other_turn text_eq
  update_game_state-eq-judge (inl e) h =
      rw (is_win-eq-has_line board b'X' nine)
        (rw (is_win-eq-has_line board b'O' nine) (rw e (ground arith)))
  update_game_state-eq-judge (inr e) h =
      rw (is_win-eq-has_line board b'X' nine)
        (rw (is_win-eq-has_line board b'O' nine) (rw e (ground arith)))

mark_of-eq-mark :
    (state : Text) → (state ≡ p1_next) ⊎ (state ≡ p2_next) → mark_of state ≡ ok (mark state)
unfolding mark_of mark text_eq
mark_of-eq-mark state (inl e) = rw e refl
mark_of-eq-mark state (inr e) = rw e refl

-- The letter that is not written gets no line.
pub has_line-set_other :
    (board : Text) (k m letter : ℕ)
    → get_elem? board k ≡ some b'-'
    → m ≢ letter
    → has_line board letter ≡ false
    → has_line (set board k m) letter ≡ false
has_line-set_other board k m letter free ne none_old =
    has_line_mono board (set board k m) letter (λ n. holds-set board k m letter n free ne) none_old

one_line :
    (state board : Text) (k : ℕ)
    → (state ≡ p1_next) ⊎ (state ≡ p2_next)
    → IsOpen board
    → get_elem? board k ≡ some b'-'
    → (has_line (set board k (mark state)) b'X' && has_line (set board k (mark state)) b'O') ≡ false
unfolding mark text_eq
one_line state board k (inl e) o free = rw e (
    let no_o = has_line-set_other board k b'X' b'O' free (λ p. absurd (omega arith)) o.no_o in
    ground arith)
one_line state board k (inr e) o free = rw e (
    let no_x = has_line-set_other board k b'O' b'X' free (λ p. absurd (omega arith)) o.no_x in
    ground arith)

seat-board : (signer : Text) (g : Game) → (seat signer g).board ≡ g.board
unfolding seat
seat-board signer g = ground arith

seat-state : (signer : Text) (g : Game) → (seat signer g).state ≡ g.state
unfolding seat
seat-state signer g = ground arith

-- The seats and the turn of the handler are those of the rules.
seat-eq :
    (signer : Text) (g : Game) (board state : Text)
    → record (seat signer g) { board = board; state = state } ≡ record {
      name = g.name;
      board = board;
      state = state;
      player1 = first_seat signer g;
      player2 = second_seat signer g;
    }
unfolding seat
seat-eq signer g board state = elim (Bool-cases (is_empty g.player1)) [
  | inl e ↦ rw e refl
  | inr e ↦ elim (Bool-cases (is_empty g.player2)) [
    | inl f ↦ rw (e, f) refl
    | inr f ↦ rw (e, f) refl
  ]
]

pub not_this_turn-eq :
    (signer : Text) (g : Game)
    → (g.state ≡ p1_next) ⊎ (g.state ≡ p2_next)
    → not_this_turn signer g ≡ not (may_move signer g)
unfolding not_this_turn text_eq
not_this_turn-eq signer g (inl e) = rw e (ground arith)
not_this_turn-eq signer g (inr e) = rw e (ground arith)

to_move :
    (state : Text)
    → (state ≡ p1_next) ⊎ (state ≡ p2_next)
    → (text_eq state p1_next || text_eq state p2_next) ≡ true
unfolding text_eq
to_move state (inl e) = rw e refl
to_move state (inr e) = rw e refl

pub nobody_moves :
    (state board : Text)
    → Phase state board
    → has_ended state ≡ true
    → (text_eq state p1_next || text_eq state p2_next) ≡ false
unfolding has_ended text_eq
nobody_moves state board (x_to_move e o c) h =
    let t : false ≡ true = subst (λ s. has_ended s ≡ true) e h in cc
nobody_moves state board (o_to_move e o c) h =
    let t : false ≡ true = subst (λ s. has_ended s ≡ true) e h in cc
nobody_moves state board (x_won e a b c) h = rw e refl
nobody_moves state board (o_won e a b c) h = rw e refl
nobody_moves state board (tied e a b c d) h = rw e refl

-- At a free square of an open game, the two updates of the handler succeed as the rules say.
move_succeeds :
    (signer : Text) (k : ℕ) (g : Game)
    → length g.board ≡ 9
    → Waits g.state g.board
    → get_elem? g.board k ≡ some b'-'
    → then_do (update_board (seat signer g).board (pos (suc k)) (seat signer g).state) (λ board.
      then_do
        (update_game_state (seat signer g).state board)
        (λ state. ok (record (seat signer g) { board = board; state = state })))
      ≡ ok (move signer k g)
unfolding move
move_succeeds signer k g nine (waits turn o) free = rw (seat-board signer g) (
    rw (seat-state signer g) (
      rw (update_board-eq-set g.board g.state k (mark g.state) (mark_of-eq-mark g.state turn)) (
        rw
          (update_game_state-eq-judge g.state (set g.board k (mark g.state))
            (length-set g.board k (mark g.state) ∙ nine) turn
            (one_line g.state g.board k turn o free))
          (ap ok (
            seat-eq signer g (set g.board k (mark g.state))
              (judge g.state (set g.board k (mark g.state))))))))

-- On a consistent game and one of the nine spaces, the handler's branch `take` behaves as the rules
-- say, in the order of the rules' refusals; it never raises anything else.
pub take_number-eq-play :
    (signer : Text) (k : ℕ) (g : Game)
    → k < 9
    → IsConsistent g
    → take_number signer (pos (suc k)) g ≡ play signer k g
unfolding take_number play item index_of or_index_error
take_number-eq-play signer k g lt c = elim (Bool-cases (has_ended g.state)) [
  | inl ended ↦ rw (ended, nobody_moves g.state g.board c.phase ended) refl
  | inr going ↦ open_game (Waits-of_Phase g.state g.board c.phase going) going
]
  where
    open_game :
        Waits g.state g.board
        → has_ended g.state ≡ false
        → take_number signer (pos (suc k)) g ≡ play signer k g
    open_game (waits turn o) going =
        let (old, e) = get_elem?-lt g.board k (rw c.nine lt) in
        rw (going, to_move g.state turn, not_this_turn-eq signer g turn, e)
          (ground (
            arith,
            λ (free : get_elem? g.board k ≡ some b'-').
                move_succeeds signer k g c.nine (waits turn o) free,
          ))
