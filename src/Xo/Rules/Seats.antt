-- ===== src/Xo/Rules/Seats.antt =====
-- Who moves: a seat is given to the first signer who takes it, and is kept from then on.
use sawtooth_sdk_python.Base.{
  ℕ, suc, ◌<◌, ◌≡◌, ◌≢◌, inl, inr, refl, sym, ◌∙◌, true, false, arith, set,
}
use sawtooth_sdk_python.Base.Text.{Text, is_empty, text_eq, text_eq_iff}
use sawtooth_sdk_python.Base.Int.{pos}
use sawtooth_sdk_python.Base.Exec.{ok}
use sawtooth_sdk_python.Xo.Board.{p1_next, p2_next}
use sawtooth_sdk_python.Xo.Game.{Game}
use sawtooth_sdk_python.Xo.Handler.{not_this_turn, seat, take_number, new_game}
use sawtooth_sdk_python.Xo.Rules.{IsConsistent, mark, other_turn, judge, move}
use sawtooth_sdk_python.Xo.Rules.Moves.{Waits, waits, Waits-of_Phase, take_number-eq-play}
use sawtooth_sdk_python.Xo.Rules.Keeps.{play-eq-ok}

-- The two states in which somebody is to move, told apart by the tests of the handler.
first-eq_tests :
    (state : Text)
    → state ≡ p1_next
    → (text_eq state p1_next ≡ true) × (text_eq state p2_next ≡ false)
unfolding text_eq
first-eq_tests state e = rw e (refl, refl)

second-eq_tests :
    (state : Text)
    → state ≡ p2_next
    → (text_eq state p1_next ≡ false) × (text_eq state p2_next ≡ true)
unfolding text_eq
second-eq_tests state e = rw e (refl, refl)

next-ne : p1_next ≢ p2_next
next-ne e = let t = first-eq_tests p1_next refl in let u = second-eq_tests p1_next e in cc

-- A turn never leads to the same player's turn.
judge-ne_first :
    (state board : Text) → state ≡ p1_next → text_eq (judge state board) p1_next ≡ false
unfolding judge other_turn text_eq
judge-ne_first state board e = rw e (ground arith)

judge-ne_second :
    (state board : Text) → state ≡ p2_next → text_eq (judge state board) p2_next ≡ false
unfolding judge other_turn text_eq
judge-ne_second state board e = rw e (ground arith)

-- The seats that are taken when a player is to move.
pub record IsSeated (g : Game) : Type 0 where
  pub first : g.state ≡ p1_next → is_empty g.player1 ≡ is_empty g.player2
  pub second : g.state ≡ p2_next → is_empty g.player1 ≡ false

pub new_game-IsSeated : (name : Text) → IsSeated (new_game name)
unfolding new_game
new_game-IsSeated name = record { first = λ e. refl; second = λ e. absurd (next-ne e) }

-- What a move does to the seats.
pub record Moved (signer : Text) (g g' : Game) : Type 0 where
  pub mover_first : g.state ≡ p1_next → g'.player1 ≡ signer
  pub mover_second : g.state ≡ p2_next → g'.player2 ≡ signer
  pub keeps_first : is_empty g.player1 ≡ false → g'.player1 ≡ g.player1
  pub keeps_second : is_empty g.player2 ≡ false → g'.player2 ≡ g.player2
  pub seated : IsSeated g'

module _ (signer : Text) (named : is_empty signer ≡ false) (k : ℕ) (g : Game) (s : IsSeated g)
    (turn : not_this_turn signer g ≡ false) where
  move_first : g.state ≡ p1_next → Moved signer g (move signer k g)
  unfolding move seat not_this_turn
  move_first e =
      let (t1, t2) = first-eq_tests g.state e in
      let same = s.first e in
      let mover = text_eq_iff g.player1 signer in
      record {
        mover_first = λ _. ground arith;
        mover_second = λ e2. absurd (next-ne (sym e ∙ e2));
        keeps_first = λ p. ground arith;
        keeps_second = λ p. ground arith;
        seated = record {
          first = λ f. absurd (
              let u = judge-ne_first g.state (set g.board k (mark g.state)) e in
              let v = (text_eq_iff (judge g.state (set g.board k (mark g.state))) p1_next).1 f in
              cc);
          second = λ _. ground arith;
        };
      }

  move_second : g.state ≡ p2_next → Moved signer g (move signer k g)
  unfolding move seat not_this_turn
  move_second e =
      let (t1, t2) = second-eq_tests g.state e in
      let taken = s.second e in
      let mover = text_eq_iff g.player2 signer in
      record {
        mover_first = λ e1. absurd (next-ne (sym e1 ∙ e));
        mover_second = λ _. ground arith;
        keeps_first = λ p. ground arith;
        keeps_second = λ p. ground arith;
        seated = record {
          first = λ _. ground arith;
          second = λ f. absurd (
              let u = judge-ne_second g.state (set g.board k (mark g.state)) e in
              let v = (text_eq_iff (judge g.state (set g.board k (mark g.state))) p2_next).1 f in
              cc);
        };
      }

-- From a consistent game whose seats agree with its state, a `take` that succeeds was made by the
-- player whose turn it was: the mover now holds the seat of the turn, a seat that was taken stays
-- as it is, and the seats agree with the new state.
pub take_number-Moved :
    (signer : Text) (k : ℕ) (g : Game) {g' : Game}
    → is_empty signer ≡ false
    → k < 9
    → IsConsistent g
    → IsSeated g
    → take_number signer (pos (suc k)) g ≡ ok g'
    → Moved signer g g'
take_number-Moved signer k g named lt c s h =
    let (going, turn, _, e) =
      play-eq-ok signer k g (sym (take_number-eq-play signer k g lt c) ∙ h) in
    rw e (mover (Waits-of_Phase g.state g.board c.phase going) turn)
  where
    mover :
        Waits g.state g.board → not_this_turn signer g ≡ false → Moved signer g (move signer k g)
    mover (waits (inl e) _) turn = move_first signer named k g s turn e
    mover (waits (inr e) _) turn = move_second signer named k g s turn e
