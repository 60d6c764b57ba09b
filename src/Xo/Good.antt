-- ===== src/Xo/Good.antt =====
-- The games that the handler stores: they stand under their own names, by the rules of the game, and
-- none of their fields holds a separator.
use sawtooth_sdk_python.Base.{
  ℕ, suc, ◌<◌, ◌≡◌, ◌≢◌, ◌⊎◌, inl, inr, refl, ap, sym, ◌∙◌, false, List, [], ◌∷◌, arith, All,
  Bool-cases,
}
use sawtooth_sdk_python.Base.Text.{Text, has, is_empty}
use sawtooth_sdk_python.Base.Text.Split.{IsFree}
use sawtooth_sdk_python.Base.Int.{pos}
use sawtooth_sdk_python.Base.Exec.{ok}
use sawtooth_sdk_python.Xo.Board.Update.{IsCell}
use sawtooth_sdk_python.Xo.Game.{Game}
use sawtooth_sdk_python.Xo.Game.RoundTrip.{IsPlain, IsStorable}
use sawtooth_sdk_python.Xo.Handler.{new_game, take_number}
use sawtooth_sdk_python.Xo.Rules.{
  IsConsistent, Phase, x_to_move, o_to_move, x_won, o_won, tied, move, first_seat, second_seat,
}
use sawtooth_sdk_python.Xo.Rules.Moves.{take_number-eq-play}
use sawtooth_sdk_python.Xo.Rules.Keeps.{new_game-IsConsistent, take_number-IsConsistent, play-eq-ok}
use sawtooth_sdk_python.Xo.Rules.Seats.{IsSeated, new_game-IsSeated, take_number-Moved}

pub record IsGood (entry : Text × Game) : Type 0 where
  pub named : entry.1.name ≡ entry.0
  pub name : IsPlain entry.0
  pub player1 : IsPlain entry.1.player1
  pub player2 : IsPlain entry.1.player2
  pub consistent : IsConsistent entry.1
  pub seated : IsSeated entry.1

cells-IsFree :
    (c : ℕ) (board : Text) → c ≢ b'X' → c ≢ b'O' → c ≢ b'-' → All IsCell board → IsFree c board
unfolding has
cells-IsFree c [] x o d h = refl
cells-IsFree c (s ∷ board) x o d h = ground (arith, cells-IsFree c board x o d h.1)

board-IsPlain : (board : Text) → All IsCell board → IsPlain board
board-IsPlain board h = record {
  no_comma =
      cells-IsFree b',' board (λ p. absurd (omega arith)) (λ p. absurd (omega arith))
        (λ p. absurd (omega arith)) h;
  no_bar =
      cells-IsFree b'|' board (λ p. absurd (omega arith)) (λ p. absurd (omega arith))
        (λ p. absurd (omega arith)) h;
}

state-IsPlain : (state board : Text) → Phase state board → IsPlain state
unfolding has
state-IsPlain state board (x_to_move e _ _) = rw e (record { no_comma = refl; no_bar = refl })
state-IsPlain state board (o_to_move e _ _) = rw e (record { no_comma = refl; no_bar = refl })
state-IsPlain state board (x_won e _ _ _) = rw e (record { no_comma = refl; no_bar = refl })
state-IsPlain state board (o_won e _ _ _) = rw e (record { no_comma = refl; no_bar = refl })
state-IsPlain state board (tied e _ _ _ _) = rw e (record { no_comma = refl; no_bar = refl })

pub IsGood-IsStorable : (entry : Text × Game) → IsGood entry → IsStorable entry
IsGood-IsStorable (name, g) h = record {
  named = h.named;
  name = h.name;
  board = board-IsPlain g.board h.consistent.cells;
  state = state-IsPlain g.state g.board h.consistent.phase;
  player1 = h.player1;
  player2 = h.player2;
}

pub All-IsStorable : (games : List (Text × Game)) → All IsGood games → All IsStorable games
All-IsStorable [] h = tt
All-IsStorable (e ∷ games) h = (IsGood-IsStorable e h.0, All-IsStorable games h.1)

empty-IsPlain : IsPlain []
unfolding has
empty-IsPlain = record { no_comma = refl; no_bar = refl }

pub new_game-IsGood : (name : Text) → IsPlain name → IsGood (name, new_game name)
unfolding new_game
new_game-IsGood name h = record {
  named = refl;
  name = h;
  player1 = empty-IsPlain;
  player2 = empty-IsPlain;
  consistent = new_game-IsConsistent name;
  seated = new_game-IsSeated name;
}

seats-move :
    (signer : Text) (g : Game)
    → ((first_seat signer g ≡ g.player1) ⊎ (first_seat signer g ≡ signer))
      × ((second_seat signer g ≡ g.player2) ⊎ (second_seat signer g ≡ signer))
seats-move signer g = elim (Bool-cases (is_empty g.player1)) [
  | inl e ↦ (inr (rw e refl), inl (rw e refl))
  | inr e ↦ elim (Bool-cases (is_empty g.player2)) [
    | inl f ↦ (inl (rw e refl), inr (rw (e, f) refl))
    | inr f ↦ (inl (rw e refl), inl (rw (e, f) refl))
  ]
]

plain_of : (t s u : Text) → (t ≡ s) ⊎ (t ≡ u) → IsPlain s → IsPlain u → IsPlain t
plain_of t s u (inl e) a b = rw e a
plain_of t s u (inr e) a b = rw e b

-- A `take` that succeeds, of one of the nine spaces by a signer whose key is not empty and holds no
-- separator, turns a game that stands under its own name, by the rules and in fields without
-- separators, into another such game.
pub take_number-IsGood :
    (signer name : Text) (k : ℕ) (g : Game) {g' : Game}
    → is_empty signer ≡ false
    → IsPlain signer
    → k < 9
    → IsGood (name, g)
    → take_number signer (pos (suc k)) g ≡ ok g'
    → IsGood (name, g')
unfolding move
take_number-IsGood signer name k g {g'} some_key plain lt h e =
    let c = take_number-IsConsistent signer k g lt h.consistent e in
    let s = (take_number-Moved signer k g some_key lt h.consistent h.seated e).seated in
    let (_, _, _, moved) =
      play-eq-ok signer k g (sym (take_number-eq-play signer k g lt h.consistent) ∙ e) in
    let (p1, p2) = seats-move signer g in
    record {
      named = ap (λ (x : Game). x.name) moved ∙ h.named;
      name = h.name;
      player1 = rw moved (plain_of (first_seat signer g) g.player1 signer p1 h.player1 plain);
      player2 = rw moved (plain_of (second_seat signer g) g.player2 signer p2 h.player2 plain);
      consistent = c;
      seated = s;
    }
