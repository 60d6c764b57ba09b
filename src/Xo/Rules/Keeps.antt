-- ===== src/Xo/Rules/Keeps.antt =====
-- Moves keep a game consistent, and only its players move.
use sawtooth_sdk_python.Base.{
  subst, ℕ, suc, ◌+◌, ◌<◌, ◌≡◌, inl, inr, refl, sym, ◌∙◌, true, false, some, arith, length,
  length-set, get_elem?, set, Bool-cases, All, ◌||◌, ◌⊎◌,
}
use sawtooth_sdk_python.Base.Text.{Text, has, text_eq, text_eq_iff}
use sawtooth_sdk_python.Base.Int.{pos}
use sawtooth_sdk_python.Base.Exec.{ok}
use sawtooth_sdk_python.Xo.Board.{p1_next, p2_next}
use sawtooth_sdk_python.Xo.Board.Lines.{has_line, holds}
use sawtooth_sdk_python.Xo.Board.Update.{
  IsCell, count, count-set, count-eq_zero, count_total, set-All-cells,
}
use sawtooth_sdk_python.Xo.Game.{Game}
use sawtooth_sdk_python.Xo.Handler.{has_ended, not_this_turn, take_number, new_game}
use sawtooth_sdk_python.Xo.Rules.{
  Phase, x_to_move, o_to_move, x_won, o_won, tied, IsConsistent, mark, other_turn, judge, move,
  play, may_move,
}
use sawtooth_sdk_python.Xo.Rules.Moves.{not_this_turn-eq, has_line-set_other, take_number-eq-play}

-- A created game is consistent: the board is empty and the first player is to move.
pub new_game-IsConsistent : (name : Text) → IsConsistent (new_game name)
unfolding new_game has_line holds count has
new_game-IsConsistent name = record {
  nine = refl;
  cells = omega arith;
  phase = x_to_move refl (record { no_x = refl; no_o = refl; room = refl }) refl;
}

-- The board after a write: nine cells still, and as many marks more.
module _ (board : Text) (k m : ℕ) (nine : length board ≡ 9)
    (free : get_elem? board k ≡ some b'-') where
  nine_after : length (set board k m) ≡ 9
  nine_after = length-set board k m ∙ nine

  full_total :
      All IsCell (set board k m)
      → has b'-' (set board k m) ≡ false
      → count b'X' (set board k m) + count b'O' (set board k m) ≡ 9
  full_total cells full = omega (
    arith,
    count_total (set board k m) cells,
    count-eq_zero b'-' (set board k m) full,
    nine_after,
  )

x_moves :
    (board : Text) (k : ℕ)
    → length board ≡ 9
    → get_elem? board k ≡ some b'-'
    → All IsCell board
    → count b'X' board ≡ count b'O' board
    → has_line (set board k b'X') b'O' ≡ false
    → Phase (judge p1_next (set board k b'X')) (set board k b'X')
unfolding judge other_turn text_eq
x_moves board k nine free cells even no_o =
    let cx = count-set b'X' k b'X' board free in
    let co = count-set b'O' k b'X' board free in
    elim (Bool-cases (has_line (set board k b'X') b'X')) [
      | inl won ↦ rw won (x_won refl won no_o (ground arith))
      | inr open_x ↦ elim (Bool-cases (has b'-' (set board k b'X'))) [
        | inl room ↦
            rw (open_x, no_o, room)
              (o_to_move refl (record { no_x = open_x; no_o = no_o; room = room }) (ground arith))
        | inr full ↦ rw (open_x, no_o, full) (tied refl open_x no_o full (ground arith))
      ]
    ]

o_moves :
    (board : Text) (k : ℕ)
    → length board ≡ 9
    → get_elem? board k ≡ some b'-'
    → All IsCell board
    → count b'X' board ≡ count b'O' board + 1
    → has_line (set board k b'O') b'X' ≡ false
    → Phase (judge p2_next (set board k b'O')) (set board k b'O')
unfolding judge other_turn text_eq
o_moves board k nine free cells odd no_x =
    let cx = count-set b'X' k b'O' board free in
    let co = count-set b'O' k b'O' board free in
    elim (Bool-cases (has_line (set board k b'O') b'O')) [
      | inl won ↦ rw (no_x, won) (o_won refl won no_x (ground arith))
      | inr open_o ↦ elim (Bool-cases (has b'-' (set board k b'O'))) [
        | inl room ↦
            rw (no_x, open_o, room)
              (x_to_move refl (record { no_x = no_x; no_o = open_o; room = room }) (ground arith))
        | inr full ↦ absurd (
            omega (
              arith,
              full_total board k b'O' nine free (set-All-cells board k b'O' (inr (inl refl)) cells)
                  full,
            ))
      ]
    ]

Phase-after :
    (state board : Text) (k : ℕ)
    → length board ≡ 9
    → get_elem? board k ≡ some b'-'
    → All IsCell board
    → has_ended state ≡ false
    → Phase state board
    → Phase (judge state (set board k (mark state))) (set board k (mark state))
unfolding mark text_eq has_ended
Phase-after state board k nine free cells going (x_to_move e o c) = rw e (
    x_moves board k nine free cells c
      (has_line-set_other board k b'X' b'O' free (λ p. absurd (omega arith)) o.no_o))
Phase-after state board k nine free cells going (o_to_move e o c) = rw e (
    o_moves board k nine free cells c
      (has_line-set_other board k b'O' b'X' free (λ p. absurd (omega arith)) o.no_x))
Phase-after state board k nine free cells going (x_won e a b c) =
    let t : true ≡ false = subst (λ s. has_ended s ≡ false) e going in cc
Phase-after state board k nine free cells going (o_won e a b c) =
    let t : true ≡ false = subst (λ s. has_ended s ≡ false) e going in cc
Phase-after state board k nine free cells going (tied e a b c d) =
    let t : true ≡ false = subst (λ s. has_ended s ≡ false) e going in cc

mark-IsCell : (state : Text) → IsCell (mark state)
unfolding mark
mark-IsCell state = ground arith

move-IsConsistent :
    (signer : Text) (k : ℕ) (g : Game)
    → IsConsistent g
    → has_ended g.state ≡ false
    → get_elem? g.board k ≡ some b'-'
    → IsConsistent (move signer k g)
unfolding move
move-IsConsistent signer k g c going free = record {
  nine = nine_after g.board k (mark g.state) c.nine free;
  cells = set-All-cells g.board k (mark g.state) (mark-IsCell g.state) c.cells;
  phase = Phase-after g.state g.board k c.nine free c.cells going c.phase;
}

played :
    (signer : Text) (k : ℕ) (g : Game) {g' : Game}
    → play signer k g ≡ ok g'
    → ((text_eq g.state p1_next || text_eq g.state p2_next) ≡ true)
      × (may_move signer g ≡ true)
      × (get_elem? g.board k ≡ some b'-')
      × (g' ≡ move signer k g)
unfolding play
played signer k g h = ground arith

turn_of :
    (state : Text)
    → (text_eq state p1_next || text_eq state p2_next) ≡ true
    → (state ≡ p1_next) ⊎ (state ≡ p2_next)
turn_of state h = elim (Bool-cases (text_eq state p1_next)) [
  | inl e ↦ inl ((text_eq_iff state p1_next).0 e)
  | inr e ↦ inr ((text_eq_iff state p2_next).0 (ground arith))
]

goes_on : (state : Text) → (state ≡ p1_next) ⊎ (state ≡ p2_next) → has_ended state ≡ false
unfolding has_ended text_eq
goes_on state (inl e) = rw e refl
goes_on state (inr e) = rw e refl

-- A successful move of the rules was on a game that had not ended, at a free square.
pub play-eq-ok :
    (signer : Text) (k : ℕ) (g : Game) {g' : Game}
    → play signer k g ≡ ok g'
    → (has_ended g.state ≡ false)
      × (not_this_turn signer g ≡ false)
      × (get_elem? g.board k ≡ some b'-')
      × (g' ≡ move signer k g)
play-eq-ok signer k g h =
    let (turn, may, free, same) = played signer k g h in
    (
      goes_on g.state (turn_of g.state turn),
      not_this_turn-eq signer g (turn_of g.state turn) ∙ rw may refl,
      free,
      same,
    )

-- Whatever `take` returns from a consistent game and one of the nine spaces is a consistent game:
-- the counts of the marks, the lines and the state agree again.
pub take_number-IsConsistent :
    (signer : Text) (k : ℕ) (g : Game) {g' : Game}
    → k < 9
    → IsConsistent g
    → take_number signer (pos (suc k)) g ≡ ok g'
    → IsConsistent g'
take_number-IsConsistent signer k g lt c h =
    let (going, _, free, e) =
      play-eq-ok signer k g (sym (take_number-eq-play signer k g lt c) ∙ h) in
    rw e (move-IsConsistent signer k g c going free)
