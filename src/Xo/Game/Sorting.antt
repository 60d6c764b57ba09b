-- ===== src/Xo/Game/Sorting.antt =====
-- The sort of `_serialize` as an arrangement of the dict itself.
use sawtooth_sdk_python.Base.{
  inl, inr, ◌≡◌, refl, none, [], ◌∷◌, arith, if◌then◌else◌, Bool-cases, All,
}
use sawtooth_sdk_python.Base.Text.{Text, text_eq_iff, text_leb}
use sawtooth_sdk_python.Base.Dict.{Dict, lookup, IsKeyed}
use sawtooth_sdk_python.Xo.Game.{Game, game_str, game_strs, insert_sorted, sorted}

-- The entry at its place among entries that are sorted by their texts.
pub place : Text × Game → Dict Game → Dict Game
place e [] = e ∷ []
place e (f ∷ games) =
    let rest = place e games in
    if text_leb (game_str e) (game_str f) then e ∷ f ∷ games else f ∷ rest

unfoldable pub arrange : Dict Game → Dict Game
unfolding place
arrange [] = []
arrange (e ∷ games) = place e (arrange games)

game_strs-place :
    (e : Text × Game) (games : Dict Game)
    → insert_sorted (game_str e) (game_strs games) ≡ game_strs (place e games)
unfolding insert_sorted game_strs place
game_strs-place e [] = refl
game_strs-place e (f ∷ games) = ground (arith, game_strs-place e games)

pub sorted-eq-arrange : (games : Dict Game) → sorted (game_strs games) ≡ game_strs (arrange games)
unfolding sorted game_strs arrange
sorted-eq-arrange [] = refl
sorted-eq-arrange (e ∷ games) = rw (sorted-eq-arrange games) (game_strs-place e (arrange games))

lookup-place :
    (k : Text) (e : Text × Game) (games : Dict Game)
    → lookup e.0 games ≡ none
    → lookup k (place e games) ≡ lookup k (e ∷ games)
unfolding place lookup
lookup-place k e [] h = refl
lookup-place k e (f ∷ games) h =
    ground
      (arith, lookup-place k e games, text_eq_iff e.0 k, text_eq_iff f.0 k, text_eq_iff f.0 e.0)

-- The arrangement holds the same games.
pub lookup-arrange :
    (k : Text) (games : Dict Game) → IsKeyed games → lookup k (arrange games) ≡ lookup k games
unfolding arrange lookup
lookup-arrange k [] u = refl
lookup-arrange k (e ∷ games) u = ground (
  arith,
  lookup-place k e (arrange games),
  lookup-arrange e.0 games u.1,
  lookup-arrange k games u.1,
)

place-IsKeyed :
    (e : Text × Game) (games : Dict Game)
    → lookup e.0 games ≡ none
    → IsKeyed games
    → IsKeyed (place e games)
unfolding place lookup
place-IsKeyed e [] h u = (refl, tt)
place-IsKeyed e (f ∷ games) h u = ground (
  arith,
  place-IsKeyed e games,
  lookup-place f.0 e games,
  text_eq_iff f.0 e.0,
  text_eq_iff e.0 f.0,
)

pub arrange-IsKeyed : (games : Dict Game) → IsKeyed games → IsKeyed (arrange games)
unfolding arrange
arrange-IsKeyed [] u = tt
arrange-IsKeyed (e ∷ games) u =
    place-IsKeyed e (arrange games) (rw (lookup-arrange e.0 games u.1) u.0)
      (arrange-IsKeyed games u.1)

module _ (P : Text × Game → Type 0) where
  place-All : (e : Text × Game) (games : Dict Game) → P e → All P games → All P (place e games)
  unfolding place
  place-All e [] p h = (p, tt)
  place-All e (f ∷ games) p h = elim (Bool-cases (text_leb (game_str e) (game_str f))) [
    | inl b ↦ rw b (p, h)
    | inr b ↦ rw b (h.0, place-All e games p h.1)
  ]

  pub arrange-All : (games : Dict Game) → All P games → All P (arrange games)
  unfolding arrange
  arrange-All [] h = tt
  arrange-All (e ∷ games) h = place-All e (arrange games) h.0 (arrange-All games h.1)
