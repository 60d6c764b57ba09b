-- ===== src/Xo/Game/RoundTrip.antt =====
-- What `_serialize` writes, `_deserialize` reads back.
use sawtooth_sdk_python.Base.{
  ◌≡◌, ◌≢◌, refl, ap, sym, subst, ◌∙◌, none, some, [], ◌∷◌, ◌++◌, arith, All,
}
use mathlib.Core.List.{append-nil, append_assoc}
use sawtooth_sdk_python.Base.Text.{Text, text_eq_iff, has, has-append}
use sawtooth_sdk_python.Base.Text.Split.{split, join, split-join, IsFree}
use sawtooth_sdk_python.Base.Dict.{Dict, lookup, insert, lookup-insert, IsKeyed}
use sawtooth_sdk_python.Base.Exec.{ok}
use sawtooth_sdk_python.Base.Platform.{Platform}
use sawtooth_sdk_python.Xo.Game.{
  Game, game_of, read_games, deserialize, game_str, game_strs, sorted, serialize,
}
use sawtooth_sdk_python.Xo.Game.Sorting.{
  arrange, sorted-eq-arrange, lookup-arrange, arrange-IsKeyed, arrange-All,
}

-- A field that neither separator occurs in.
pub record IsPlain (t : Text) : Type 0 where
  pub no_comma : IsFree b',' t
  pub no_bar : IsFree b'|' t

-- An entry of the dict that can be stored: it stands under its own name, in plain fields.
pub record IsStorable (entry : Text × Game) : Type 0 where
  pub named : entry.1.name ≡ entry.0
  pub name : IsPlain entry.0
  pub board : IsPlain entry.1.board
  pub state : IsPlain entry.1.state
  pub player1 : IsPlain entry.1.player1
  pub player2 : IsPlain entry.1.player2

game_of-split :
    (entry : Text × Game) → IsStorable entry → game_of (split b',' (game_str entry)) ≡ some entry.1
unfolding game_str game_of
game_of-split (name, g) s =
    rw
      (split-join b',' (name ∷ g.board ∷ g.state ∷ g.player1 ∷ g.player2 ∷ []) (λ e. cc)
        (
          s.name.no_comma,
          (s.board.no_comma, (s.state.no_comma, (s.player1.no_comma, (s.player2.no_comma, tt)))),
        ))
      (rw (← s.named) refl)

game_str-IsFree : (entry : Text × Game) → IsStorable entry → IsFree b'|' (game_str entry)
unfolding game_str join has
game_str-IsFree (name, g) s = ground (
  arith,
  has-append b'|' name (b',' ∷ join b',' (g.board ∷ g.state ∷ g.player1 ∷ g.player2 ∷ [])),
  has-append b'|' g.board (b',' ∷ join b',' (g.state ∷ g.player1 ∷ g.player2 ∷ [])),
  has-append b'|' g.state (b',' ∷ join b',' (g.player1 ∷ g.player2 ∷ [])),
  has-append b'|' g.player1 (b',' ∷ g.player2),
)

game_strs-IsFree : (games : Dict Game) → All IsStorable games → All (IsFree b'|') (game_strs games)
unfolding game_strs
game_strs-IsFree [] h = tt
game_strs-IsFree (entry ∷ games) h = (game_str-IsFree entry h.0, game_strs-IsFree games h.1)

game_strs-ne-nil : (games : Dict Game) → games ≢ [] → game_strs games ≢ []
unfolding game_strs
game_strs-ne-nil [] ne e = ne refl
game_strs-ne-nil (entry ∷ games) ne e = cc

arrange-ne-nil : (games : Dict Game) → IsKeyed games → games ≢ [] → arrange games ≢ []
unfolding lookup
arrange-ne-nil [] u ne e = ne refl
arrange-ne-nil ((k, g) ∷ games) u ne e =
    let here = lookup-arrange k ((k, g) ∷ games) u in
    let gone = ap (lookup k) e in ground (arith, text_eq_iff k k)

-- A new key goes to the end.
insert_new :
    (k : Text) (g : Game) (games : Dict Game)
    → lookup k games ≡ none
    → insert k g games ≡ games ++ ((k, g) ∷ [])
unfolding insert lookup
insert_new k g [] h = refl
insert_new k g ((j, f) ∷ games) h = ground (arith, insert_new k g games)

-- None of the games' names is in the dict yet.
abbrev IsFresh : Dict Game → Dict Game → Type 0
IsFresh games = All (λ entry. lookup entry.0 games ≡ none)

insert-IsFresh :
    (k : Text) (g : Game) (games more : Dict Game)
    → lookup k more ≡ none
    → IsFresh games more
    → IsFresh (insert k g games) more
unfolding lookup
insert-IsFresh k g games [] h f = tt
insert-IsFresh k g games ((j, g') ∷ more) h f = ground (
  arith,
  insert-IsFresh k g games more,
  lookup-insert k j g games,
  text_eq_iff k j,
  text_eq_iff j k,
)

read_games-game_strs :
    (games more : Dict Game)
    → All IsStorable more
    → IsKeyed more
    → IsFresh games more
    → read_games games (game_strs more) ≡ ok (games ++ more)
unfolding read_games game_strs
read_games-game_strs games [] h u f = rw append-nil refl
read_games-game_strs games ((k, g) ∷ more) h u f =
    let rest =
      read_games-game_strs (insert k g games) more h.1 u.1
        (insert-IsFresh k g games more u.0 f.1) in
    let whole =
      rest
      ∙ ap (λ d. ok (d ++ more)) (insert_new k g games f.0)
      ∙ ap ok (append_assoc games ((k, g) ∷ []) more) in
    rw (game_of-split (k, g) h.0, read_games)
      (subst (λ n. read_games (insert n g games) (game_strs more) ≡ ok (games ++ ((k, g) ∷ more)))
        (sym h.0.named) whole)

IsFresh-nil : (games : Dict Game) → IsFresh [] games
unfolding lookup
IsFresh-nil [] = tt
IsFresh-nil (entry ∷ games) = (refl, IsFresh-nil games)

-- A dict of storable games that is not empty is read back as it was written, up to the order of its
-- entries: `_deserialize(_serialize(games))` raises nothing and is the sorted arrangement.
pub deserialize-serialize :
    (platform : Platform) (games : Dict Game)
    → games ≢ []
    → IsKeyed games
    → All IsStorable games
    → deserialize platform (serialize platform games) ≡ ok (arrange games)
unfolding deserialize serialize
deserialize-serialize platform games ne u h =
    rw (platform.decode-encode (join b'|' (sorted (game_strs games))), deserialize)
      (rw (sorted-eq-arrange games) (
        rw
          (split-join b'|' (game_strs (arrange games))
            (game_strs-ne-nil (arrange games) (arrange-ne-nil games u ne))
            (game_strs-IsFree (arrange games) (arrange-All IsStorable games h)))
          (read_games-game_strs [] (arrange games) (arrange-All IsStorable games h)
            (arrange-IsKeyed games u) (IsFresh-nil (arrange games)))))

-- What the processor stores it reads again: for a dict of games that is not empty, has each name once
-- and holds no separator in any field, the bytes that it is serialized to deserialize without an
-- exception, and every name then has the game that it had before, or none if it had none.
pub lookup-round_trip :
    (platform : Platform) (games : Dict Game) (k : Text)
    → games ≢ []
    → IsKeyed games
    → All IsStorable games
    → (read : Dict Game) × (deserialize platform (serialize platform games) ≡ ok read)
      × (lookup k read ≡ lookup k games)
lookup-round_trip platform games k ne u h =
    (arrange games, deserialize-serialize platform games ne u h, lookup-arrange k games u)
