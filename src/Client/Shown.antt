-- ===== src/Client/Shown.antt =====
-- `do_show` of examples/xo_python/sawtooth_xo/xo_cli.py, of the state that the processor of
-- examples/xo_python/sawtooth_xo/processor writes.
use sawtooth_sdk_python.Base.{
  ℕ, ◌==◌, if◌then◌else◌, ◌≡◌, ◌≢◌, refl, ◌∙◌, some, inl, inr, List, [], ◌∷◌, ◌++◌, All, take,
  Option-cases,
}
use sawtooth_sdk_python.Base.Text.{Text, Bytes, codes}
use sawtooth_sdk_python.Base.Text.Split.{split}
use sawtooth_sdk_python.Base.Dict.{Dict, lookup, insert, IsKeyed}
use sawtooth_sdk_python.Base.Exec.{ok}
use sawtooth_sdk_python.Base.Platform.{Platform}
use sawtooth_sdk_python.Xo.Game.{Game, game_of, read_games, deserialize, serialize}
use sawtooth_sdk_python.Xo.Game.RoundTrip.{IsStorable, lookup-round_trip}
use sawtooth_sdk_python.Client.Commands.{
  game_texts, read_rows, square, print, print_row, print_game, show_game,
}

-- The command reads games as the processor does.
read_rows-eq_ok :
    (games : Dict Game) (texts : List Text) {read : Dict Game}
    → read_games games texts ≡ ok read
    → read_rows games texts ≡ ok read
unfolding read_games read_rows
read_rows-eq_ok games [] h = h
read_rows-eq_ok games (text ∷ texts) {read} h = elim (Option-cases (game_of (split b',' text))) [
  | inl e ↦ let f = rw (e, read_games) at h in absurd (cc)
  | inr (game, e) ↦
      rw (e, read_rows)
        (read_rows-eq_ok (insert game.name game games) texts (rw (e, read_games) at h))
]

-- What is shown for a square: nothing for a free one, and its mark otherwise.
abbrev pub shown : ℕ → ℕ
shown c = if c == b'-' then b' ' else c

-- Three squares between bars: "  X | O |  "
abbrev pub shown_row : (a b c : ℕ) → Text
shown_row a b c =
    b' ' ∷ b' ' ∷ shown a ∷ b' ' ∷ b'|' ∷ b' ' ∷ shown b ∷ b' ' ∷ b'|' ∷ b' ' ∷ shown c ∷ []

-- The lines that show a game with these nine squares.
abbrev pub picture : Text → Game → (a b c d e f g h i : ℕ) → List Text
picture name game a b c d e f g h i =
    (codes "GAME:     : " ++ name)
    ∷ (codes "PLAYER 1  : " ++ take 6 game.player1)
    ∷ (codes "PLAYER 2  : " ++ take 6 game.player2)
    ∷ (codes "STATE     : " ++ game.state)
    ∷ []
    ∷ shown_row a b c
    ∷ codes " ---|---|---"
    ∷ shown_row d e f
    ∷ codes " ---|---|---"
    ∷ shown_row g h i
    ∷ []
    ∷ []

print_game-picture :
    (name : Text) (game : Game) (a b c d e f g h i : ℕ)
    → game.board ≡ a ∷ b ∷ c ∷ d ∷ e ∷ f ∷ g ∷ h ∷ i ∷ []
    → print_game name game [] ≡ (ok tt, picture name game a b c d e f g h i)
unfolding print_game print_row square print
print_game-picture name game a b c d e f g h i nine = simp nine refl

module _ (platform : Platform) where
  texts_read :
      (bytes : Bytes) {read : Dict Game}
      → deserialize platform bytes ≡ ok read
      → (texts : List Text) × (game_texts platform bytes ≡ ok texts)
        × (read_rows [] texts ≡ ok read)
  unfolding deserialize game_texts
  texts_read bytes h = elim (Option-cases (platform.decode bytes)) [
    | inl e ↦ let f = rw (e, deserialize) at h in absurd (cc)
    | inr (text, e) ↦ (
      split b'|' text,
      rw (e, game_texts) refl,
      read_rows-eq_ok [] (split b'|' text) (rw (e, deserialize) at h),
    )
  ]

  -- `xo show` shows what the processor stored: for the bytes that the processor serializes a dict of
  -- storable games to, where the dict has a game of nine squares under a name, `do_show` of that name
  -- prints the name, the first six characters of both players' keys, the state and the nine squares
  -- of this game in three rows, with a blank for each free square, and raises nothing.
  pub show_game-stored :
      (games : Dict Game) (name : Text) (game : Game) (a b c d e f g h i : ℕ)
      → games ≢ []
      → IsKeyed games
      → All IsStorable games
      → lookup name games ≡ some game
      → game.board ≡ a ∷ b ∷ c ∷ d ∷ e ∷ f ∷ g ∷ h ∷ i ∷ []
      → show_game platform name (some (serialize platform games)) []
        ≡ (ok tt, picture name game a b c d e f g h i)
  unfolding show_game game_texts
  show_game-stored games name game a b c d e f g h i ne keyed storable held nine =
      let (read, ends, same) = lookup-round_trip platform games name ne keyed storable in
      let (texts, decoded, rows) = texts_read (serialize platform games) ends in
      let found : lookup name read ≡ some game = same ∙ held in
      rw (decoded, show_game)
        (rw (rows, show_game)
          (rw (found, show_game) (print_game-picture name game a b c d e f g h i nine)))
