-- ===== src/Xo/Board/Lines.antt =====
-- The lines of a board as a plain test, and `_is_win` on boards of nine squares.
use sawtooth_sdk_python.Base.{
  ℕ, ◌-◌, ◌<◌, ◌≡◌, refl, Bool, true, false, ◌&&◌, ◌||◌, Option, none, some, List, [], ◌∷◌, arith,
  ◌==◌, length, get_elem?, get_elem?-lt, All,
}
use sawtooth_sdk_python.Base.Text.{Text}
use sawtooth_sdk_python.Base.Exec.{ok}
use sawtooth_sdk_python.Xo.Board.{Line, wins, at_square, and_then, is_line, any_line, is_win}

abbrev is_letter : ℕ → Option ℕ → Bool
is_letter letter none = false
is_letter letter (some c) = c == letter

-- The `n`-th square, from 1, holds the letter.
unfoldable pub holds : Text → ℕ → ℕ → Bool
holds board letter n = is_letter letter (get_elem? board (n - 1))

pub holds_line : Text → ℕ → Line → Bool
holds_line board letter (i, j, k) =
    (holds board letter i && holds board letter j) && holds board letter k

pub holds_any : Text → ℕ → List Line → Bool
unfolding holds_line
holds_any board letter [] = false
holds_any board letter (line ∷ lines) = holds_line board letter line || holds_any board letter lines

-- The rows, the columns and the diagonals, of squares counted from 1.
abbrev eight_lines : List Line
eight_lines =
    (1, 2, 3)
    ∷ (4, 5, 6)
    ∷ (7, 8, 9)
    ∷ (1, 4, 7)
    ∷ (2, 5, 8)
    ∷ (3, 6, 9)
    ∷ (1, 5, 9)
    ∷ (3, 5, 7)
    ∷ []

-- Some line of the eight holds the letter three times.
unfoldable pub has_line : Text → ℕ → Bool
unfolding holds_any
has_line board letter = holds_any board letter eight_lines

abbrev Fits : ℕ → Line → Type 0
Fits size (i, j, k) = (i - 1 < size) × (j - 1 < size) × (k - 1 < size)

at_square-eq-holds :
    (board : Text) (letter n : ℕ)
    → n - 1 < length board
    → at_square board n letter ≡ ok (holds board letter n)
unfolding at_square holds
at_square-eq-holds board letter n h = let (c, e) = get_elem?-lt board (n - 1) h in rw e refl

is_line-eq-holds_line :
    (board : Text) (letter : ℕ) (line : Line)
    → Fits (length board) line
    → is_line board letter line ≡ ok (holds_line board letter line)
unfolding is_line holds_line and_then
is_line-eq-holds_line board letter (i, j, k) (hi, hj, hk) =
    rw (at_square-eq-holds board letter i hi) (
      rw (at_square-eq-holds board letter j hj)
        (rw (at_square-eq-holds board letter k hk) (ground arith)))

any_line-eq-holds_any :
    (board : Text) (letter : ℕ) (lines : List Line)
    → All (Fits (length board)) lines
    → any_line board letter lines ≡ ok (holds_any board letter lines)
unfolding any_line holds_any
any_line-eq-holds_any board letter [] h = refl
any_line-eq-holds_any board letter (line ∷ lines) h =
    rw (is_line-eq-holds_line board letter line h.0)
      (rw (any_line-eq-holds_any board letter lines h.1) (ground arith))

-- On nine squares `_is_win` raises nothing, and tells whether the letter has a line.
pub is_win-eq-has_line :
    (board : Text) (letter : ℕ)
    → length board ≡ 9
    → is_win board letter ≡ ok (has_line board letter)
unfolding is_win has_line
is_win-eq-has_line board letter h = any_line-eq-holds_any board letter wins (rw h (omega arith))

-- A board on which the letter stands wherever it stood keeps the letter's lines.
module _ (old new : Text) (letter : ℕ)
    (grows : (n : ℕ) → holds new letter n ≡ true → holds old letter n ≡ true) where
  holds_line_mono :
      (line : Line) → holds_line new letter line ≡ true → holds_line old letter line ≡ true
  unfolding holds_line
  holds_line_mono (i, j, k) h = ground (arith, grows i, grows j, grows k)

  holds_any_mono :
      (lines : List Line) → holds_any new letter lines ≡ true → holds_any old letter lines ≡ true
  unfolding holds_any
  holds_any_mono [] h = h
  holds_any_mono (line ∷ lines) h = ground (arith, holds_line_mono line, holds_any_mono lines)

  -- No line of the letter is new.
  pub has_line_mono : has_line old letter ≡ false → has_line new letter ≡ false
  unfolding has_line
  has_line_mono h = ground (arith, holds_any_mono eight_lines)
