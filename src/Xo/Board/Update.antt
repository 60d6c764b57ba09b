-- ===== src/Xo/Board/Update.antt =====
-- `_update_board` as a write into a list, and how such a write changes the marks on the board.
use sawtooth_sdk_python.Base.{
  ℕ, zero, suc, ◌+◌, ◌-◌, ◌<◌, ◌≡◌, ◌≢◌, ◌⊎◌, refl, true, false, some, [], ◌∷◌, arith,
  if◌then◌else◌, ◌==◌, length, get_elem?, get_elem?-set, set, All,
}
use sawtooth_sdk_python.Base.Text.{Text, has}
use sawtooth_sdk_python.Base.Int.{pos}
use sawtooth_sdk_python.Base.Exec.{Result, ok}
use sawtooth_sdk_python.Xo.Board.{replace_from, update_board, mark_of, index_of}
use sawtooth_sdk_python.Xo.Board.Lines.{holds}

replace_from_past :
    (square i : ℕ) (board : Text) (mark : Result ℕ)
    → i < square
    → replace_from square board (pos i) mark ≡ ok board
unfolding replace_from
replace_from_past square i [] mark h = refl
replace_from_past square i (c ∷ board) mark h =
    ground (arith, replace_from_past (suc square) i board mark)

replace_from-eq-set :
    (square i k : ℕ) (board : Text) (m : ℕ)
    → i ≡ square + k
    → replace_from square board (pos i) (ok m) ≡ ok (set board k m)
unfolding replace_from
replace_from-eq-set square i k [] m h = refl
replace_from-eq-set square i zero (c ∷ board) m h =
    ground (arith, replace_from_past (suc square) i board (ok m))
replace_from-eq-set square i (suc k) (c ∷ board) m h =
    ground (arith, replace_from-eq-set (suc square) i k board m)

-- In a state that binds the mark, space `k + 1` is written, and nothing else.
pub update_board-eq-set :
    (board state : Text) (k m : ℕ)
    → mark_of state ≡ ok m
    → update_board board (pos (suc k)) state ≡ ok (set board k m)
unfolding update_board index_of
update_board-eq-set board state k m h = rw h (replace_from-eq-set 0 k k board m (omega arith))

-- How often a character stands on the board.
unfoldable pub count : ℕ → Text → ℕ
count c [] = 0
count c (x ∷ board) = (if x == c then 1 else 0) + count c board

pub count-set :
    (c k m : ℕ) (board : Text) {old : ℕ}
    → get_elem? board k ≡ some old
    → count c (set board k m) + (if old == c then 1 else 0)
      ≡ count c board + (if m == c then 1 else 0)
unfolding count
count-set c k m [] h = cc
count-set c zero m (x ∷ board) h = ground arith
count-set c (suc k) m (x ∷ board) h = ground (arith, count-set c k m board h)

pub count-eq_zero : (c : ℕ) (board : Text) → has c board ≡ false → count c board ≡ 0
unfolding has count
count-eq_zero c [] h = refl
count-eq_zero c (x ∷ board) h = ground (arith, count-eq_zero c board)

abbrev pub IsCell : ℕ → Type 0
IsCell c = (c ≡ b'X') ⊎ (c ≡ b'O') ⊎ (c ≡ b'-')

pub count_total :
    (board : Text)
    → All IsCell board
    → count b'X' board + count b'O' board + count b'-' board ≡ length board
unfolding count
count_total [] h = refl
count_total (x ∷ board) h = ground (arith, count_total board h.1)

pub set-All-cells :
    (board : Text) (k m : ℕ) → IsCell m → All IsCell board → All IsCell (set board k m)
set-All-cells [] k m hm h = tt
set-All-cells (x ∷ board) zero m hm h = (hm, h.1)
set-All-cells (x ∷ board) (suc k) m hm h = (h.0, set-All-cells board k m hm h.1)

pub lt-length : (board : Text) (k : ℕ) {c : ℕ} → get_elem? board k ≡ some c → k < length board
lt-length [] k h = cc
lt-length (x ∷ board) zero h = omega arith
lt-length (x ∷ board) (suc k) h = omega (arith, lt-length board k h)

-- A write of another letter adds no square to a letter.
pub holds-set :
    (board : Text) (k m letter n : ℕ) {old : ℕ}
    → get_elem? board k ≡ some old
    → m ≢ letter
    → holds (set board k m) letter n ≡ true
    → holds board letter n ≡ true
unfolding holds
holds-set board k m letter n h ne =
    rw (get_elem?-set board k (n - 1) m (lt-length board k h)) (ground arith)
