-- ===== src/Base/Text/Split.antt =====
-- `s.split(c)` and `c.join(words)` for a separator of one character.
use Prim.Native.Nat.{ℕ}
use mathlib.Core.Path.{◌≡◌, refl}
use mathlib.Core.Logic.{◌≢◌, inl, inr}
use mathlib.Core.Bool.{false}
use mathlib.Core.List.{List, [], ◌∷◌, ◌++◌}
use native.Mathlib.Omega.{arith}
use sawtooth_sdk_python.Base.Tests.{◌==◌, if◌then◌else◌, Bool-cases}
use sawtooth_sdk_python.Base.Lists.{All}
use sawtooth_sdk_python.Base.Text.{Text, has}

-- The first word of the rest grows by a character.
abbrev push : ℕ → List Text → List Text
push x [] = (x ∷ []) ∷ []
push x (w ∷ ws) = (x ∷ w) ∷ ws

unfoldable pub split : ℕ → Text → List Text
split c [] = [] ∷ []
split c (x ∷ s) = let rest = split c s in if x == c then [] ∷ rest else push x rest

unfoldable pub join : ℕ → List Text → Text
join c [] = []
join c (w ∷ []) = w
join c (w ∷ v ∷ ws) = w ++ (c ∷ join c (v ∷ ws))

-- A word that the separator does not occur in.
abbrev pub IsFree : ℕ → Text → Type 0
IsFree c w = has c w ≡ false

pub split-free : (c : ℕ) (w : Text) → IsFree c w → split c w ≡ w ∷ []
unfolding split has
split-free c [] h = refl
split-free c (x ∷ w) h = ground (arith, split-free c w)

pub split-append : (c : ℕ) (w s : Text) → IsFree c w → split c (w ++ (c ∷ s)) ≡ w ∷ split c s
unfolding split has
split-append c [] s h = ground arith
split-append c (x ∷ w) s h = ground (arith, split-append c w s)

-- Splitting what was joined gives the words back.
pub split-join : (c : ℕ) (ws : List Text) → ws ≢ [] → All (IsFree c) ws → split c (join c ws) ≡ ws
unfolding join
split-join c [] ne h = absurd (ne refl)
split-join c (w ∷ []) ne h = split-free c w h.0
split-join c (w ∷ v ∷ ws) ne h =
    ground (arith, split-append c w (join c (v ∷ ws)) h.0, split-join c (v ∷ ws) (λ e. cc) h.1)

push-All-IsFree :
    (c x : ℕ) (ws : List Text) → (x == c) ≡ false → All (IsFree c) ws → All (IsFree c) (push x ws)
unfolding has
push-All-IsFree c x [] h k = (ground arith, tt)
push-All-IsFree c x (w ∷ ws) h k = (ground arith, k.1)

-- No word of a split holds the separator.
pub split-All-IsFree : (c : ℕ) (s : Text) → All (IsFree c) (split c s)
unfolding split has
split-All-IsFree c [] = (refl, tt)
split-All-IsFree c (x ∷ s) = elim (Bool-cases (x == c)) [
  | inl e ↦ rw e (refl, split-All-IsFree c s)
  | inr e ↦ rw e (push-All-IsFree c x (split c s) e (split-All-IsFree c s))
]
