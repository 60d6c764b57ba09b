-- ===== src/Base/Platform.antt =====
-- What the program takes from the platform and does not define: UTF-8, the SHA-512 digest, and the
-- tables of Unicode by which `int` reads a number.
use mathlib.Core.List.{[], ◌∷◌, reverse}
use sawtooth_sdk_python.Base.Tests.{◌==◌, if◌then◌else◌}
use Prim.Native.Nat.{ℕ, ◌+◌, ◌*◌}
use mathlib.Core.Path.{◌≡◌}
use mathlib.Core.Bool.{Bool, true, false, ◌&&◌}
use mathlib.Core.Option.{Option, none, some}
use sawtooth_sdk_python.Base.Text.{Text, Bytes}
use sawtooth_sdk_python.Base.Int.{ℤ, pos, sub_ℕ}

pub record Platform : Type 0 where
  -- `str.encode('utf-8')` and `bytes.decode()`, where `none` is a UnicodeDecodeError
  pub encode : Text → Bytes
  pub decode : Bytes → Option Text
  pub decode-encode : (t : Text) → decode (encode t) ≡ some t
  pub encode_nil : encode [] ≡ []
  -- `hashlib.sha512(b).hexdigest()`
  pub sha512_hexdigest : Bytes → Text
  -- the value of a decimal digit, and white space, of Unicode
  pub decimal : ℕ → Option ℕ
  pub is_space : ℕ → Bool

module _ (platform : Platform) where
  -- `s.lstrip()` and `s.strip()`
  unfoldable pub lstrip : Text → Text
  lstrip [] = []
  lstrip (c ∷ s) = let rest = lstrip s in if platform.is_space c then rest else c ∷ s

  unfoldable pub strip : Text → Text
  unfolding lstrip
  strip s = reverse (lstrip (reverse (lstrip s)))

  -- Digits, with single underscores between them; `after` says that a digit has just been read.
  unfoldable pub read_digits : ℕ → Bool → Text → Option ℕ
  read_digits n after [] = if after then some n else none
  read_digits n after (c ∷ s) = elim (platform.decimal c) [
    | some d ↦ read_digits (n * 10 + d) true s
    | none ↦ elim (c == b'_' && after) [ true ↦ read_digits n false s | false ↦ none ]
  ]

  abbrev signed : (ℕ → ℤ) → Option ℕ → Option ℤ
  signed f none = none
  signed f (some n) = some (f n)

  unfoldable pub read_signed : Text → Option ℤ
  unfolding read_digits
  read_signed [] = none
  read_signed (c ∷ s) =
      if c == b'-'
      then signed (λ n. sub_ℕ 0 n) (read_digits 0 false s)
      else if c == b'+'
      then signed pos (read_digits 0 false s)
      else signed pos (read_digits 0 false (c ∷ s))

  -- `int(s)`, where `none` is a ValueError
  unfoldable pub parse_int : Text → Option ℤ
  unfolding strip read_signed
  parse_int s = read_signed (strip s)
