-- ===== src/Signing/Hex.antt =====
-- The functions of Python's `binascii` and `bytes` that sawtooth_signing/secp256k1.py reads and writes
-- keys and signatures with, and that reading undoes writing.
use sawtooth_sdk_python.Base.{
  ℕ, ◌+◌, ◌-◌, ◌*◌, ◌<◌, ◌≡◌, refl, Bool, false, ◌&&◌, ◌||◌, Option, none, some, [], ◌∷◌, arith,
  ltb, leb, ◌==◌, if◌then◌else◌, All, length,
}
use Prim.Native.Nat.{◌/◌, ◌%◌}
use sawtooth_sdk_python.Base.Text.{Text, Bytes}

-- A character of a number below 16, and the number of a character.
unfoldable pub digit_char : ℕ → ℕ
digit_char n = if ltb n 10 then n + 48 else n + 87

unfoldable pub digit_value : ℕ → Option ℕ
digit_value c =
    if leb 48 c && ltb c 58
    then some (c - 48)
    else if leb 97 c && ltb c 103
    then some (c - 87)
    else if leb 65 c && ltb c 71
    then some (c - 55)
    else none

-- `binascii.hexlify(b).decode()` and `b.hex()`
unfoldable pub hexlify : Bytes → Text
unfolding digit_char
hexlify [] = []
hexlify (b ∷ bytes) = digit_char (b / 16) ∷ digit_char (b % 16) ∷ hexlify bytes

abbrev pub pair_of : Option ℕ → Option ℕ → Option Bytes → Option Bytes
pair_of (some high) (some low) (some rest) = some ((high * 16 + low) ∷ rest)
pair_of _ _ _ = none

-- `binascii.unhexlify(s)`, where `none` is an exception
unfoldable pub unhexlify : Text → Option Bytes
unfolding digit_value
unhexlify [] = some []
unhexlify (c ∷ []) = none
unhexlify (c ∷ d ∷ s) = pair_of (digit_value c) (digit_value d) (unhexlify s)

-- The white space of ASCII, which `bytes.fromhex` skips between two bytes.
unfoldable pub is_blank : ℕ → Bool
is_blank c = c == 32 || (leb 9 c && ltb c 14)

-- `bytes.fromhex(s)`
unfoldable pub fromhex : Text → Option Bytes
unfolding digit_value is_blank
fromhex [] = some []
fromhex (c ∷ []) = if is_blank c then some [] else none
fromhex (c ∷ d ∷ s) =
    let skipped = fromhex (d ∷ s) in
    let read = pair_of (digit_value c) (digit_value d) (fromhex s) in
    if is_blank c then skipped else read

abbrev pub IsBytes : Bytes → Type 0
IsBytes = All (λ b. b < 256)

digit_value-digit_char : (n : ℕ) → n < 16 → digit_value (digit_char n) ≡ some n
unfolding digit_value digit_char
digit_value-digit_char n h = ground arith

is_blank-digit_char : (n : ℕ) → n < 16 → is_blank (digit_char n) ≡ false
unfolding is_blank digit_char
is_blank-digit_char n h = ground arith

pub unhexlify-hexlify : (bytes : Bytes) → IsBytes bytes → unhexlify (hexlify bytes) ≡ some bytes
unfolding unhexlify hexlify
unhexlify-hexlify [] h = refl
unhexlify-hexlify (b ∷ bytes) h =
    let high : digit_value (digit_char (b / 16)) ≡ some (b / 16) =
      digit_value-digit_char (b / 16) (omega arith) in
    let low : digit_value (digit_char (b % 16)) ≡ some (b % 16) =
      digit_value-digit_char (b % 16) (omega arith) in
    rw high (rw low (rw (unhexlify-hexlify bytes h.1) (ground arith)))

pub fromhex-hexlify : (bytes : Bytes) → IsBytes bytes → fromhex (hexlify bytes) ≡ some bytes
unfolding fromhex hexlify
fromhex-hexlify [] h = refl
fromhex-hexlify (b ∷ bytes) h =
    let high : digit_value (digit_char (b / 16)) ≡ some (b / 16) =
      digit_value-digit_char (b / 16) (omega arith) in
    let low : digit_value (digit_char (b % 16)) ≡ some (b % 16) =
      digit_value-digit_char (b % 16) (omega arith) in
    rw (is_blank-digit_char (b / 16) (omega arith))
      (rw high (rw low (rw (fromhex-hexlify bytes h.1) (ground arith))))

pub length-hexlify : (bytes : Bytes) → length (hexlify bytes) ≡ 2 * length bytes
unfolding hexlify
length-hexlify [] = refl
length-hexlify (b ∷ bytes) = omega (arith, length-hexlify bytes)
