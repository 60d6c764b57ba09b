-- ===== src/Base/Ascii.antt =====
-- A platform to run the program on: one byte for a character, and the text itself for its digest.
use sawtooth_sdk_python.Base.{
  ℕ, ◌-◌, refl, ◌&&◌, ◌||◌, not, Option, none, some, if◌then◌else◌, ◌==◌, ltb,
}
use sawtooth_sdk_python.Base.Platform.{Platform}

abbrev digit : ℕ → Option ℕ
digit c = if not (ltb c b'0') && ltb c 58 then some (c - b'0') else none

abbrev pub ascii : Platform
ascii = record {
  encode = λ t. t;
  decode = λ b. some b;
  decode-encode = λ t. refl;
  encode_nil = refl;
  sha512_hexdigest = λ b. b;
  decimal = digit;
  is_space = λ c. c == b' ' || c == b'\n';
}
