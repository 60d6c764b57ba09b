-- ===== src/Testing/Agrees.antt =====
-- What the factories of sawtooth_processor_test and of the examples build: checked addresses, and the
-- state that the processors write.
use sawtooth_sdk_python.Base.{
  ◌≡◌, refl, true, false, ◌⊎◌, inl, inr, some, List, [], ◌∷◌, ◌++◌, All, Bool-cases, ℕ, ◌≤◌, ◌↔◌,
  length, ◌==◌, ==_iff, arith,
}
use sawtooth_sdk_python.Base.Text.{Text}
use sawtooth_sdk_python.Base.Text.Split.{join}
use sawtooth_sdk_python.Base.Exec.{Result, ok, raised, message, invalid_merkle_address_exception}
use sawtooth_sdk_python.Base.Platform.{Platform}
use sawtooth_sdk_python.Xo.Game.{Game, serialize, sorted, game_strs, game_str}
use sawtooth_sdk_python.Xo.State.{make_xo_address, xo_namespace}
use sawtooth_sdk_python.Testing.Factory.{
  StateMessage, is_valid_merkle_address, validate_addresses, create_set_request, all_chars,
  is_lower_hex,
}
use sawtooth_sdk_python.Testing.XoFactory
use sawtooth_sdk_python.Testing.XoFactory.{game_to_address, game_data, xo_factory}

-- A digit of a lower-case hexadecimal number.
abbrev pub IsHexDigit : ℕ → Type 0
IsHexDigit c = ((48 ≤ c) × (c ≤ 57)) ⊎ ((97 ≤ c) × (c ≤ 102))

-- Seventy such digits.
abbrev pub IsAddress : Text → Type 0
IsAddress a = (length a ≡ 70) × All IsHexDigit a

all_chars-iff-IsHexDigit : (a : Text) → (all_chars is_lower_hex a ≡ true) ↔ All IsHexDigit a
unfolding all_chars is_lower_hex
all_chars-iff-IsHexDigit [] = (λ h. tt, λ h. refl)
all_chars-iff-IsHexDigit (c ∷ a) =
    let rest = all_chars-iff-IsHexDigit a in
    let digit : (is_lower_hex c ≡ true) ↔ IsHexDigit c = (λ h. ground arith, λ h. ground arith) in
    (
      λ h. (
        digit.0 (let t : is_lower_hex c ≡ true = ground arith in t),
        rest.0 (let t : all_chars is_lower_hex a ≡ true = ground arith in t),
      ),
      λ h. let d = digit.1 h.0 in let r = rest.1 h.1 in ground arith,
    )

is_valid_merkle_address_iff : (a : Text) → (is_valid_merkle_address a ≡ true) ↔ IsAddress a
unfolding is_valid_merkle_address
is_valid_merkle_address_iff a =
    let hex = all_chars-iff-IsHexDigit a in
    let size = ==_iff (length a) 70 in
    (
      λ h. (
        size.0 (let t : (length a == 70) ≡ true = ground arith in t),
        hex.0 (let t : all_chars is_lower_hex a ≡ true = ground arith in t),
      ),
      λ h. let d = size.1 h.0 in let r = hex.1 h.1 in ground arith,
    )

invalid-IsAddress : (a : Text) → is_valid_merkle_address a ≡ false → ¬ IsAddress a
invalid-IsAddress a e h = let t = (is_valid_merkle_address_iff a).1 h in cc

-- The outcomes of the check of addresses: all are valid, or the first that is not is reported.
abbrev pub Checked : List Text → Result (Unit {0}) → Type 0
Checked addresses r =
    (All IsAddress addresses × (r ≡ ok tt))
    ⊎ ((before : List Text) × (a : Text) × (after : List Text) × (addresses ≡ before ++ a ∷ after)
        × All IsAddress before
        × (¬ IsAddress a)
        × (r
            ≡ raised (
                invalid_merkle_address_exception
                  (message "{} is not a valid merkle trie address" (a ∷ [])))))

-- `_validate_addresses` is exact: it returns where every address is of 70 digits from 0 to 9 and a to
-- f; otherwise it raises InvalidMerkleAddressException with the first address of the list that is not.
pub validate_addresses-Checked :
    (addresses : List Text) → Checked addresses (validate_addresses addresses)
unfolding validate_addresses
validate_addresses-Checked [] = inl (tt, refl)
validate_addresses-Checked (a ∷ addresses) = elim (Bool-cases (is_valid_merkle_address a)) [
  | inl e ↦ elim (validate_addresses-Checked addresses) [
    | inl (all, f) ↦ inl (((is_valid_merkle_address_iff a).0 e, all), rw e f)
    | inr (before, b, after, split, valid, invalid, f) ↦ inr (
      a ∷ before,
      b,
      after,
      rw split refl,
      ((is_valid_merkle_address_iff a).0 e, valid),
      invalid,
      rw e f,
    )
  ]
  | inr e ↦ inr ([], a, addresses, refl, tt, invalid-IsAddress a e, rw e refl)
]

pub game_to_address-eq :
    (platform : Platform) (name : Text)
    → game_to_address platform name ≡ make_xo_address platform name
unfolding game_to_address make_xo_address xo_factory xo_namespace
game_to_address-eq platform name = refl

-- The set request that a test of xo expects is the one that the processor sends: where the address is
-- valid, `create_set_request` of XoMessageFactory is the request to write, at the address that the
-- processor has for the game's name, the bytes that the processor serializes a dict of just that game
-- to.
pub set_request-stored :
    (platform : Platform) (g : Game)
    → is_valid_merkle_address (make_xo_address platform g.name) ≡ true
    → XoFactory.set_request platform g.name g.board (some g.state) g.player1 g.player2
      ≡ ok (
          StateMessage.set_request (
            record {
              address = make_xo_address platform g.name;
              bytes = serialize platform ((g.name, g) ∷ []);
            }
            ∷ []))
unfolding XoFactory.set_request create_set_request validate_addresses game_data serialize game_str
    game_strs sorted join
set_request-stored platform g valid = rw (game_to_address-eq platform g.name) (rw valid refl)
