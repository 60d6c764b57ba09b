-- ===== src/Testing/Examples.antt =====
-- The theorems on sawtooth_processor_test with messages that are a class and a list of entries.
use sawtooth_sdk_python.Base.{
  ℕ, zero, suc, ◌≡◌, refl, Bool, true, false, ◌&&◌, ◌↔◌, some, List, [], ◌∷◌, ◌==◌, ==_iff, arith,
  ◌≢◌,
}
use mathlib.Core.List.{Permᴰ}
use sawtooth_sdk_python.Base.Ascii.{ascii}
use sawtooth_sdk_python.Base.Platform.{Platform}
use sawtooth_sdk_python.Base.Text.{Text, Bytes, codes}
use sawtooth_sdk_python.Base.Exec.{ok, raised, unexpected_message_exception}
use sawtooth_sdk_python.Processor.Link.{Envelope}
use sawtooth_sdk_python.Testing.Order.{Pair}
use sawtooth_sdk_python.Testing.Types.{
  Objects, Kind, to_protobuf_class, to_message_type, proto_to_type, tp_state_set_request,
  tp_state_get_request, tp_register_response,
}
use sawtooth_sdk_python.Testing.Comparators.{
  compare_set_request, compare_set_request-iff-Perm, compare, pairs_eq, pairs_eq_iff,
}
use sawtooth_sdk_python.Testing.Mock.{init, receive, expect, expect_one}
use sawtooth_sdk_python.Testing.Expect.{Expected, expect-Expected}
use sawtooth_sdk_python.Testing.ExpectOne.{expect_one-never}
use sawtooth_sdk_python.Testing.Factory.{StateMessage, is_valid_merkle_address, validate_addresses}
use sawtooth_sdk_python.Testing.Agrees.{Checked, validate_addresses-Checked, set_request-stored}
use sawtooth_sdk_python.Testing.XoFactory
use sawtooth_sdk_python.Xo.Game.{Game, serialize}
use sawtooth_sdk_python.Xo.State.{make_xo_address, xo_namespace}

abbrev Object : Type 0
Object = Kind × List Pair

abbrev equal_objects : Object → Object → Bool
equal_objects (k, es) (j, fs) = (proto_to_type k == proto_to_type j) && pairs_eq es fs

equal_objects_refl : (m : Object) → equal_objects m m ≡ true
equal_objects_refl (k, es) =
    ground (arith, pairs_eq_iff es es, ==_iff (proto_to_type k) (proto_to_type k))

class_of_parsed :
    (k : Kind) (b : Bytes) {m : Object} → some (k, (b, b) ∷ []) ≡ some m → some m.0 ≡ some k
class_of_parsed k b {m} h = let e : (k, (b, b) ∷ []) ≡ m = cc in rw (← e) refl

abbrev envelope : Bytes → Envelope
envelope b = record {
  message_type = elim b [ [] ↦ 0 | n ∷ rest ↦ n ];
  correlation_id = [];
  content = b;
}

abbrev objects : Objects Object
objects = record {
  class_of = λ m. some m.0;
  parse = λ k b. some (k, (b, b) ∷ []);
  serialize = λ m. [];
  equals = equal_objects;
  equals_refl = equal_objects_refl;
  class_of-parse = class_of_parsed;
  entries = λ m. m.1;
  status = λ m. 0;
  protocol_version = λ m. 1;
  registered = λ n. (tp_register_response, []);
  parse_envelope = λ b. some (envelope b);
}

-- A set request comes: its type is 9.
abbrev nine : Bytes
nine = 9 ∷ []

abbrev one_entry : Object
one_entry = (tp_state_set_request, (nine, nine) ∷ [])

compare_set_request-iff-Perm_example :
    (compare_set_request objects one_entry one_entry ≡ true)
    ↔ Permᴰ (objects.entries one_entry) (objects.entries one_entry)
compare_set_request-iff-Perm_example = compare_set_request-iff-Perm objects one_entry one_entry

nine_received : receive objects ([], nine) ≡ ok (envelope nine, [])
unfolding receive to_protobuf_class
nine_received = refl

nine_class : to_protobuf_class 9 ≡ ok tp_state_set_request
unfolding to_protobuf_class
nine_class = refl

expect-Expected_example :
    Expected objects
      (envelope nine)
      tp_state_set_request
      tp_state_set_request
      one_entry
      one_entry
      (expect objects (init objects) ([], nine) one_entry)
expect-Expected_example =
    expect-Expected objects ([], nine) [] (envelope nine) tp_state_set_request tp_state_set_request
      one_entry one_entry nine_received nine_class refl refl

abbrev a_get : Object
a_get = (tp_state_get_request, [])

differs : compare objects (init objects).comparators a_get one_entry ≡ ok false
unfolding compare to_message_type proto_to_type
differs = refl

expect_one-never_example :
    expect_one objects (init objects) ([], nine) (a_get ∷ []) ≢ raised unexpected_message_exception
expect_one-never_example = expect_one-never objects (init objects) ([], nine) (a_get ∷ [])

validate_addresses-Checked_example :
    Checked (codes "00" ∷ []) (validate_addresses (codes "00" ∷ []))
validate_addresses-Checked_example = validate_addresses-Checked (codes "00" ∷ [])

abbrev letters : ℕ → Text
letters zero = []
letters (suc n) = b'a' ∷ letters n

-- Every text has the same digest.
abbrev constant : Platform
constant = record ascii { sha512_hexdigest = λ b. letters 128 }

abbrev a_game : Game
a_game = record {
  name = codes "g";
  board = codes "---------";
  state = codes "P1-NEXT";
  player1 = [];
  player2 = [];
}

a_game_valid : is_valid_merkle_address (make_xo_address constant (codes "g")) ≡ true
unfolding is_valid_merkle_address make_xo_address xo_namespace
a_game_valid = refl

set_request-stored_example :
    XoFactory.set_request constant (codes "g") (codes "---------") (some (codes "P1-NEXT")) [] []
    ≡ ok (
        StateMessage.set_request (
          record {
            address = make_xo_address constant (codes "g");
            bytes = serialize constant ((codes "g", a_game) ∷ []);
          }
          ∷ []))
set_request-stored_example = set_request-stored constant a_game a_game_valid
