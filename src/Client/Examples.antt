-- ===== src/Client/Examples.antt =====
-- The theorems on the clients with an API that takes every post, and records what is asked of it.
use sawtooth_sdk_python.Base.{◌≡◌, refl, Bool, true, none, some, List, [], ◌∷◌, take}
use sawtooth_sdk_python.Base.Ascii.{ascii}
use sawtooth_sdk_python.Base.Text.{Text, Bytes, codes, has, text_eq}
use sawtooth_sdk_python.Base.Text.Split.{IsFree}
use sawtooth_sdk_python.Base.Exec.{ok}
use sawtooth_sdk_python.Signing.Hex.{hexlify}
use sawtooth_sdk_python.Signing.Keys.{sign, secp256k1_context}
use sawtooth_sdk_python.Signing.Signer.{Signer, init}
use sawtooth_sdk_python.Signing.Sound.{init-IsCoherent, secp256k1-IsLawful}
use sawtooth_sdk_python.Signing.Bits.{bits, bits_context}
use sawtooth_sdk_python.Batch.Signed.{IsSigner}
use sawtooth_sdk_python.Batch.Plain.{plain_proto}
use sawtooth_sdk_python.Client.Rest.{Rest, HttpRequest, response}
use sawtooth_sdk_python.Client.Xo.{XoClient, send_xo_txn}
use sawtooth_sdk_python.Base.{All}
use sawtooth_sdk_python.Base.Text.{text_eq}
use sawtooth_sdk_python.Base.Dict.{lookup, IsKeyed}
use sawtooth_sdk_python.Xo.Game.{Game, serialize}
use sawtooth_sdk_python.Xo.Game.RoundTrip.{IsStorable}
use sawtooth_sdk_python.Client.Commands.{show_game}
use sawtooth_sdk_python.Client.Shown.{picture, show_game-stored}
use sawtooth_sdk_python.Client.Understood.{Sends, send_xo_txn-Sends}

abbrev recorder : Rest (List HttpRequest)
recorder = record {
  exchange = λ asked w. (response 202 true [] (codes "{}"), asked ∷ w);
  batch_list_bytes = λ bs. [];
  status_of = λ t. some (codes "COMMITTED");
  entries_of = λ t. none;
  data_of = λ t. none;
  b64encode = λ b. b;
}

abbrev signer : Signer Bool Bool
signer = init bits_context true

bits_sign : (m : Bytes) → (s : Text) × (bits_context.sign m true ≡ ok s)
unfolding secp256k1_context sign
bits_sign m = (hexlify (1 ∷ []), refl)

signer-IsSigner : IsSigner signer
unfolding init secp256k1_context
signer-IsSigner = record {
  lawful = secp256k1-IsLawful bits;
  coherent = init-IsCoherent bits_context true;
  signs = bits_sign;
}

abbrev client : XoClient (List HttpRequest) Bool Bool
client = record { base_url = codes "http://localhost:8008"; signer = some signer; world = [] }

g_IsFree : IsFree b',' (codes "g")
unfolding has
g_IsFree = refl

take_IsFree : IsFree b',' (codes "take")
unfolding has
take_IsFree = refl

five_IsFree : IsFree b',' (codes "5")
unfolding has
five_IsFree = refl

over_http : text_eq (take 7 client.base_url) (codes "http://") ≡ true
unfolding text_eq
over_http = refl

send_xo_txn-Sends_example :
    Sends ascii plain_proto recorder client signer
      (codes "g")
      (codes "take")
      (codes "5")
      (codes "0x7")
      []
      (some 3)
      (0 ∷ 2 ∷ [])
      (send_xo_txn ascii recorder plain_proto
        (codes "g")
        (codes "take")
        (codes "5")
        (codes "0x7")
        []
        (some 3)
        (0 ∷ 2 ∷ [])
        client)
send_xo_txn-Sends_example =
    send_xo_txn-Sends ascii plain_proto recorder client signer (codes "g") (codes "take")
      (codes "5") (codes "0x7") [] (some 3) (0 ∷ 2 ∷ []) refl signer-IsSigner g_IsFree take_IsFree
      five_IsFree over_http

abbrev middle_taken : Game
middle_taken = record {
  name = codes "g";
  board = codes "----X----";
  state = codes "P2-NEXT";
  player1 = codes "alice";
  player2 = [];
}

middle_taken-IsStorable : All IsStorable ((codes "g", middle_taken) ∷ [])
unfolding has
middle_taken-IsStorable = (
  record {
    named = refl;
    name = record { no_comma = refl; no_bar = refl };
    board = record { no_comma = refl; no_bar = refl };
    state = record { no_comma = refl; no_bar = refl };
    player1 = record { no_comma = refl; no_bar = refl };
    player2 = record { no_comma = refl; no_bar = refl };
  },
  tt,
)

middle_taken-IsKeyed : IsKeyed ((codes "g", middle_taken) ∷ [])
unfolding lookup
middle_taken-IsKeyed = (refl, tt)

middle_taken_held : lookup (codes "g") ((codes "g", middle_taken) ∷ []) ≡ some middle_taken
unfolding lookup text_eq
middle_taken_held = refl

show_game-stored_example :
    show_game ascii (codes "g") (some (serialize ascii ((codes "g", middle_taken) ∷ []))) []
    ≡ (ok tt, picture (codes "g") middle_taken b'-' b'-' b'-' b'-' b'X' b'-' b'-' b'-' b'-')
show_game-stored_example =
    show_game-stored ascii ((codes "g", middle_taken) ∷ []) (codes "g") middle_taken b'-' b'-' b'-'
      b'-' b'X' b'-' b'-' b'-' b'-' (λ e. cc) middle_taken-IsKeyed middle_taken-IsStorable
      middle_taken_held refl
