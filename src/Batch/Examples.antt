-- ===== src/Batch/Examples.antt =====
-- The theorems on the clients' transactions and batches with the curve of two keys.
use sawtooth_sdk_python.Base.{ℕ, ◌≡◌, refl, Bool, true, Option, some, List, [], ◌∷◌, concat}
use sawtooth_sdk_python.Base.Ascii.{ascii}
use sawtooth_sdk_python.Base.Text.{Text, Bytes, codes}
use sawtooth_sdk_python.Base.Dict.{Dict}
use sawtooth_sdk_python.Base.Exec.{ok, pure, ◌>>=◌}
use sawtooth_sdk_python.Base.Int.{pos}
use sawtooth_sdk_python.Intkey.Plain.{plain, loads-dumps}
use sawtooth_sdk_python.Signing.Hex.{hexlify}
use sawtooth_sdk_python.Signing.Keys.{sign, secp256k1_context}
use sawtooth_sdk_python.Signing.Signer.{Signer, init}
use sawtooth_sdk_python.Signing.Sound.{init-IsCoherent, secp256k1-IsLawful}
use sawtooth_sdk_python.Signing.Bits.{bits, bits_context}
use sawtooth_sdk_python.Batch.Signed.{IsSigner, Makes, public_key_of}
use sawtooth_sdk_python.Batch.Intkey.{
  SortedDumps, create_intkey_transaction, Choice, names, do_populate,
}
use sawtooth_sdk_python.Batch.Accepted.{IsFor, create_intkey_transaction-IsFor}
use sawtooth_sdk_python.Batch.Words.{populate_words}
use sawtooth_sdk_python.Batch.Populate.{do_populate-eq-populate_words}
use sawtooth_sdk_python.Batch.Chunks.{split_batch_list, AreChunks, split_batch_list-AreChunks}
use sawtooth_sdk_python.Batch.Plain.{plain_proto}

abbrev signer : Signer Bool Bool
signer = init bits_context true

bits_sign : (m : Bytes) → (s : Text) × (bits_context.sign m true ≡ ok s)
unfolding secp256k1_context sign
bits_sign m = (hexlify (1 ∷ []), refl)

signer-IsSigner : IsSigner signer
unfolding init secp256k1_context
signer-IsSigner = record {
  lawful = secp256k1-IsLawful bits;
  coherent = init-IsCoherent bits_context true;
  signs = bits_sign;
}

unfoldable in_order : SortedDumps plain
in_order = record {
  dumps_sorted = plain.dumps;
  sorted_entries = λ d. d;
  loads-dumps_sorted = loads-dumps;
  lookup-sorted_entries = λ k d. refl;
}

create_intkey_transaction-IsFor_example :
    Makes signer
      (IsFor ascii plain in_order plain_proto signer.context
        (public_key_of signer)
        (codes "inc")
        (codes "a")
        (pos 4)
        []
        (codes "0x7"))
      (create_intkey_transaction ascii plain in_order plain_proto
        (codes "inc")
        (codes "a")
        (pos 4)
        []
        (codes "0x7")
        signer)
create_intkey_transaction-IsFor_example =
    create_intkey_transaction-IsFor ascii plain in_order plain_proto (codes "inc") (codes "a")
      (pos 4) [] (codes "0x7") signer signer-IsSigner

abbrev keys : Dict (Option Text)
keys = (codes "a", some (codes "01")) ∷ (codes "b", some (codes "02")) ∷ []

abbrev second_key : Choice
second_key = record { is_inc = true; place = 1; value = 3; nonce = codes "0x7" }

do_populate-eq-populate_words_example :
    (do_populate ascii plain in_order plain_proto (λ i. 9000) (λ i. codes "0x7") [] keys >>= λ made.
    pure made.0)
      signer
    ≡ populate_words ascii plain in_order plain_proto
        (λ i. 9000)
        (λ i. codes "0x7")
        (names keys)
        signer
do_populate-eq-populate_words_example =
    do_populate-eq-populate_words ascii plain in_order plain_proto (λ i. 9000) (λ i. codes "0x7")
      keys signer

abbrev three : List ℕ
three = 1 ∷ 2 ∷ 3 ∷ []

split_batch_list-AreChunks_example :
    (concat (split_batch_list three) ≡ three) × AreChunks (split_batch_list three)
split_batch_list-AreChunks_example = split_batch_list-AreChunks three
