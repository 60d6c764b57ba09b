-- ===== src/Batch/Plain.antt =====
-- A serializer of the headers that has the laws of protobuf, to run the program with: texts one after
-- the other, each closed by a 0, with the lengths of the lists among them.
use sawtooth_sdk_python.Base.{
  ℕ, zero, suc, ◌≡◌, refl, ap, ◌∙◌, Option, none, some, List, [], ◌∷◌, ◌++◌, length, take, drop,
}
use mathlib.Core.List.{append_assoc}
use sawtooth_sdk_python.Base.Text.{Text, Bytes}
use sawtooth_sdk_python.Batch.Messages.{Proto, TransactionHeader, BatchHeader}

abbrev put_text : Text → Bytes → Bytes
put_text [] rest = 0 ∷ rest
put_text (c ∷ t) rest = suc c ∷ put_text t rest

abbrev put : List Text → Bytes
put [] = []
put (t ∷ ts) = put_text t (put ts)

abbrev push : ℕ → List Text → List Text
push c [] = []
push c (t ∷ ts) = (c ∷ t) ∷ ts

abbrev texts : Bytes → List Text
texts [] = []
texts (zero ∷ rest) = [] ∷ texts rest
texts (suc c ∷ rest) = push c (texts rest)

texts-put_text : (t : Text) (rest : Bytes) → texts (put_text t rest) ≡ t ∷ texts rest
texts-put_text [] rest = refl
texts-put_text (c ∷ t) rest = ap (push c) (texts-put_text t rest)

texts-put : (ts : List Text) → texts (put ts) ≡ ts
texts-put [] = refl
texts-put (t ∷ ts) = texts-put_text t (put ts) ∙ ap (λ us. t ∷ us) (texts-put ts)

take-append {ℓ} : {A : Type ℓ} (xs ys : List A) → take (length xs) (xs ++ ys) ≡ xs
take-append [] ys = refl
take-append (x ∷ xs) ys = ap (λ zs. x ∷ zs) (take-append xs ys)

drop-append {ℓ} : {A : Type ℓ} (xs ys : List A) → drop (length xs) (xs ++ ys) ≡ ys
drop-append [] ys = refl
drop-append (x ∷ xs) ys = drop-append xs ys

abbrev header_of : List Text → Option TransactionHeader
header_of ((n ∷ []) ∷ (m ∷ []) ∷ key ∷ family ∷ version ∷ digest ∷ batcher ∷ nonce ∷ rest) =
    some (record {
      signer_public_key = key;
      family_name = family;
      family_version = version;
      inputs = take n rest;
      outputs = take m (drop n rest);
      dependencies = drop m (drop n rest);
      payload_sha512 = digest;
      batcher_public_key = batcher;
      nonce = nonce;
    })
header_of _ = none

abbrev header_texts : TransactionHeader → List Text
header_texts h =
    (length h.inputs ∷ [])
    ∷ (length h.outputs ∷ [])
    ∷ h.signer_public_key
    ∷ h.family_name
    ∷ h.family_version
    ∷ h.payload_sha512
    ∷ h.batcher_public_key
    ∷ h.nonce
    ∷ (h.inputs ++ h.outputs ++ h.dependencies)

header_of-texts : (h : TransactionHeader) → header_of (header_texts h) ≡ some h
header_of-texts h =
    let assoc = append_assoc h.inputs h.outputs h.dependencies in
    simp (assoc, take-append, drop-append) refl

abbrev batch_of : List Text → Option BatchHeader
batch_of [] = none
batch_of (key ∷ ids) = some (record { signer_public_key = key; transaction_ids = ids })

pub read_header : (h : TransactionHeader) → header_of (texts (put (header_texts h))) ≡ some h
read_header h = rw (texts-put (header_texts h)) (header_of-texts h)

pub read_batch :
    (h : BatchHeader) → batch_of (texts (put (h.signer_public_key ∷ h.transaction_ids))) ≡ some h
read_batch h = rw (texts-put (h.signer_public_key ∷ h.transaction_ids)) refl

unfoldable pub plain_proto : Proto
plain_proto = record {
  transaction_header_bytes = λ h. put (header_texts h);
  read_transaction_header = λ b. header_of (texts b);
  batch_header_bytes = λ h. put (h.signer_public_key ∷ h.transaction_ids);
  read_batch_header = λ b. batch_of (texts b);
  read_transaction_header-bytes = read_header;
  read_batch_header-bytes = read_batch;
}
