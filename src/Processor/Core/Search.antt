-- ===== src/Processor/Core/Search.antt =====
-- Which handler `_find_handler` of sawtooth_sdk/processor/core.py finds.
use sawtooth_sdk_python.Base.{
  ◌≡◌, refl, ap, true, false, Option, none, some, List, [], ◌∷◌, ◌++◌, Bool-cases, inl, inr, All,
  ◌↔◌, arith,
}
use sawtooth_sdk_python.Base.Text.{Text, text_eq, text_eq_iff}
use sawtooth_sdk_python.Processor.Link.{Header, TransactionHandler}
use sawtooth_sdk_python.Processor.Core.{matches, find_handler, mentions}

-- The text is one of the list.
pub data Among (v : Text) : List Text → Type 0 where
  here : {u : Text} {us : List Text} → v ≡ u → Among v (u ∷ us)
  there : {u : Text} {us : List Text} → Among v us → Among v (u ∷ us)

-- The handler is of the header's family and has its version among its own.
abbrev pub Handles : {W : Type 0} → Header → TransactionHandler W → Type 0
Handles header h =
    (header.family_name ≡ h.family_name) × Among header.family_version h.family_versions

-- A handler is found exactly if one handles the header, and it is the first of those that do.
pub data Found {W : Type 0} (header : Header)
    : List (TransactionHandler W) → Option (TransactionHandler W) → Type 0 where
  nowhere :
      (hs : List (TransactionHandler W)) → All (λ h. ¬ Handles header h) hs → Found header hs none
  first :
      (hs before after : List (TransactionHandler W)) (h : TransactionHandler W)
      → hs ≡ before ++ (h ∷ after)
      → All (λ h'. ¬ Handles header h') before
      → Handles header h
      → Found header hs (some h)

mentions_iff : (v : Text) (versions : List Text) → (mentions v versions ≡ true) ↔ Among v versions
unfolding mentions
mentions_iff v [] = (λ h. absurd (cc), λ m. elim m [ ])
mentions_iff v (u ∷ versions) =
    let rest = mentions_iff v versions in
    (
      λ h. elim (Bool-cases (text_eq v u)) [
        | inl e ↦ here ((text_eq_iff v u).0 e)
        | inr e ↦ there (rest.0 (ground arith))
      ],
      mentioned rest.1,
    )
  where
    mentioned :
        (Among v versions → mentions v versions ≡ true)
        → Among v (u ∷ versions)
        → mentions v (u ∷ versions) ≡ true
    mentioned rest (here e) = rw ((text_eq_iff v u).1 e) refl
    mentioned rest (there m) = let t = rest m in ground arith

matches_iff :
    {W : Type 0} (h : TransactionHandler W) (header : Header)
    → (matches h header ≡ true) ↔ Handles header h
unfolding matches
matches_iff h header =
    let family = text_eq_iff header.family_name h.family_name in
    let version = mentions_iff header.family_version h.family_versions in
    (
      λ e. (
        family.0 (let t : text_eq header.family_name h.family_name ≡ true = ground arith in t),
        version.0
            (let t : mentions header.family_version h.family_versions ≡ true = ground arith in t),
      ),
      λ e. let f = family.1 e.0 in let v = version.1 e.1 in ground arith,
    )

no_match :
    {W : Type 0} (h : TransactionHandler W) (header : Header)
    → matches h header ≡ false
    → ¬ Handles header h
no_match h header e m = let t = (matches_iff h header).1 m in cc

-- `_find_handler` returns the first of the handlers that are of the header's family and have its
-- version among theirs, and None exactly if none of them is.
pub find_handler-Found :
    {W : Type 0} (hs : List (TransactionHandler W)) (header : Header)
    → Found header hs (find_handler hs header)
unfolding find_handler
find_handler-Found [] header = nowhere [] tt
find_handler-Found {W} (h ∷ hs) header = elim (Bool-cases (matches h header)) [
  | inl m ↦ rw m (first (h ∷ hs) [] hs h refl tt ((matches_iff h header).0 m))
  | inr m ↦
      rw m (later (find_handler hs header) (find_handler-Found hs header) (no_match h header m))
]
  where
    later :
        (o : Option (TransactionHandler W))
        → Found header hs o
        → ¬ Handles header h
        → Found header (h ∷ hs) o
    later o (nowhere l none_of) m = nowhere (h ∷ l) (m, none_of)
    later o (first l before after h' e none_of m') m =
        first (h ∷ l) (h ∷ before) after h' (ap (λ t. h ∷ t) e) (m, none_of) m'
