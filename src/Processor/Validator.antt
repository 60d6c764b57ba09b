-- ===== src/Processor/Validator.antt =====
-- The validator behind a context (not in this repository), as far as its documentation goes for a
-- transaction that is authorized at the addresses: one entry is got, set or deleted at a time.
use sawtooth_sdk_python.Base.{ℕ, ◌≡◌, refl, Option, none, some, List, [], ◌∷◌, arith, if◌then◌else◌}
use sawtooth_sdk_python.Base.Text.{Text, Bytes, is_empty, text_eq}
use sawtooth_sdk_python.Base.Dict.{Dict, lookup, insert, lookup-insert}
use sawtooth_sdk_python.Base.Exec.{ok}
use sawtooth_sdk_python.Processor.Context.{
  Peer, Context, Entry, status_ok, is_unauthorized, get_state, set_state, delete_state,
  state_entries, add_ok,
}

abbrev pub one_entry : Text → Bytes → List Entry
one_entry address bytes = record { address = address; bytes = bytes } ∷ []

-- The bytes at an address are empty where nothing has been set.
pub record Validator {W : Type 0} (peer : Peer W) : Type 0 where
  pub contents : W → Text → Bytes
  pub get_one :
      (c a : Text) (t : Option ℕ) (w : W)
      → peer.state_get c (a ∷ []) t w
        ≡ (ok (record { status = status_ok; entries = one_entry a (contents w a) }), w)
  pub set_one :
      (c a : Text) (d : Bytes) (t : Option ℕ) (w : W)
      → (peer.state_set c (one_entry a d) t w).0
        ≡ ok (record { status = status_ok; addresses = a ∷ [] })
  pub contents-set_one :
      (c a b : Text) (d : Bytes) (t : Option ℕ) (w : W)
      → contents (peer.state_set c (one_entry a d) t w).1 b
        ≡ (if text_eq a b then d else contents w b)
  pub delete_one :
      (c a : Text) (t : Option ℕ) (w : W)
      → (peer.state_delete c (a ∷ []) t w).0
        ≡ ok (record { status = status_ok; addresses = a ∷ [] })
  pub contents-delete_one :
      (c a b : Text) (t : Option ℕ) (w : W)
      → contents (peer.state_delete c (a ∷ []) t w).1 b ≡ (if text_eq a b then [] else contents w b)

module _ {W : Type 0} (context : Context W) (v : Validator context.stream) where
  -- The world after one address has been set, or deleted.
  pub after_set : Text → Bytes → Option ℕ → W → W
  after_set a d t w = (context.stream.state_set context.context_id (one_entry a d) t w).1

  pub after_delete : Text → Option ℕ → W → W
  after_delete a t w = (context.stream.state_delete context.context_id (a ∷ []) t w).1

  -- `get_state` of one address returns an entry exactly where there are bytes.
  pub get_state_one :
      (a : Text) (t : Option ℕ) (w : W)
      → get_state context (a ∷ []) t w
        ≡ (ok (if is_empty (v.contents w a) then [] else one_entry a (v.contents w a)), w)
  unfolding get_state is_unauthorized
  get_state_one a t w = rw (v.get_one context.context_id a t w) (ground arith)

  pub set_state_one :
      (a : Text) (d : Bytes) (t : Option ℕ) (w : W)
      → set_state context ((a, d) ∷ []) t w ≡ (ok (a ∷ []), after_set a d t w)
  unfolding set_state is_unauthorized state_entries after_set
  set_state_one a d t w = rw (v.set_one context.context_id a d t w) refl

  pub delete_state_one :
      (a : Text) (t : Option ℕ) (w : W)
      → delete_state context (a ∷ []) t w ≡ (ok (a ∷ []), after_delete a t w)
  unfolding delete_state is_unauthorized after_delete
  delete_state_one a t w = rw (v.delete_one context.context_id a t w) refl

  pub contents-after_set :
      (a b : Text) (d : Bytes) (t : Option ℕ) (w : W)
      → v.contents (after_set a d t w) b ≡ (if text_eq a b then d else v.contents w b)
  unfolding after_set
  contents-after_set a b d t w = v.contents-set_one context.context_id a b d t w

  pub contents-after_delete :
      (a b : Text) (t : Option ℕ) (w : W)
      → v.contents (after_delete a t w) b ≡ (if text_eq a b then [] else v.contents w b)
  unfolding after_delete
  contents-after_delete a b t w = v.contents-delete_one context.context_id a b t w

-- A validator in memory: a dict of addresses. It shows that the laws can be met.
abbrev pub at_address : Option Bytes → Bytes
at_address none = []
at_address (some d) = d

abbrev pub write_all : List Entry → Dict Bytes → Dict Bytes
write_all [] w = w
write_all (e ∷ entries) w = write_all entries (insert e.address e.bytes w)

abbrev pub clear_all : List Text → Dict Bytes → Dict Bytes
clear_all [] w = w
clear_all (a ∷ addresses) w = clear_all addresses (insert a [] w)

abbrev pub read_all : List Text → Dict Bytes → List Entry
read_all [] w = []
read_all (a ∷ addresses) w =
    record { address = a; bytes = at_address (lookup a w) } ∷ read_all addresses w

abbrev pub addresses_of : List Entry → List Text
addresses_of [] = []
addresses_of (e ∷ entries) = e.address ∷ addresses_of entries

abbrev pub memory : Peer (Dict Bytes)
memory = record {
  state_get =
      λ c addresses t w. (ok (record { status = status_ok; entries = read_all addresses w }), w);
  state_set = λ c entries t w.
      (ok (record { status = status_ok; addresses = addresses_of entries }), write_all entries w);
  state_delete = λ c addresses t w.
      (ok (record { status = status_ok; addresses = addresses }), clear_all addresses w);
  receipt_add_data = λ c d t w. (ok add_ok, w);
  event_add = λ c e t w. (ok add_ok, w);
}

abbrev pub memory_context : Context (Dict Bytes)
memory_context = record { stream = memory; context_id = [] }

pub at_address-insert :
    (a b : Text) (d : Bytes) (w : Dict Bytes)
    → at_address (lookup b (insert a d w)) ≡ (if text_eq a b then d else at_address (lookup b w))
at_address-insert a b d w = rw lookup-insert (ground arith)

abbrev pub memory_laws : Validator memory
memory_laws = record {
  contents = λ w a. at_address (lookup a w);
  get_one = λ c a t w. refl;
  set_one = λ c a d t w. refl;
  contents-set_one = λ c a b d t w. at_address-insert a b d w;
  delete_one = λ c a t w. refl;
  contents-delete_one = λ c a b t w. at_address-insert a b [] w;
}
