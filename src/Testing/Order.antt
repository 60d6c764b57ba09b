-- ===== src/Testing/Order.antt =====
-- Python's `sorted` of pairs of a text and bytes, and that two lists have the same sorted list just
-- where the one is a permutation of the other.
use sawtooth_sdk_python.Base.{
  ◌≡◌, refl, sym, subst, ap, ◌∙◌, Bool, true, ◌||◌, inl, inr, ◌↔◌, List, [], ◌∷◌, Bool-cases,
  if◌then◌else◌, arith, length, suc,
}
use mathlib.Core.List.Permᴰ
use mathlib.Core.List.{Permᴰ}
use sawtooth_sdk_python.Base.Text.{Text, Bytes, text_eq, text_eq_iff, text_leb}

abbrev pub Pair : Type 0
Pair = Text × Bytes

-- `p <= q`
unfoldable pub pair_leb : Pair → Pair → Bool
pair_leb (a, d) (b, e) = if text_eq a b then text_leb d e else text_leb a b

text_leb_total : (s t : Text) → (text_leb s t || text_leb t s) ≡ true
unfolding text_leb
text_leb_total [] [] = refl
text_leb_total [] (y ∷ t) = refl
text_leb_total (x ∷ s) [] = refl
text_leb_total (x ∷ s) (y ∷ t) = ground (arith, text_leb_total s t)

text_leb_antisym : (s t : Text) → text_leb s t ≡ true → text_leb t s ≡ true → s ≡ t
unfolding text_leb
text_leb_antisym [] [] h k = refl
text_leb_antisym [] (y ∷ t) h k = absurd (cc)
text_leb_antisym (x ∷ s) [] h k = absurd (cc)
text_leb_antisym (x ∷ s) (y ∷ t) h k = ground (arith, text_leb_antisym s t)

text_leb_trans : (s t u : Text) → text_leb s t ≡ true → text_leb t u ≡ true → text_leb s u ≡ true
unfolding text_leb
text_leb_trans [] t u h k = refl
text_leb_trans (x ∷ s) [] u h k = absurd (cc)
text_leb_trans (x ∷ s) (y ∷ t) [] h k = absurd (cc)
text_leb_trans (x ∷ s) (y ∷ t) (z ∷ u) h k = ground (arith, text_leb_trans s t u)

pair_leb_total : (p q : Pair) → (pair_leb p q || pair_leb q p) ≡ true
unfolding pair_leb
pair_leb_total (a, d) (b, e) =
    ground (arith, text_leb_total a b, text_leb_total d e, text_eq_iff a b, text_eq_iff b a)

pair_leb_antisym : (p q : Pair) → pair_leb p q ≡ true → pair_leb q p ≡ true → p ≡ q
unfolding pair_leb
pair_leb_antisym (a, d) (b, e) h k =
    ground (arith, text_leb_antisym a b, text_leb_antisym d e, text_eq_iff a b, text_eq_iff b a)

pair_leb_trans : (p q r : Pair) → pair_leb p q ≡ true → pair_leb q r ≡ true → pair_leb p r ≡ true
unfolding pair_leb
pair_leb_trans (a, d) (b, e) (c, f) h k = ground (
  arith,
  text_leb_trans a b c,
  text_leb_trans d e f,
  text_leb_antisym a b,
  text_eq_iff a b,
  text_eq_iff b c,
  text_eq_iff a c,
)

unfoldable insert : Pair → List Pair → List Pair
insert p [] = p ∷ []
insert p (q ∷ l) = if pair_leb p q then p ∷ q ∷ l else q ∷ insert p l

-- `sorted(l)`
unfoldable pub sorted : List Pair → List Pair
unfolding insert pair_leb
sorted [] = []
sorted (p ∷ l) = insert p (sorted l)

insert_comm : (p q : Pair) (l : List Pair) → insert p (insert q l) ≡ insert q (insert p l)
unfolding insert
insert_comm p q [] = ground (arith, pair_leb_total p q, pair_leb_antisym p q)
insert_comm p q (r ∷ l) = ground (
  arith,
  insert_comm p q l,
  pair_leb_total p q,
  pair_leb_antisym p q,
  pair_leb_trans p q r,
  pair_leb_trans q p r,
  pair_leb_total p r,
  pair_leb_total q r,
)

insert-Perm : (p : Pair) (l : List Pair) → Permᴰ (insert p l) (p ∷ l)
unfolding insert
insert-Perm p [] = Permᴰ.refl (p ∷ [])
insert-Perm p (q ∷ l) = elim (Bool-cases (pair_leb p q)) [
  | inl e ↦ rw e (Permᴰ.refl (p ∷ q ∷ l))
  | inr e ↦ rw e (Permᴰ.trans (Permᴰ.cons refl (insert-Perm p l)) (Permᴰ.swap refl refl))
]

sorted-Perm : (l : List Pair) → Permᴰ (sorted l) l
unfolding sorted
sorted-Perm [] = Permᴰ.nil
sorted-Perm (p ∷ l) = Permᴰ.trans (insert-Perm p (sorted l)) (Permᴰ.cons refl (sorted-Perm l))

sorted-eq : {l k : List Pair} → Permᴰ l k → sorted l ≡ sorted k
unfolding sorted
sorted-eq Permᴰ.nil = refl
sorted-eq (Permᴰ.cons {a = a} e h) = rw e (rw (sorted-eq h) refl)
sorted-eq (Permᴰ.swap {a = a} {b = b} {l = l} e f) =
    rw (← e) (rw (← f) (insert_comm a b (sorted l)))
sorted-eq (Permᴰ.trans h k) = sorted-eq h ∙ sorted-eq k

pub sorted-eq_iff : (l k : List Pair) → (sorted l ≡ sorted k) ↔ Permᴰ l k
sorted-eq_iff l k = (
  λ e. Permᴰ.trans (Permᴰ.symm (sorted-Perm l)) (subst (λ m. Permᴰ m k) (sym e) (sorted-Perm k)),
  sorted-eq,
)

pub length-Perm : {l k : List Pair} → Permᴰ l k → length l ≡ length k
length-Perm Permᴰ.nil = refl
length-Perm (Permᴰ.cons e h) = ap suc (length-Perm h)
length-Perm (Permᴰ.swap e f) = refl
length-Perm (Permᴰ.trans h k) = length-Perm h ∙ length-Perm k
