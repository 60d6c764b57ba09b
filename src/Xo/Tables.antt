-- ===== src/Xo/Tables.antt =====
-- The dicts of games that `XoState` stores, under the updates of `dict`.
use sawtooth_sdk_python.Base.{subst, ◌≡◌, ◌≢◌, inl, inr, refl, sym, ◌∙◌, [], ◌∷◌, All, Bool-cases}
use sawtooth_sdk_python.Base.Text.{Text, text_eq, text_eq_iff}
use sawtooth_sdk_python.Base.Dict.{Dict, insert, erase, insert-IsKeyed, erase-IsKeyed}
use sawtooth_sdk_python.Xo.Game.{Game}
use sawtooth_sdk_python.Xo.Good.{IsGood}
use sawtooth_sdk_python.Xo.Stored.{IsTable}

insert-All :
    (P : Text × Game → Type 0) (k : Text) (g : Game) (d : Dict Game)
    → P (k, g)
    → All P d
    → All P (insert k g d)
unfolding insert
insert-All P k g [] p h = (p, tt)
insert-All P k g ((j, w) ∷ d) p h = elim (Bool-cases (text_eq j k)) [
  | inl e ↦ rw e (let same = (text_eq_iff j k).0 e in (subst (λ x. P (x, g)) (sym same) p, h.1))
  | inr e ↦ rw e (h.0, insert-All P k g d p h.1)
]

erase-All : (P : Text × Game → Type 0) (k : Text) (d : Dict Game) → All P d → All P (erase k d)
unfolding erase
erase-All P k [] h = tt
erase-All P k ((j, w) ∷ d) h = elim (Bool-cases (text_eq j k)) [
  | inl e ↦ rw e h.1
  | inr e ↦ rw e (h.0, erase-All P k d h.1)
]

pub insert-ne-nil : (k : Text) (g : Game) (d : Dict Game) → insert k g d ≢ []
unfolding insert
insert-ne-nil k g [] h = cc
insert-ne-nil k g ((j, w) ∷ d) h = elim (Bool-cases (text_eq j k)) [
  | inl e ↦ let f : (j, g) ∷ d ≡ [] = sym (rw e refl) ∙ h in absurd (cc)
  | inr e ↦ let f : (j, w) ∷ insert k g d ≡ [] = sym (rw e refl) ∙ h in absurd (cc)
]

pub insert-IsTable :
    (k : Text) (g : Game) (d : Dict Game) → IsGood (k, g) → IsTable d → IsTable (insert k g d)
insert-IsTable k g d p t = record {
  keyed = insert-IsKeyed k g d t.keyed;
  good = insert-All IsGood k g d p t.good;
}

pub erase-IsTable : (k : Text) (d : Dict Game) → IsTable d → IsTable (erase k d)
erase-IsTable k d t = record {
  keyed = erase-IsKeyed k d t.keyed;
  good = erase-All IsGood k d t.good;
}
