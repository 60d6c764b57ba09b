-- ===== src/Config/Chosen.antt =====
-- Which setting `load_xo_config` of examples/xo_python/sawtooth_xo/processor/main.py chooses.
use sawtooth_sdk_python.Base.{◌≡◌, refl, ◌∙◌, ap, Option, none, some, List, [], ◌∷◌, ◌++◌}
use mathlib.Core.List.{reverse, reverse-cons}
use sawtooth_sdk_python.Base.Text.{Text}
use sawtooth_sdk_python.Config.Xo.{XoConfig, or_else, merge_loop, merge_xo_config}

-- The first endpoint that is set.
abbrev pub first_set : List XoConfig → Option Text
first_set [] = none
first_set (config ∷ configs) = elim config.connect [
  | none ↦ first_set configs
  | some endpoint ↦ some endpoint
]

or_else-eq : (a b : Option Text) → or_else a b ≡ elim a [ none ↦ b | some endpoint ↦ some endpoint ]
or_else-eq none b = refl
or_else-eq (some endpoint) b = refl

merge_loop-append :
    (connect : Option Text) (xs : List XoConfig) (y : XoConfig)
    → merge_loop connect (xs ++ y ∷ []) ≡ or_else y.connect (merge_loop connect xs)
unfolding merge_loop
merge_loop-append connect [] y = refl
merge_loop-append connect (x ∷ xs) y = merge_loop-append (or_else x.connect connect) xs y

-- Merging gives priority in the order of the list: for every list of configs, the endpoint of
-- `merge_xo_config` is the first one that is set, and None if none is.
pub merge_xo_config-eq-first_set :
    (configs : List XoConfig) → (merge_xo_config configs).connect ≡ first_set configs
unfolding merge_xo_config merge_loop
merge_xo_config-eq-first_set [] = refl
merge_xo_config-eq-first_set (x ∷ xs) = rw (reverse-cons x xs) (
    merge_loop-append none (reverse xs) x
    ∙ ap (or_else x.connect) (merge_xo_config-eq-first_set xs)
    ∙ or_else-eq x.connect (first_set xs))
