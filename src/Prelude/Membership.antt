-- ===== src/Prelude/Membership.antt =====
-- Elements of lists, and what a map that may panic makes of them.
use mathlib.Core.Path.{◌≡◌, subst}
use mathlib.Core.Logic.{◌⊎◌, inl, inr}
use mathlib.Core.Bool.{true, false}
use mathlib.Core.List.{List, [], ◌∷◌}
use mathlib.Core.Option.{Option, some}
use native.Mathlib.Omega.{arith}
use hexstody.Prelude.Tests.{Option-cases}
use hexstody.Prelude.Lists.{map_all}

-- The element is in the list.
abbrev pub Among : {A : Type 0} → A → List A → Type 0
Among x [] = true ≡ false
Among x (y ∷ ys) = (y ≡ x) ⊎ Among x ys

pub map_all-Among :
    {A B : Type 0} (f : A → Option B) (x : A) (y : B) (xs : List A) (ys : List B)
    → Among x xs
    → f x ≡ some y
    → map_all f xs ≡ some ys
    → Among y ys
map_all-Among f x y [] ys h fx all = absurd (cc)
map_all-Among f x y (z ∷ zs) ys h fx all = elim (Option-cases (f z)) [
  | inl stuck ↦ ground arith
  | inr (u, fz) ↦ elim (Option-cases (map_all f zs)) [
    | inl stuck ↦ ground arith
    | inr (us, rest) ↦
        let shape : (u ∷ us) ≡ ys = ground arith in
        subst (Among y) shape (elim h [
          | inl here ↦ inl (ground arith)
          | inr there ↦ inr (map_all-Among f x y zs us there fx rest)
        ])
  ]
]
