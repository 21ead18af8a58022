-- ===== src/Prelude/Dict/Totals.antt =====
-- Sums over the values of a dictionary, under insertion.
use mathlib.Core.Option.{get_or}
use hexstody.Prelude.{ℕ, ◌+◌, ◌≡◌, refl, [], ◌∷◌, Option, none, some, arith, Key, map, filter_map}
use hexstody.Prelude.Words.{total}
use hexstody.Prelude.Dict.{Dict, lookup, insert, values}

module _ {ℓ κ} {K : Type ℓ} {V : Type κ} where
  unfoldable pub total_over : (V → ℕ) → Dict K V → ℕ
  total_over f m = total (map f (values m))

  pub total_over-filter_map :
      (f : V → Option ℕ) (m : Dict K V)
      → total (filter_map f (values m)) ≡ total_over (λ v. get_or (f v) 0) m
  unfolding total_over values total
  total_over-filter_map f [] = refl
  total_over-filter_map f ((k, v) ∷ m) = ground (arith, total_over-filter_map f m)

module _ {ℓ} {K : Type ℓ} where
  pub total_over-values : (m : Dict K ℕ) → total (values m) ≡ total_over (λ v. v) m
  unfolding total_over values total
  total_over-values [] = refl
  total_over-values ((k, v) ∷ m) = omega (arith, total_over-values m)

module _ {ℓ κ} {K : Type ℓ} {V : Type κ} ⦃e : Key K⦄ where
  pub total_over-insert_new :
      (f : V → ℕ) (k : K) (v : V) (m : Dict K V)
      → lookup k m ≡ none
      → total_over f (insert k v m) ≡ total_over f m + f v
  unfolding total_over values total lookup insert
  total_over-insert_new f k v [] h = omega arith
  total_over-insert_new f k v ((j, w) ∷ m) h = ground (arith, total_over-insert_new f k v m)

  pub total_over-insert_old :
      (f : V → ℕ) (k : K) (v w : V) (m : Dict K V)
      → lookup k m ≡ some w
      → total_over f (insert k v m) + f w ≡ total_over f m + f v
  unfolding total_over values total lookup insert
  total_over-insert_old f k v w [] h = cc
  total_over-insert_old f k v w ((j, u) ∷ m) h = ground (arith, total_over-insert_old f k v w m)
