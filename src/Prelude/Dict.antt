-- ===== src/Prelude/Dict.antt =====
-- `HashMap`, as an association list. An iteration visits the entries in the order of the list: any
-- order is one that the hash map may show.
pub mod Totals
pub mod Entries
use mathlib.Core.Option
use hexstody.Prelude.{
  ==_ne, ◌∙◌, inl, inr, Option-cases, ℕ, ◌+◌, ◌≡◌, refl, ◌≢◌, Bool, true, false, not, List, [], ◌∷◌,
  Option, none, some, arith, Key, ◌==◌, ==_refl, if◌then◌else◌, is_some,
}

abbrev pub Dict {ℓ κ} : Type ℓ → Type κ → Type (ℓ ⊔ κ)
Dict K V = List (K × V)

module _ {ℓ κ} {K : Type ℓ} {V : Type κ} where
  -- `for (k, v) in iter_mut() { … }`
  unfoldable pub update_all : (K → V → V) → Dict K V → Dict K V
  update_all f [] = []
  update_all f ((j, w) ∷ m) = (j, f j w) ∷ update_all f m

  -- `iter().find(…).map(|(k, _)| k)`
  unfoldable pub find_key : (V → Bool) → Dict K V → Option K
  find_key p [] = none
  find_key p ((j, w) ∷ m) = let later = find_key p m in if p w then some j else later

  -- `values`
  unfoldable pub values : Dict K V → List V
  values [] = []
  values ((j, w) ∷ m) = w ∷ values m

  -- Every entry, key and value, has the property.
  abbrev pub AllEntries {ι} : (K → V → Type ι) → Dict K V → Type ι
  AllEntries P [] = Unit
  AllEntries P ((k, v) ∷ m) = P k v × AllEntries P m

module _ {ℓ κ} {K : Type ℓ} {V : Type κ} ⦃e : Key K⦄ where
  -- `get`, and `get_mut`
  unfoldable pub lookup : K → Dict K V → Option V
  lookup key [] = none
  lookup key ((k, found) ∷ rest) = if k == key then some found else lookup key rest

  -- An old entry keeps its place and its key.
  unfoldable pub insert : K → V → Dict K V → Dict K V
  insert key new [] = (key, new) ∷ []
  insert key new ((k, old) ∷ rest) =
      if k == key then (k, new) ∷ rest else (k, old) ∷ insert key new rest

  unfoldable pub remove : K → Dict K V → Dict K V
  remove k [] = []
  remove k ((j, w) ∷ m) = let rest = remove k m in if j == k then rest else (j, w) ∷ rest

  unfoldable pub contains_key : K → Dict K V → Bool
  unfolding lookup
  contains_key k m = is_some (lookup k m)

  pub lookup-remove :
      (k j : K) (m : Dict K V) → lookup j (remove k m) ≡ (if k == j then none else lookup j m)
  unfolding lookup remove
  lookup-remove k j [] = ground arith
  lookup-remove k j ((i, w) ∷ m) =
      ground (arith, e.same_iff k j, e.same_iff i k, e.same_iff i j, lookup-remove k j m)

  pub lookup-insert :
      (key at : K) (new : V) (m : Dict K V)
      → lookup at (insert key new m) ≡ (if key == at then some new else lookup at m)
  unfolding lookup insert
  lookup-insert key at new [] = refl
  lookup-insert key at new ((k, old) ∷ rest) =
      ground
        (arith, lookup-insert key at new rest, e.same_iff k key, e.same_iff k at, e.same_iff key at)

  pub lookup-update_all :
      (f : K → V → V) (k : K) (m : Dict K V)
      → lookup k (update_all f m) ≡ Option.map (f k) (lookup k m)
  unfolding lookup update_all
  lookup-update_all f k [] = refl
  lookup-update_all f k ((i, w) ∷ m) = ground (arith, e.same_iff i k, lookup-update_all f k m)

  pub lookup-insert_self : (k : K) (v : V) (m : Dict K V) → lookup k (insert k v m) ≡ some v
  lookup-insert_self k v m = simp (lookup-insert, ==_refl)

  -- `entry(k).and_modify(f).or_insert(v)`
  unfoldable pub upsert : K → (V → V) → V → Dict K V → Dict K V
  unfolding lookup insert
  upsert k f v m = elim (lookup k m) [ none ↦ insert k v m | some w ↦ insert k (f w) m ]

  pub lookup-insert_ne :
      (k j : K) (v : V) (m : Dict K V) → k ≢ j → lookup j (insert k v m) ≡ lookup j m
  lookup-insert_ne k j v m h = lookup-insert k j v m ∙ ground (arith, ==_ne k j h)

  pub lookup-upsert-some :
      (k : K) (f : V → V) (v w : V) (m : Dict K V)
      → lookup k m ≡ some w
      → lookup k (upsert k f v m) ≡ some (f w)
  unfolding upsert
  lookup-upsert-some k f v w m h = rw (h, upsert) (lookup-insert_self k (f w) m)

  pub lookup-upsert-none :
      (k : K) (f : V → V) (v : V) (m : Dict K V)
      → lookup k m ≡ none
      → lookup k (upsert k f v m) ≡ some v
  unfolding upsert
  lookup-upsert-none k f v m h = rw (h, upsert) (lookup-insert_self k v m)

  pub lookup-upsert_ne :
      (k j : K) (f : V → V) (v : V) (m : Dict K V) → k ≢ j → lookup j (upsert k f v m) ≡ lookup j m
  unfolding upsert
  lookup-upsert_ne k j f v m h = elim (Option-cases (lookup k m)) [
    | inl absent ↦ rw (absent, upsert) (lookup-insert_ne k j v m h)
    | inr (w, present) ↦ rw (present, upsert) (lookup-insert_ne k j (f w) m h)
  ]
