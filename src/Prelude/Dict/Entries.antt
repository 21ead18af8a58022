-- ===== src/Prelude/Dict/Entries.antt =====
-- A property of all entries of a dictionary, under its operations.
use mathlib.Core.Path.{subst}
use hexstody.Prelude.{◌≡◌, sym, [], ◌∷◌, some, arith, Key, ◌==◌, ==_iff, Bool-cases, inl, inr}
use hexstody.Prelude.Dict.{Dict, lookup, insert, remove, update_all, AllEntries}

module _ {ℓ κ ι} {K : Type ℓ} {V : Type κ} (P : K → V → Type ι) where
  pub AllEntries-update_all :
      (f : K → V → V) (m : Dict K V)
      → ((k : K) (v : V) → P k v → P k (f k v))
      → AllEntries P m
      → AllEntries P (update_all f m)
  unfolding update_all
  AllEntries-update_all f [] h a = a
  AllEntries-update_all f ((k, v) ∷ m) h a = (h k v a.0, AllEntries-update_all f m h a.1)

module _ {ℓ κ ι} {K : Type ℓ} {V : Type κ} ⦃e : Key K⦄ (P : K → V → Type ι) where
  pub AllEntries-lookup :
      (k : K) {v : V} (m : Dict K V) → AllEntries P m → lookup k m ≡ some v → P k v
  unfolding lookup
  AllEntries-lookup k [] a h = cc
  AllEntries-lookup k {v} ((j, w) ∷ m) a h = elim (Bool-cases (j == k)) [
    | inl hit ↦
        let same : w ≡ v = ground arith in
        subst (λ x. P x v) ((==_iff j k).0 hit) (subst (P j) same a.0)
    | inr miss ↦ AllEntries-lookup k m a.1 (rw miss at h)
  ]

  pub AllEntries-insert :
      (k : K) (v : V) (m : Dict K V) → AllEntries P m → P k v → AllEntries P (insert k v m)
  unfolding insert
  AllEntries-insert k v [] a p = (p, tt)
  AllEntries-insert k v ((j, w) ∷ m) a p = elim (Bool-cases (j == k)) [
    | inl hit ↦ rw hit (subst (λ x. P x v) (sym ((==_iff j k).0 hit)) p, a.1)
    | inr miss ↦ rw miss (a.0, AllEntries-insert k v m a.1 p)
  ]

  pub AllEntries-remove : (k : K) (m : Dict K V) → AllEntries P m → AllEntries P (remove k m)
  unfolding remove
  AllEntries-remove k [] a = tt
  AllEntries-remove k ((j, w) ∷ m) a = elim (Bool-cases (j == k)) [
    | inl hit ↦ rw hit (AllEntries-remove k m a.1)
    | inr miss ↦ rw miss (a.0, AllEntries-remove k m a.1)
  ]
