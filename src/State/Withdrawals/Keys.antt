-- ===== src/State/Withdrawals/Keys.antt =====
-- Lists of decisions by the keys that signed them.
use hexstody.Prelude.{
  suc, true, false, List, [], ◌∷◌, ◌++◌, ◌≡◌, refl, arith, length, any-append, ◌==◌, nat_eq,
}
use hexstody.Domain.Types.{PublicKey}
use hexstody.Update.Withdrawal.{WithdrawalRequestDecision}
use hexstody.State.Withdrawals.{decided_by, without_key}

abbrev Decisions : Type 0
Decisions = List WithdrawalRequestDecision

-- No key has signed twice.
abbrev pub DistinctKeys : Decisions → Type 0
DistinctKeys [] = Unit
DistinctKeys (c ∷ cs) = (decided_by c.public_key cs ≡ false) × DistinctKeys cs

-- No key of the first list is in the second.
abbrev pub DisjointKeys : Decisions → Decisions → Type 0
DisjointKeys [] ys = Unit
DisjointKeys (c ∷ cs) ys = (decided_by c.public_key ys ≡ false) × DisjointKeys cs ys

pub without_key_absent :
    (k : PublicKey) (xs : Decisions) → decided_by k xs ≡ false → without_key k xs ≡ xs
unfolding decided_by without_key
without_key_absent k [] h = refl
without_key_absent k (x ∷ xs) h = ground (arith, without_key_absent k xs)

pub length-without_key :
    (k : PublicKey) (xs : Decisions)
    → DistinctKeys xs
    → decided_by k xs ≡ true
    → suc (length (without_key k xs)) ≡ length xs
unfolding decided_by without_key
length-without_key k [] d h = cc
length-without_key k (x ∷ xs) d h = ground (arith, length-without_key k xs, without_key_absent k xs)

pub decided_by-without_key_self :
    (k : PublicKey) (xs : Decisions) → decided_by k (without_key k xs) ≡ false
unfolding decided_by without_key
decided_by-without_key_self k [] = refl
decided_by-without_key_self k (x ∷ xs) = ground (arith, decided_by-without_key_self k xs)

pub decided_by-without_key :
    (j k : PublicKey) (xs : Decisions)
    → decided_by j xs ≡ false
    → decided_by j (without_key k xs) ≡ false
unfolding decided_by without_key
decided_by-without_key j k [] h = refl
decided_by-without_key j k (x ∷ xs) h = ground (arith, decided_by-without_key j k xs)

pub without_key-DistinctKeys :
    (k : PublicKey) (xs : Decisions) → DistinctKeys xs → DistinctKeys (without_key k xs)
unfolding decided_by without_key
without_key-DistinctKeys k [] d = tt
without_key-DistinctKeys k (x ∷ xs) d =
    ground (arith, without_key-DistinctKeys k xs, decided_by-without_key x.public_key k xs)

pub append-DistinctKeys :
    (xs : Decisions) (c : WithdrawalRequestDecision)
    → DistinctKeys xs
    → decided_by c.public_key xs ≡ false
    → DistinctKeys (xs ++ c ∷ [])
unfolding decided_by without_key
append-DistinctKeys [] c d h = (refl, tt)
append-DistinctKeys (x ∷ xs) c d h = ground (
  arith,
  append-DistinctKeys xs c,
  any-append (λ (y : WithdrawalRequestDecision). y.public_key == x.public_key) xs (c ∷ []),
)

pub DisjointKeys-without_key_left :
    (k : PublicKey) (xs ys : Decisions) → DisjointKeys xs ys → DisjointKeys (without_key k xs) ys
unfolding decided_by without_key
DisjointKeys-without_key_left k [] ys d = tt
DisjointKeys-without_key_left k (x ∷ xs) ys d =
    ground (arith, DisjointKeys-without_key_left k xs ys)

pub DisjointKeys-without_key_right :
    (k : PublicKey) (xs ys : Decisions) → DisjointKeys xs ys → DisjointKeys xs (without_key k ys)
DisjointKeys-without_key_right k [] ys d = tt
DisjointKeys-without_key_right k (x ∷ xs) ys d =
    (decided_by-without_key x.public_key k ys d.0, DisjointKeys-without_key_right k xs ys d.1)

pub DisjointKeys-append_left :
    (xs ys : Decisions) (c : WithdrawalRequestDecision)
    → DisjointKeys xs ys
    → decided_by c.public_key ys ≡ false
    → DisjointKeys (xs ++ c ∷ []) ys
DisjointKeys-append_left [] ys c d h = (h, tt)
DisjointKeys-append_left (x ∷ xs) ys c d h = (d.0, DisjointKeys-append_left xs ys c d.1 h)

pub DisjointKeys-append_right :
    (xs ys : Decisions) (c : WithdrawalRequestDecision)
    → DisjointKeys xs ys
    → decided_by c.public_key xs ≡ false
    → DisjointKeys xs (ys ++ c ∷ [])
unfolding decided_by without_key
DisjointKeys-append_right [] ys c d h = tt
DisjointKeys-append_right (x ∷ xs) ys c d h = ground (
  arith,
  DisjointKeys-append_right xs ys c,
  any-append (λ (y : WithdrawalRequestDecision). y.public_key == x.public_key) ys (c ∷ []),
)
