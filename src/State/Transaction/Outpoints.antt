-- ===== src/State/Transaction/Outpoints.antt =====
-- A bitcoin transaction output is recorded once.
use hexstody.Prelude.{
  Option-cases, inl, inr, ℕ, zero, suc, ◌+◌, ◌≡◌, refl, ap, true, false, List, [], ◌∷◌, ◌++◌, none,
  some, arith, length, nat_eq,
}
use hexstody.Update.Btc.{BtcTxCancel}
use hexstody.State.Transaction.{
  BtcTransaction, Transaction, btc, eth, is_same_btc_tx, replace_btc_tx, position, remove_at,
}

-- The transaction and the cancellation name the same output.
abbrev pub SameOutput : BtcTransaction → BtcTxCancel → Type 0
SameOutput tx c = (tx.txid ≡ c.txid) × (tx.vout ≡ c.vout)

module _ (tx : BtcTransaction) (c : BtcTxCancel) (same : SameOutput tx c) where
  -- A transaction that was not recorded is found at the end, after it has been added.
  pub position-append :
      (i : ℕ) (txs : List Transaction)
      → replace_btc_tx tx txs ≡ none
      → position c i (txs ++ btc tx ∷ []) ≡ some (i + length txs)
  unfolding replace_btc_tx position
  position-append i [] h = ground (arith)
  position-append i (btc x ∷ txs) h = ground (arith, position-append (suc i) txs)
  position-append i (eth x ∷ txs) h = ground (arith, position-append (suc i) txs)

pub remove_at-append :
    (txs : List Transaction) (t : Transaction) → remove_at (length txs) (txs ++ t ∷ []) ≡ txs
unfolding remove_at
remove_at-append [] t = refl
remove_at-append (x ∷ txs) t = ap (λ r. x ∷ r) (remove_at-append txs t)

-- Writing a transaction twice is writing it once.
pub replace_btc_tx_idem :
    (tx : BtcTransaction) (txs : List Transaction) {txs' : List Transaction}
    → replace_btc_tx tx txs ≡ some txs'
    → replace_btc_tx tx txs' ≡ some txs'
unfolding replace_btc_tx
replace_btc_tx_idem tx [] h = cc
replace_btc_tx_idem tx (btc x ∷ txs) {txs'} h = elim (Option-cases (replace_btc_tx tx txs)) [
  | inl e ↦ ground arith
  | inr (ys, e) ↦ ground (arith, replace_btc_tx_idem tx txs {txs' = ys} e)
]
replace_btc_tx_idem tx (eth x ∷ txs) {txs'} h = elim (Option-cases (replace_btc_tx tx txs)) [
  | inl e ↦ ground arith
  | inr (ys, e) ↦ ground (arith, replace_btc_tx_idem tx txs {txs' = ys} e)
]

-- The output is not recorded.
abbrev pub IsNew : BtcTransaction → List Transaction → Type 0
IsNew tx txs = replace_btc_tx tx txs ≡ none

-- No output is recorded twice.
abbrev pub UniqueOutputs : List Transaction → Type 0
UniqueOutputs [] = Unit
UniqueOutputs (btc tx ∷ rest) = IsNew tx rest × UniqueOutputs rest
UniqueOutputs (eth tx ∷ rest) = UniqueOutputs rest

append-IsNew :
    (x tx : BtcTransaction) (txs : List Transaction)
    → is_same_btc_tx tx x ≡ false
    → IsNew x txs
    → IsNew x (txs ++ btc tx ∷ [])
unfolding replace_btc_tx
append-IsNew x tx [] ne h = ground arith
append-IsNew x tx (btc y ∷ txs) ne h = ground (arith, append-IsNew x tx txs ne)
append-IsNew x tx (eth y ∷ txs) ne h = ground (arith, append-IsNew x tx txs ne)

-- A new output may be added.
pub append-UniqueOutputs :
    (tx : BtcTransaction) (txs : List Transaction)
    → UniqueOutputs txs
    → IsNew tx txs
    → UniqueOutputs (txs ++ btc tx ∷ [])
unfolding replace_btc_tx
append-UniqueOutputs tx [] u h = (refl, tt)
append-UniqueOutputs tx (btc y ∷ txs) u h =
    ground (arith, append-UniqueOutputs tx txs, append-IsNew y tx txs)
append-UniqueOutputs tx (eth y ∷ txs) u h = ground (arith, append-UniqueOutputs tx txs)

replace-IsNew :
    (x tx : BtcTransaction) (txs : List Transaction) {txs' : List Transaction}
    → replace_btc_tx tx txs ≡ some txs'
    → IsNew x txs
    → IsNew x txs'
unfolding replace_btc_tx
replace-IsNew x tx [] h n = cc
replace-IsNew x tx (btc y ∷ txs) {txs'} h n = elim (Option-cases (replace_btc_tx tx txs)) [
  | inl e ↦ ground arith
  | inr (ys, e) ↦ ground (arith, replace-IsNew x tx txs {txs' = ys} e)
]
replace-IsNew x tx (eth y ∷ txs) {txs'} h n = elim (Option-cases (replace_btc_tx tx txs)) [
  | inl e ↦ ground arith
  | inr (ys, e) ↦ ground (arith, replace-IsNew x tx txs {txs' = ys} e)
]

same_as-IsNew :
    (x tx : BtcTransaction) (txs : List Transaction)
    → is_same_btc_tx x tx ≡ true
    → IsNew x txs
    → IsNew tx txs
unfolding replace_btc_tx
same_as-IsNew x tx [] h n = refl
same_as-IsNew x tx (btc y ∷ txs) h n = ground (arith, same_as-IsNew x tx txs h)
same_as-IsNew x tx (eth y ∷ txs) h n = ground (arith, same_as-IsNew x tx txs h)

-- A recorded output may be overwritten.
pub replace-UniqueOutputs :
    (tx : BtcTransaction) (txs : List Transaction) {txs' : List Transaction}
    → UniqueOutputs txs
    → replace_btc_tx tx txs ≡ some txs'
    → UniqueOutputs txs'
unfolding replace_btc_tx
replace-UniqueOutputs tx [] u h = cc
replace-UniqueOutputs tx (btc y ∷ txs) {txs'} u h = elim (Option-cases (replace_btc_tx tx txs)) [
  | inl e ↦ ground (arith, same_as-IsNew y tx txs)
  | inr (ys, e) ↦ ground (
    arith,
    same_as-IsNew y tx txs,
    replace-IsNew y tx txs {txs' = ys} e,
    replace-UniqueOutputs tx txs {txs' = ys} u.1 e,
  )
]
replace-UniqueOutputs tx (eth y ∷ txs) {txs'} u h = elim (Option-cases (replace_btc_tx tx txs)) [
  | inl e ↦ ground arith
  | inr (ys, e) ↦ ground (arith, replace-UniqueOutputs tx txs {txs' = ys} u e)
]

remove_at-IsNew :
    (x : BtcTransaction) (i : ℕ) (txs : List Transaction) → IsNew x txs → IsNew x (remove_at i txs)
unfolding replace_btc_tx remove_at
remove_at-IsNew x zero [] h = h
remove_at-IsNew x (suc i) [] h = h
remove_at-IsNew x zero (btc y ∷ txs) h = ground arith
remove_at-IsNew x zero (eth y ∷ txs) h = ground arith
remove_at-IsNew x (suc i) (btc y ∷ txs) h = ground (arith, remove_at-IsNew x i txs)
remove_at-IsNew x (suc i) (eth y ∷ txs) h = ground (arith, remove_at-IsNew x i txs)

pub remove_at-UniqueOutputs :
    (i : ℕ) (txs : List Transaction) → UniqueOutputs txs → UniqueOutputs (remove_at i txs)
unfolding remove_at
remove_at-UniqueOutputs zero [] u = tt
remove_at-UniqueOutputs (suc i) [] u = tt
remove_at-UniqueOutputs zero (btc y ∷ txs) u = u.1
remove_at-UniqueOutputs zero (eth y ∷ txs) u = u
remove_at-UniqueOutputs (suc i) (btc y ∷ txs) u =
    (remove_at-IsNew y i txs u.0, remove_at-UniqueOutputs i txs u.1)
remove_at-UniqueOutputs (suc i) (eth y ∷ txs) u = remove_at-UniqueOutputs i txs u

-- What has just been added is found, and overwritten by itself.
pub replace-append :
    (tx : BtcTransaction) (txs : List Transaction)
    → IsNew tx txs
    → replace_btc_tx tx (txs ++ btc tx ∷ []) ≡ some (txs ++ btc tx ∷ [])
unfolding replace_btc_tx
replace-append tx [] h = ground arith
replace-append tx (btc x ∷ txs) h = ground (arith, replace-append tx txs)
replace-append tx (eth x ∷ txs) h = ground (arith, replace-append tx txs)
