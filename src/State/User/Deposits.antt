-- ===== src/State/User/Deposits.antt =====
-- Deposits on chain as they are seen, confirmed, and taken back.
use hexstody.Prelude.{◌≡◌, true, arith, Option-cases, inl, inr}
use hexstody.Prelude.Int.{pos, leb_ℤ}
use hexstody.Update.Btc.{BtcTxCancel}
use hexstody.State.Transaction
use hexstody.State.Transaction.{BtcTransaction, replace_btc_tx, position, remove_at}
use hexstody.State.Transaction.Outpoints.{
  SameOutput, position-append, remove_at-append, replace_btc_tx_idem, replace-append, IsNew,
  UniqueOutputs, append-UniqueOutputs, replace-UniqueOutputs, remove_at-UniqueOutputs,
}
use hexstody.State.User.{UserCurrencyInfo, update_btc_tx, cancel_btc_tx}

abbrev pub HasUniqueOutputs : UserCurrencyInfo → Type 0
HasUniqueOutputs info = UniqueOutputs info.transactions

module _ (tx : BtcTransaction) (info : UserCurrencyInfo) where
  -- If an account has no transaction output twice, it has none twice after an update of a bitcoin
  -- transaction.
  pub update_btc_tx-HasUniqueOutputs :
      HasUniqueOutputs info → HasUniqueOutputs (update_btc_tx tx info)
  unfolding update_btc_tx
  update_btc_tx-HasUniqueOutputs u = elim (Option-cases (replace_btc_tx tx info.transactions)) [
    | inl new ↦ ground (arith, append-UniqueOutputs tx info.transactions u new)
    | inr (txs, old) ↦ ground (arith, replace-UniqueOutputs tx info.transactions {txs' = txs} u old)
  ]

  -- Updating an account with the same bitcoin transaction twice is the same as updating it once.
  pub update_btc_tx_idem : update_btc_tx tx (update_btc_tx tx info) ≡ update_btc_tx tx info
  unfolding update_btc_tx
  update_btc_tx_idem = elim (Option-cases (replace_btc_tx tx info.transactions)) [
    | inl new ↦ ground (arith, replace-append tx info.transactions new)
    | inr (txs, old) ↦ ground (arith, replace_btc_tx_idem tx info.transactions {txs' = txs} old)
  ]

  -- If a deposit transaction whose output is new to an account is recorded and then cancelled, the
  -- account is what it was.
  pub cancel_btc_tx-update_btc_tx :
      (c : BtcTxCancel)
      → SameOutput tx c
      → IsNew tx info.transactions
      → leb_ℤ (pos 0) tx.amount ≡ true
      → cancel_btc_tx c (update_btc_tx tx info) ≡ info
  unfolding update_btc_tx cancel_btc_tx
  cancel_btc_tx-update_btc_tx c same new deposit = ground (
    arith,
    position-append tx c same 0 info.transactions new,
    remove_at-append info.transactions (Transaction.btc tx),
  )

-- If an account has no transaction output twice, it has none twice after a bitcoin transaction is
-- cancelled.
pub cancel_btc_tx-HasUniqueOutputs :
    (c : BtcTxCancel) (info : UserCurrencyInfo)
    → HasUniqueOutputs info
    → HasUniqueOutputs (cancel_btc_tx c info)
unfolding cancel_btc_tx
cancel_btc_tx-HasUniqueOutputs c info u = elim (Option-cases (position c 0 info.transactions)) [
  | inl none_found ↦ ground arith
  | inr (i, found) ↦ ground (arith, remove_at-UniqueOutputs i info.transactions u)
]
