-- ===== src/State/Exchange/Deposits.antt =====
-- Deposits of the exchange as they are seen and taken back.
use hexstody.Prelude.{length, ℕ, ◌+◌, ◌<◌, ◌≡◌, ap, ◌∙◌, some, arith}
use hexstody.Prelude.Int.{ℤ, pos, ◌+ℤ◌, int_laws}
use hexstody.Prelude.Words.{
  i64_half, as_i64, as_i64_id, add_i64, sub_i64, neg_i64, add_i64_id, sub_i64_id, size, size-add,
}
use hexstody.Prelude.Dict.{lookup, upsert, lookup-upsert-some}
use hexstody.Domain.Currency.{Currency, currency_eq}
use hexstody.Update.Btc.{BtcTxCancel}
use hexstody.State.Transaction
use hexstody.State.Transaction.{BtcTransaction, position, remove_at}
use hexstody.State.Transaction.Outpoints.{SameOutput, IsNew, position-append, remove_at-append}
use hexstody.State.Exchange.{ExchangeState, add_deposit, process_incoming_btc_tx, cancel_btc_tx}

there_and_back :
    (v : ℤ) (a : ℕ) → size v + a + a < i64_half → sub_i64 (add_i64 v (pos a)) (as_i64 a) ≡ v
there_and_back v a h =
    rw
      (
        as_i64_id a (omega arith),
        add_i64_id v (pos a) (omega arith),
        sub_i64_id (v +ℤ pos a) (pos a) (omega (arith, size-add v (pos a))),
      )
      (omega int_laws)

process_incoming_btc_tx_new :
    (tx : BtcTransaction) (n : ℕ) (s : ExchangeState)
    → tx.amount ≡ pos n
    → IsNew tx s.deposits
    → process_incoming_btc_tx tx s ≡ add_deposit tx s
unfolding process_incoming_btc_tx
process_incoming_btc_tx_new tx n s amount new = ground arith

abbrev taken_back : ℕ → BtcTxCancel → ExchangeState → ExchangeState
taken_back i c s = record s {
  deposits = remove_at i s.deposits;
  balances =
      upsert Currency.btc (λ v. sub_i64 v (as_i64 c.amount)) (neg_i64 (as_i64 c.amount)) s.balances;
}

cancel_btc_tx_found :
    (c : BtcTxCancel) (s : ExchangeState) {i : ℕ}
    → position c 0 s.deposits ≡ some i
    → cancel_btc_tx c s ≡ taken_back i c s
unfolding cancel_btc_tx
cancel_btc_tx_found c s h = ground arith

-- If a deposit of the exchange whose output is new is processed and then cancelled with the same
-- amount, then the wallet's deposits are what they were, and so is its bitcoin balance, provided
-- that it has one and that balance and twice the amount fit into an `i64`.
pub cancel_btc_tx-process_incoming_btc_tx :
    (tx : BtcTransaction) (c : BtcTxCancel) (s : ExchangeState) {v : ℤ}
    → SameOutput tx c
    → tx.amount ≡ pos c.amount
    → IsNew tx s.deposits
    → lookup Currency.btc s.balances ≡ some v
    → size v + c.amount + c.amount < i64_half
    → let s' = cancel_btc_tx c (process_incoming_btc_tx tx s) in
      (s'.deposits ≡ s.deposits) × (lookup Currency.btc s'.balances ≡ some v)
cancel_btc_tx-process_incoming_btc_tx tx c s {v} same amount new held bound =
    let credited = upsert Currency.btc (λ b. add_i64 b tx.amount) tx.amount s.balances in
    let seen =
      lookup-upsert-some Currency.btc (λ b. add_i64 b tx.amount) tx.amount v s.balances held in
    let found : position c 0 (add_deposit tx s).deposits ≡ some (length s.deposits) =
      position-append tx c same 0 s.deposits new ∙ ap some (omega arith) in
    let restored : sub_i64 (add_i64 v tx.amount) (as_i64 c.amount) ≡ v =
      rw amount (there_and_back v c.amount bound) in
    rw
      (
        process_incoming_btc_tx_new tx c.amount s amount new,
        cancel_btc_tx_found c (add_deposit tx s) found,
      )
      (
        remove_at-append s.deposits (Transaction.btc tx),
        lookup-upsert-some Currency.btc (λ b. sub_i64 b (as_i64 c.amount)) _ (add_i64 v tx.amount)
              credited seen
            ∙ ap some restored,
      )
