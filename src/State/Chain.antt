-- ===== src/State/Chain.antt =====
-- The handlers of hexstody-db/src/state/mod.rs for transactions of the bitcoin chain.
use hexstody.Prelude.{
  Option, none, some, Bool, true, false, none, some, if◌then◌else◌, string_eq, ◌&&◌,
}
use hexstody.Domain.Currency.{Currency, currency_eq, CurrencyAddress, CurrencyTxId}
use hexstody.Update.Withdrawal.{WithdrawalRequestId}
use hexstody.Update.Btc.{BtcTxCancel, Address, BestBtcBlock}
use hexstody.State.Transaction.{BtcTransaction}
use hexstody.State.Exchange
use hexstody.State.User
use hexstody.State.User.{UserCurrencyInfo}
use hexstody.State.Core.{
  State, Bitcoin, Handler, Result, err, ok, with_user, with_currency, set_currency,
  is_exchange_address, find_user_address, find_withdrawal_by_tx_id,
}
use hexstody.State.Withdrawals.{set_withdrawal_request_node_rejected}

-- `CurrencyAddress::BTC(BtcAddress { addr: address.to_string() })`
abbrev pub deposit_key : Bitcoin → Address → CurrencyAddress
deposit_key b addr = CurrencyAddress.btc (record { addr = b.address_to_string addr })

-- A change of the bitcoin account that the address belongs to; an unknown address is logged.
abbrev pub on_account : CurrencyAddress → (UserCurrencyInfo → UserCurrencyInfo) → Handler (Unit {0})
on_account key f s = elim (find_user_address s key) [
  | none ↦ (ok tt, s)
  | some user_id ↦
      with_user user_id
        (λ user.
          with_currency user_id user Currency.btc
            λ info s'. (ok tt, set_currency user_id user Currency.btc (f info) s'))
        s
]

unfoldable pub with_btc_tx_update : Bitcoin → BtcTransaction → Handler (Unit {0})
with_btc_tx_update b tx s =
    let key = deposit_key b tx.address in
    if is_exchange_address s key
    then (ok tt, record s { exchange_state = Exchange.process_incoming_btc_tx tx s.exchange_state })
    else on_account key (User.update_btc_tx tx) s

-- The withdrawal that was paid by the transaction.
abbrev pub paid_by : Bitcoin → BtcTxCancel → State → Option WithdrawalRequestId
paid_by b tx s = find_withdrawal_by_tx_id s (CurrencyTxId.btc (b.txid_to_string tx.txid))

-- It is rejected.
abbrev pub reject_withdrawal : Bitcoin → BtcTxCancel → Handler (Unit {0})
reject_withdrawal b tx s = elim (paid_by b tx s) [
  | none ↦ (ok tt, s)
  | some rid ↦ set_withdrawal_request_node_rejected (record { id = rid; reason = "Tx canceled" }) s
]

abbrev pub is_err {ℓ} : {A : Type 0} {B : Type ℓ} → Result A × B → Bool
is_err (err e, s) = true
is_err (ok a, s) = false

-- Both parts run; the error of the first counts only if the second fails too.
unfoldable pub with_btc_tx_cancel : Bitcoin → BtcTxCancel → Handler (Unit {0})
unfolding set_withdrawal_request_node_rejected
with_btc_tx_cancel b tx s =
    let key = deposit_key b tx.address in
    let res1 = on_account key (User.cancel_btc_tx tx) s in
    let res2 = reject_withdrawal b tx res1.1 in
    if is_exchange_address s key
    then (ok tt, record s { exchange_state = Exchange.cancel_btc_tx tx s.exchange_state })
    else if is_err res1 && is_err res2
    then (res1.0, res2.1)
    else (ok tt, res2.1)

unfoldable pub with_best_btc_block : BestBtcBlock → Handler (Unit {0})
with_best_btc_block btc s =
    (ok tt, record s { btc_state = record { height = btc.height; block_hash = btc.block_hash } })
