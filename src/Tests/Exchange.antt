-- ===== src/Tests/Exchange.antt =====
-- Orders and the wallet of the exchange.
use hexstody.Prelude.{arith, ◌≡◌, ◌≢◌, refl, false, [], ◌∷◌, none, some, nat_eq}
use hexstody.Prelude.Int.{pos}
use hexstody.Prelude.Words.{as_i64, sub_i64}
use hexstody.Prelude.Dict.{lookup, insert}
use hexstody.Domain.Types.{ExchangeStatus, reject, DecisionType}
use hexstody.Domain.Currency.{Currency, currency_eq}
use hexstody.State.Exchange
use hexstody.State.Exchange.{
  ExchangeOrder, ExchangeDecision, ExchangeState, process_order, process_incoming_btc_tx,
}
use hexstody.State.Exchange.Wallet.{process_orders, net_trades, process_orders_unknown}
use hexstody.State.Core.{ok}
use hexstody.State.Orders.{decide_order, order_from, order_signature}
use hexstody.State.Orders.Decisions.{decide_order_settles}
use hexstody.Tests.Data.{order_upd, btc_tx, tx_cancel}
use hexstody.State.Exchange.Deposits.{cancel_btc_tx-process_incoming_btc_tx}
use hexstody.State.Transaction.{BtcTransaction, replace_btc_tx}
use hexstody.State.Transaction.Outpoints.{IsNew}

abbrev exchange_decision : DecisionType → ExchangeDecision
exchange_decision t = record {
  user = "alice";
  id = 9;
  currency_from = Currency.btc;
  currency_to = Currency.eth;
  amount_from = 200;
  amount_to = 3000;
  url = "https://operator";
  signature = 5;
  nonce = 1;
  public_key = 1;
  decision = t;
}

abbrev wallet : ExchangeState
wallet = Exchange.new

-- A wallet without any balance.
abbrev bare : ExchangeState
bare = record wallet { balances = [] }

btc-ne-eth : Currency.btc ≢ Currency.eth
btc-ne-eth e = cc

held : lookup Currency.btc wallet.balances ≡ some (pos 0)
unfolding lookup
held = refl

held_eth : lookup Currency.eth wallet.balances ≡ some (pos 0)
unfolding lookup
held_eth = refl

absent : lookup Currency.eth bare.balances ≡ none
unfolding lookup
absent = refl

decide_order_settles_example :
    (order' : ExchangeOrder) × (decide_order (exchange_decision reject) (order_from order_upd)
      ≡ ok (false, order'))
    × (order'.status ≡ ExchangeStatus.rejected)
    × (order'.confirmations ≡ order_signature (exchange_decision reject) ∷ [])
    × (order'.rejections ≡ [])
    × (order'.amount_from ≡ 200)
    × (order'.amount_to ≡ 3000)
decide_order_settles_example =
    decide_order_settles (exchange_decision reject) (order_from order_upd) refl
      (refl, refl, refl, refl)

abbrev usdt : Currency
usdt = Currency.erc20 (record { ticker = "USDT"; name = "USDT"; contract = "0x0" })

process_orders_unknown_example :
    let opened : ExchangeState = record bare {
      balances = insert Currency.eth (pos 0) bare.balances;
    } in
    let later = order_upd ∷ [] in
    (lookup Currency.eth (process_orders (order_upd ∷ later) bare).balances
      ≡ some (net_trades Currency.eth later (as_i64 3000)))
    × (lookup Currency.eth (process_orders (order_upd ∷ later) opened).balances
        ≡ some (net_trades Currency.eth later (sub_i64 (pos 0) (as_i64 3000))))
process_orders_unknown_example =
    process_orders_unknown order_upd bare (order_upd ∷ []) btc-ne-eth absent

abbrev deposited : BtcTransaction
deposited = btc_tx 5

deposit-IsNew : IsNew deposited wallet.deposits
unfolding replace_btc_tx
deposit-IsNew = refl

cancel_btc_tx-process_incoming_btc_tx_example :
    let s' = Exchange.cancel_btc_tx (tx_cancel 5) (process_incoming_btc_tx deposited wallet) in
    (s'.deposits ≡ wallet.deposits) × (lookup Currency.btc s'.balances ≡ some (pos 0))
cancel_btc_tx-process_incoming_btc_tx_example =
    cancel_btc_tx-process_incoming_btc_tx deposited (tx_cancel 5) wallet {v = pos 0} (refl, refl)
      refl deposit-IsNew held (omega arith)
