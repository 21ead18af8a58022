-- ===== src/Tests/Accounts.antt =====
-- Balances and deposits.
use hexstody.Prelude.{◌≡◌, refl, arith, none, some, string_eq, nat_eq, ◌+◌, ◌≤◌, ◌<◌, ◌⊎◌}
use hexstody.Prelude.Int.{pos_part}
use hexstody.Prelude.Words.{total, total_size}
use hexstody.Prelude.Dict.{lookup, insert, values}
use hexstody.Domain.Currency.{Currency, currency_eq}
use hexstody.State.Transaction
use hexstody.State.Transaction.{replace_btc_tx}
use hexstody.State.Transaction.Outpoints.{IsNew}
use hexstody.State.User.{UserCurrencyInfo, balance, update_btc_tx, cancel_btc_tx, put_order}
use hexstody.State.User.Net.{net, balance-net, received, reserved, ordered, IsBounded}
use hexstody.State.User.Deposits.{HasUniqueOutputs, cancel_btc_tx-update_btc_tx}
use hexstody.State.Core.{ok, err, insufficient_funds, set_currency}
use hexstody.State.Orders.{add_exchange_request, order_from}
use hexstody.State.Orders.Funds.{add_exchange_request_lem}
use hexstody.Tests.Data.{account, user, state, btc_tx, tx_cancel, order_upd}

account-IsBounded : IsBounded account
unfolding received reserved ordered values total total_size Transaction.is_conflicted
    Transaction.amount
account-IsBounded = omega arith

account_unique : HasUniqueOutputs account
unfolding replace_btc_tx
account_unique = (refl, tt)

output-IsNew : IsNew (btc_tx 2) account.transactions
unfolding replace_btc_tx
output-IsNew = refl

abbrev with_order : UserCurrencyInfo
with_order = put_order order_upd.id (order_from order_upd) account

with_order-IsBounded : IsBounded with_order
unfolding received reserved ordered values insert total total_size Transaction.is_conflicted
    Transaction.amount
with_order-IsBounded = omega arith

known_user : lookup "alice" state.users ≡ some user
unfolding lookup
known_user = refl

known_currency : lookup Currency.btc user.currencies ≡ some account
unfolding lookup
known_currency = refl

new_order : lookup 9 account.exchange_requests ≡ none
unfolding lookup
new_order = refl

balance-net_example : balance account ≡ pos_part (net account)
balance-net_example = balance-net account account-IsBounded

cancel_btc_tx-update_btc_tx_example :
    cancel_btc_tx (tx_cancel 2) (update_btc_tx (btc_tx 2) account) ≡ account
cancel_btc_tx-update_btc_tx_example =
    cancel_btc_tx-update_btc_tx (btc_tx 2) account (tx_cancel 2) (refl, refl) output-IsNew refl

add_exchange_request_example :
    ((200 ≤ balance account)
      × (info' : UserCurrencyInfo) × (add_exchange_request order_upd state
          ≡ (ok tt, set_currency "alice" user Currency.btc info' state))
      × (balance info' + 200 ≡ balance account))
    ⊎ ((balance account < 200)
        × (add_exchange_request order_upd state
            ≡ (err (insufficient_funds "alice" Currency.btc), state)))
add_exchange_request_example =
    add_exchange_request_lem order_upd state user account known_user known_currency new_order
      with_order-IsBounded
