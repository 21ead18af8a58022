-- ===== src/State/Orders/Funds.antt =====
-- What exchange orders do to the balance of a user.
use native.Mathlib.Decide.{dec_le}
use hexstody.Prelude.{◌⊎◌, inl, inr, ◌+◌, ◌≤◌, ◌<◌, ◌≡◌, none, some, arith, nat_eq, string_eq}
use hexstody.Prelude.Dict.{lookup}
use hexstody.Domain.Currency.{currency_eq}
use hexstody.State.Exchange.{ExchangeOrderUpd}
use hexstody.State.User.{UserInfo, UserCurrencyInfo, balance, put_order}
use hexstody.State.User.Net.{net, IsBounded, balance-net, received, reserved}
use hexstody.State.User.Balance.{covered_difference, net-put_order, ordered-put_new}
use hexstody.State.Core.{State, ok, err, set_currency, insufficient_funds}
use hexstody.State.Orders.{order_from, add_exchange_request}

-- A new order of an amount that is covered takes exactly that amount off the balance.
balance-put_order :
    (info : UserCurrencyInfo) (req : ExchangeOrderUpd)
    → lookup req.id info.exchange_requests ≡ none
    → IsBounded (put_order req.id (order_from req) info)
    → req.amount_from ≤ balance info
    → balance (put_order req.id (order_from req) info) + req.amount_from ≡ balance info
unfolding received reserved
balance-put_order info req fresh bounded covered =
    let before =
      balance-net info (omega (arith, ordered-put_new info req.id (order_from req) fresh)) in
    let after = balance-net (put_order req.id (order_from req) info) bounded in
    rw (after, before)
      (covered_difference (net (put_order req.id (order_from req) info)) (net info) req.amount_from
        (net-put_order info req.id (order_from req) fresh) (rw before at covered))

-- For a new order of a known user in a currency that he has, whose account with the order added has
-- amounts that fit into an `i64`, `add_exchange_request` does one of two things. If the balance
-- covers the amount sold, it succeeds and changes only this account, whose balance falls by exactly
-- that amount. If the balance is below it, it fails with `InsufficientFunds` and leaves the state
-- as it was.
pub add_exchange_request_lem :
    (req : ExchangeOrderUpd) (s : State) (user : UserInfo) (info : UserCurrencyInfo)
    → lookup req.user s.users ≡ some user
    → lookup req.currency_from user.currencies ≡ some info
    → lookup req.id info.exchange_requests ≡ none
    → IsBounded (put_order req.id (order_from req) info)
    → ((req.amount_from ≤ balance info)
        × (info' : UserCurrencyInfo) × (add_exchange_request req s
            ≡ (ok tt, set_currency req.user user req.currency_from info' s))
        × (balance info' + req.amount_from ≡ balance info))
      ⊎ ((balance info < req.amount_from)
          × (add_exchange_request req s ≡ (err (insufficient_funds req.user req.currency_from), s)))
unfolding add_exchange_request
add_exchange_request_lem req s user info eu ec fresh bounded =
    elim (dec_le req.amount_from (balance info)) [
      | yes enough ↦ inl (
        enough,
        put_order req.id (order_from req) info,
        ground arith,
        balance-put_order info req fresh bounded enough,
      )
      | no short ↦ inr (omega arith, ground arith)
    ]
