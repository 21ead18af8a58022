-- ===== src/State/Apply/Halves.antt =====
-- A decision on an exchange order is two steps, and the second may fail.
use hexstody.Prelude.{◌≡◌, ◌≢◌, arith, none, some, true, string_eq, nat_eq}
use hexstody.Prelude.Dict.{lookup, insert, lookup-insert_self, lookup-insert_ne}
use hexstody.Domain.Types.{confirm, ExchangeStatus}
use hexstody.Domain.Currency.{currency_eq}
use hexstody.State.Exchange.{ExchangeOrder, ExchangeDecision, status_pending}
use hexstody.State.User.{UserInfo, UserCurrencyInfo, put_order}
use hexstody.State.Core.{State, err, user_missing_currency, set_currency}
use hexstody.State.Orders.{apply_exchange_decision, add_incoming_exchange, settle_order}
use hexstody.State.Orders.Decisions.{IsUntouched, decide_order_settles}
use hexstody.State.Apply.{exchange_decision}

-- If an operator confirms a pending order without signatures of a user who has an account in the
-- currency sold and none in the other currency bought, then the decision fails with
-- `UserMissingCurrency`, but leaves a state in which the order is completed and the wallet of the
-- exchange has processed it.
pub exchange_decision_half :
    (req : ExchangeDecision) (s : State) (user : UserInfo) (info : UserCurrencyInfo)
    (order : ExchangeOrder)
    → lookup req.user s.users ≡ some user
    → lookup req.currency_from user.currencies ≡ some info
    → lookup req.id info.exchange_requests ≡ some order
    → status_pending order.status ≡ true
    → IsUntouched order
    → req.decision ≡ confirm
    → req.currency_from ≢ req.currency_to
    → lookup req.currency_to user.currencies ≡ none
    → (order' : ExchangeOrder) × (order'.status ≡ ExchangeStatus.completed)
      × (exchange_decision req s ≡ (
        err (user_missing_currency req.user req.currency_to),
        settle_order true order'
            (set_currency req.user user req.currency_from (put_order req.id order' info) s),
      ))
unfolding exchange_decision apply_exchange_decision add_incoming_exchange
exchange_decision_half req s user info order eu ec eo pending untouched confirms ne missing =
    let (order', decided, settled, _, _, _, _) = decide_order_settles req order pending untouched in
    let user' = record user {
      currencies = insert req.currency_from (put_order req.id order' info) user.currencies;
    } in
    let known = lookup-insert_self req.user user' s.users in
    let absent =
      lookup-insert_ne req.currency_from req.currency_to (put_order req.id order' info)
        user.currencies ne in
    (order', ground arith, ground (arith, known, absent))
