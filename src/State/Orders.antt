-- ===== src/State/Orders.antt =====
-- The handlers of hexstody-db/src/state/mod.rs for exchange orders.
pub mod Funds
pub mod Decisions
use hexstody.Prelude.{
  ℕ, Bool, true, false, List, [], ◌∷◌, ◌++◌, Option, none, some, ltb, nat_eq, string_eq,
  if◌then◌else◌,
}
use mathlib.Core.List.{flat_map}
use hexstody.Prelude.Int.{ℤ, pos, leb_ℤ}
use hexstody.Prelude.Words.{add_i16, sub_i16}
use hexstody.Prelude.Dict.{lookup, insert, values}
use hexstody.Domain.Types.{
  SignatureData, DecisionType, confirm, reject, ExchangeStatus, ExchangeFilter,
}
use hexstody.Domain.Currency.{Currency, currency_eq, CurrencyAddress, currency}
use hexstody.State.Exchange.{
  ApiOrder, ExchangeOrder, ExchangeOrderUpd, ExchangeDecision, has_confirmed, has_rejected,
  into_exchange_upd, process_order,
}
use hexstody.State.User
use hexstody.State.User.{UserInfo, UserCurrencyInfo, balance, put_order, put_purchase}
use hexstody.State.Core.{
  State, Handler, Result, fail, err, ok, with_user, with_currency, set_currency, insufficient_funds,
  user_missing_exchange, exchange_already_confirmed, exchange_already_rejected,
}

abbrev pub order_from : ExchangeOrderUpd → ExchangeOrder
order_from req = record {
  id = req.id;
  user = req.user;
  currency_from = req.currency_from;
  currency_to = req.currency_to;
  amount_from = req.amount_from;
  amount_to = req.amount_to;
  status = ExchangeStatus.in_progress (pos 0) (pos 0);
  created_at = req.created_at;
  confirmations = [];
  rejections = [];
}

unfoldable pub add_exchange_request : ExchangeOrderUpd → Handler (Unit {0})
add_exchange_request req = with_user req.user λ user.
    with_currency req.user user req.currency_from λ info.
      if ltb (balance info) req.amount_from
      then fail (insufficient_funds req.user req.currency_from)
      else λ s. (
        ok tt,
        set_currency req.user user req.currency_from (put_order req.id (order_from req) info) s,
      )

abbrev pub exchange_number_of_confirmations : ℤ
exchange_number_of_confirmations = pos 1

abbrev pub order_signature : ExchangeDecision → SignatureData
order_signature req = record {
  signature = req.signature;
  nonce = req.nonce;
  public_key = req.public_key;
}

-- The order after a decision, and whether it has just been completed. Both decisions push the
-- signature to `confirmations`.
unfoldable pub confirm_order :
    ℤ → ℤ → ExchangeDecision → ExchangeOrder → Result (Bool × ExchangeOrder)
confirm_order confirmations rejections req order =
    let signed = record order { confirmations = order.confirmations ++ order_signature req ∷ [] } in
    if has_confirmed order req.public_key
    then err exchange_already_confirmed
    else if leb_ℤ exchange_number_of_confirmations
        (sub_i16 (add_i16 confirmations (pos 1)) rejections)
    then ok (true, record signed { status = ExchangeStatus.completed })
    else ok (
      false,
      record signed {
        status = ExchangeStatus.in_progress (add_i16 confirmations (pos 1)) rejections;
      },
    )

unfoldable pub reject_order :
    ℤ → ℤ → ExchangeDecision → ExchangeOrder → Result (Bool × ExchangeOrder)
reject_order confirmations rejections req order =
    let signed = record order { confirmations = order.confirmations ++ order_signature req ∷ [] } in
    if has_rejected order req.public_key
    then err exchange_already_rejected
    else if leb_ℤ exchange_number_of_confirmations
        (sub_i16 (add_i16 rejections (pos 1)) confirmations)
    then ok (false, record signed { status = ExchangeStatus.rejected })
    else ok (
      false,
      record signed {
        status = ExchangeStatus.in_progress confirmations (add_i16 rejections (pos 1));
      },
    )

abbrev order_by_type :
    DecisionType → ℤ → ℤ → ExchangeDecision → ExchangeOrder → Result (Bool × ExchangeOrder)
order_by_type confirm = confirm_order
order_by_type reject = reject_order

abbrev order_by_status :
    ExchangeStatus → ExchangeDecision → ExchangeOrder → Result (Bool × ExchangeOrder)
order_by_status ExchangeStatus.completed req order = err exchange_already_confirmed
order_by_status ExchangeStatus.rejected req order = err exchange_already_rejected
order_by_status (ExchangeStatus.in_progress c r) req order =
    order_by_type req.decision c r req order

unfoldable pub decide_order : ExchangeDecision → ExchangeOrder → Result (Bool × ExchangeOrder)
unfolding confirm_order reject_order
decide_order req order = order_by_status order.status req order

-- A completed order also goes to the wallet of the exchange.
abbrev pub settle_order : Bool → ExchangeOrder → State → State
settle_order true order s = record s {
  exchange_state = process_order (into_exchange_upd order) s.exchange_state;
}
settle_order false order s = s

-- What a decision has written through the reference to the order.
abbrev pub store_order :
    ExchangeDecision → UserInfo → UserCurrencyInfo → Result (Bool × ExchangeOrder) → Handler Bool
store_order req user info (err e) s = (err e, s)
store_order req user info (ok (done, order)) s = (
  ok done,
  settle_order done order
      (set_currency req.user user req.currency_from (put_order req.id order info) s),
)

unfoldable pub apply_exchange_decision : ExchangeDecision → Handler Bool
unfolding decide_order
apply_exchange_decision req = with_user req.user λ user.
    with_currency req.user user req.currency_from λ info s.
      elim (lookup req.id info.exchange_requests) [
        | none ↦ (err (user_missing_exchange req.user req.currency_from), s)
        | some order ↦ store_order req user info (decide_order req order) s
      ]

unfoldable pub add_incoming_exchange : ExchangeDecision → Handler (Unit {0})
add_incoming_exchange req = with_user req.user λ user.
    with_currency req.user user req.currency_to λ info s.
      (ok tt, set_currency req.user user req.currency_to (put_purchase req.id req.amount_to info) s)

unfoldable pub get_exchange_requests : State → ExchangeFilter → List ApiOrder
get_exchange_requests s filter = flat_map (User.get_exchange_requests filter) (values s.users)

unfoldable pub set_exchange_address : CurrencyAddress → Handler (Unit {0})
set_exchange_address req s = (
  ok tt,
  record s {
    exchange_state = record s.exchange_state {
      addresses = insert (currency req) req s.exchange_state.addresses;
    };
  },
)
