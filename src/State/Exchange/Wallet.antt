-- ===== src/State/Exchange/Wallet.antt =====
-- The running balances of the exchange.
use hexstody.Prelude.{
  ◌≡◌, ◌≢◌, refl, ap, ◌∙◌, List, [], ◌∷◌, none, some, nat_eq, ◌==◌, ==_refl, ==_ne, ==_iff, inl,
  inr, Bool-cases, if◌then◌else◌, arith,
}
use hexstody.Prelude.Int.{ℤ, pos}
use hexstody.Prelude.Words.{as_i64, add_i64, sub_i64}
use hexstody.Prelude.Dict.{
  Dict, lookup, insert, upsert, lookup-upsert-some, lookup-upsert-none, lookup-upsert_ne,
  lookup-insert_self,
}
use hexstody.Domain.Currency.{Currency, currency_eq}
use hexstody.State.Exchange.{ExchangeOrderUpd, ExchangeState, process_order}

-- What an order makes of the balance of one currency.
abbrev pub trade : Currency → ExchangeOrderUpd → ℤ → ℤ
trade c order x =
    let received = if order.currency_from == c then add_i64 x (as_i64 order.amount_from) else x in
    if order.currency_to == c then sub_i64 received (as_i64 order.amount_to) else received

-- Completed orders, one after the other, and what they make of a balance.
abbrev pub process_orders : List ExchangeOrderUpd → ExchangeState → ExchangeState
process_orders [] s = s
process_orders (order ∷ rest) s = process_orders rest (process_order order s)

abbrev pub net_trades : Currency → List ExchangeOrderUpd → ℤ → ℤ
net_trades c [] x = x
net_trades c (order ∷ rest) x = net_trades c rest (trade c order x)

module _ (c : Currency) where
  upsert-trade :
      (k : Currency) (f : ℤ → ℤ) (v : ℤ) (m : Dict Currency ℤ) {y : ℤ}
      → lookup c m ≡ some y
      → lookup c (upsert k f v m) ≡ some (if k == c then f y else y)
  upsert-trade k f v m {y} h = elim (Bool-cases (k == c)) [
    | inl hit ↦
        let named : k ≡ c = (==_iff k c).0 hit in rw (hit, named) (lookup-upsert-some c f v y m h)
    | inr miss ↦
        let other : k ≢ c = λ e. ground (arith, (==_iff k c).1 e) in
        rw miss (lookup-upsert_ne k c f v m other ∙ h)
  ]

  process_order-trade :
      (order : ExchangeOrderUpd) (s : ExchangeState) {x : ℤ}
      → lookup c s.balances ≡ some x
      → lookup c (process_order order s).balances ≡ some (trade c order x)
  unfolding process_order
  process_order-trade order s {x} h =
      upsert-trade order.currency_to _ (as_i64 order.amount_to) _
        (upsert-trade order.currency_from _ (as_i64 order.amount_from) s.balances h)

  process_orders-trades :
      (orders : List ExchangeOrderUpd) (s : ExchangeState) {x : ℤ}
      → lookup c s.balances ≡ some x
      → lookup c (process_orders orders s).balances ≡ some (net_trades c orders x)
  process_orders-trades [] s h = h
  process_orders-trades (order ∷ rest) s h =
      process_orders-trades rest (process_order order s) (process_order-trade order s h)

module _ (order : ExchangeOrderUpd) (s : ExchangeState) where
  first_purchase :
      order.currency_from ≢ order.currency_to
      → lookup order.currency_to s.balances ≡ none
      → lookup order.currency_to (process_order order s).balances ≡ some (as_i64 order.amount_to)
  unfolding process_order
  first_purchase other absent =
      lookup-upsert-none order.currency_to _ _ _
        (lookup-upsert_ne order.currency_from order.currency_to _ _ s.balances other ∙ absent)

  -- If the wallet has no balance yet of the currency that a completed order buys, other than the
  -- one it sells, then after this order and any later ones the balance is what the later ones make
  -- of the amount bought, while from a balance of 0 it is what they make of the amount bought taken
  -- from 0: the first purchase is counted with the wrong sign for good.
  pub process_orders_unknown :
      (later : List ExchangeOrderUpd)
      → order.currency_from ≢ order.currency_to
      → lookup order.currency_to s.balances ≡ none
      → let c = order.currency_to in
        let opened : ExchangeState = record s { balances = insert c (pos 0) s.balances } in
        (lookup c (process_orders (order ∷ later) s).balances
          ≡ some (net_trades c later (as_i64 order.amount_to)))
        × (lookup c (process_orders (order ∷ later) opened).balances
            ≡ some (net_trades c later (sub_i64 (pos 0) (as_i64 order.amount_to))))
  process_orders_unknown later other absent =
      let c = order.currency_to in
      let opened : ExchangeState = record s { balances = insert c (pos 0) s.balances } in
      let paid : trade c order (pos 0) ≡ sub_i64 (pos 0) (as_i64 order.amount_to) =
        rw (trade, ==_refl c, ==_ne order.currency_from c other) refl in
      (
        process_orders-trades c later (process_order order s) (first_purchase other absent),
        process_orders-trades c later (process_order order opened) (
            process_order-trade c order opened (lookup-insert_self c (pos 0) s.balances)
            ∙ ap some paid),
      )
