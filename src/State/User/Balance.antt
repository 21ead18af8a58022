-- ===== src/State/User/Balance.antt =====
-- How what a user holds changes with his withdrawals, orders and purchases.
use mathlib.Core.Option.{get_or}
use hexstody.Prelude.{ℕ, ◌+◌, ◌≤◌, ◌≡◌, none, some, arith, nat_eq, ap}
use hexstody.Prelude.Int.{ℤ, pos, pos_part, neg_part, ◌+ℤ◌, int_laws, +ℤ_parts, one_part}
use hexstody.Prelude.Dict.{lookup, insert}
use hexstody.Prelude.Dict.Totals.{
  total_over, total_over-values, total_over-filter_map, total_over-insert_new,
  total_over-insert_old,
}
use hexstody.Update.Withdrawal.{WithdrawalRequestId}
use hexstody.State.Withdraw.{WithdrawalRequest}
use hexstody.State.Exchange.{ExchangeOrder, ExchangeOrderId}
use hexstody.State.User.{UserCurrencyInfo, put_request, put_order, put_purchase}
use hexstody.State.User.Net.{cost, sold, reserved, received, ordered, net}

abbrev pub sold_amount : ExchangeOrder → ℕ
sold_amount order = get_or (sold order) 0

module _ (info : UserCurrencyInfo) where
  pub reserved-put_new :
      (id : WithdrawalRequestId) (req : WithdrawalRequest)
      → lookup id info.withdrawal_requests ≡ none
      → reserved (put_request id req info) ≡ reserved info + cost req
  unfolding reserved total_over
  reserved-put_new id req h = total_over-insert_new cost id req info.withdrawal_requests h

  pub reserved-put_old :
      (id : WithdrawalRequestId) (req old : WithdrawalRequest)
      → lookup id info.withdrawal_requests ≡ some old
      → reserved (put_request id req info) + cost old ≡ reserved info + cost req
  unfolding reserved total_over
  reserved-put_old id req old h = total_over-insert_old cost id req old info.withdrawal_requests h

  pub ordered-put_new :
      (id : ExchangeOrderId) (order : ExchangeOrder)
      → lookup id info.exchange_requests ≡ none
      → ordered (put_order id order info) ≡ ordered info + sold_amount order
  unfolding ordered
  ordered-put_new id order h =
      rw
        (
          total_over-filter_map sold (insert id order info.exchange_requests),
          total_over-filter_map sold info.exchange_requests,
        )
        (total_over-insert_new sold_amount id order info.exchange_requests h)

  pub ordered-put_old :
      (id : ExchangeOrderId) (order old : ExchangeOrder)
      → lookup id info.exchange_requests ≡ some old
      → ordered (put_order id order info) + sold_amount old ≡ ordered info + sold_amount order
  unfolding ordered
  ordered-put_old id order old h =
      rw
        (
          total_over-filter_map sold (insert id order info.exchange_requests),
          total_over-filter_map sold info.exchange_requests,
        )
        (total_over-insert_old sold_amount id order old info.exchange_requests h)

  pub received-put_new :
      (id : ExchangeOrderId) (amount : ℕ)
      → lookup id info.incoming_exchange_requests ≡ none
      → received (put_purchase id amount info) ≡ received info + amount
  unfolding received
  received-put_new id amount h =
      rw
        (
          total_over-values (insert id amount info.incoming_exchange_requests),
          total_over-values info.incoming_exchange_requests,
        )
        (total_over-insert_new (λ v. v) id amount info.incoming_exchange_requests h)

  pub net-put_request :
      (id : WithdrawalRequestId) (req : WithdrawalRequest)
      → lookup id info.withdrawal_requests ≡ none
      → net (put_request id req info) +ℤ pos (cost req) ≡ net info
  unfolding net received ordered
  net-put_request id req h = omega (int_laws, reserved-put_new id req h)

  pub net-replace_request :
      (id : WithdrawalRequestId) (req old : WithdrawalRequest)
      → lookup id info.withdrawal_requests ≡ some old
      → net (put_request id req info) +ℤ pos (cost req) ≡ net info +ℤ pos (cost old)
  unfolding net received ordered
  net-replace_request id req old h = omega (int_laws, reserved-put_old id req old h)

  pub net-put_order :
      (id : ExchangeOrderId) (order : ExchangeOrder)
      → lookup id info.exchange_requests ≡ none
      → net (put_order id order info) +ℤ pos (sold_amount order) ≡ net info
  unfolding net received reserved
  net-put_order id order h = omega (int_laws, ordered-put_new id order h)

  pub net-replace_order :
      (id : ExchangeOrderId) (order old : ExchangeOrder)
      → lookup id info.exchange_requests ≡ some old
      → net (put_order id order info) +ℤ pos (sold_amount order) ≡ net info +ℤ pos (sold_amount old)
  unfolding net received reserved
  net-replace_order id order old h = omega (int_laws, ordered-put_old id order old h)

  pub net-put_purchase :
      (id : ExchangeOrderId) (amount : ℕ)
      → lookup id info.incoming_exchange_requests ≡ none
      → net (put_purchase id amount info) ≡ net info +ℤ pos amount
  unfolding net ordered reserved
  net-put_purchase id amount h = omega (int_laws, received-put_new id amount h)

-- What is taken off a covered balance is missing from it.
pub covered_difference :
    (n m : ℤ) (a : ℕ) → n +ℤ pos a ≡ m → a ≤ pos_part m → pos_part n + a ≡ pos_part m
covered_difference n m a h c =
    omega
      (arith, +ℤ_parts n (pos a), one_part (n +ℤ pos a), one_part n, ap pos_part h, ap neg_part h)
