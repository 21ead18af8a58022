-- ===== src/State/User/Net.antt =====
-- What a user holds in one currency, in numbers that do not wrap around.
use mathlib.Core.Option.{get_or}
use hexstody.Prelude.{
  ℕ, ◌+◌, ◌<◌, ◌≡◌, refl, List, [], ◌∷◌, Option, none, some, arith, map, filter_map, if◌then◌else◌,
  ◌∙◌,
}
use hexstody.Prelude.Int.{ℤ, pos, pos_part, ◌+ℤ◌, ◌-ℤ◌, sum, int_laws}
use hexstody.Prelude.Words.{
  u64_mod, i64_half, add_u64, add_u64_id, sum_u64-total, total, total_size, size, size-sum,
  size-sub, sum_i64-sum, add_i64_id, sub_i64_id, as_i64_id,
}
use hexstody.Prelude.Dict.{values}
use hexstody.State.Transaction
use hexstody.State.Withdraw
use hexstody.State.Withdraw.{WithdrawalRequest}
use hexstody.State.Exchange
use hexstody.State.Exchange.{ExchangeOrder}
use hexstody.State.User.{UserCurrencyInfo, pending_withdrawals, incoming, outgoing, settle, balance}

-- The amounts of the transactions that count.
abbrev pub unconflicted : Transaction.Transaction → Option ℤ
unconflicted t = if Transaction.is_conflicted t then none else some (Transaction.amount t)

abbrev pub deposits : UserCurrencyInfo → List ℤ
deposits info = filter_map unconflicted info.transactions

-- What a withdrawal takes: its amount and fee, unless it was rejected.
abbrev pub cost : WithdrawalRequest → ℕ
cost w = if Withdraw.is_rejected w then 0 else w.amount + get_or (Withdraw.fee w) 0

abbrev pub sold : ExchangeOrder → Option ℕ
sold v = if Exchange.is_rejected v then none else some v.amount_from

unfoldable pub reserved : UserCurrencyInfo → ℕ
reserved info = total (map cost (values info.withdrawal_requests))

unfoldable pub received : UserCurrencyInfo → ℕ
received info = total (values info.incoming_exchange_requests)

unfoldable pub ordered : UserCurrencyInfo → ℕ
ordered info = total (filter_map sold (values info.exchange_requests))

-- Deposits and completed purchases, less withdrawals and sales.
unfoldable pub net : UserCurrencyInfo → ℤ
net info = sum (deposits info) +ℤ pos (received info) -ℤ pos (reserved info) -ℤ pos (ordered info)

-- All amounts together fit into an `i64`.
abbrev pub IsBounded : UserCurrencyInfo → Type 0
IsBounded info =
    total_size (deposits info) + received info + reserved info + ordered info < i64_half

abbrev cost_u64 : WithdrawalRequest → ℕ
cost_u64 w = if Withdraw.is_rejected w then 0 else add_u64 w.amount (get_or (Withdraw.fee w) 0)

cost_u64-cost : (w : WithdrawalRequest) → cost w < u64_mod → cost_u64 w ≡ cost w
cost_u64-cost w h = ground (arith, add_u64_id w.amount (get_or (Withdraw.fee w) 0))

map-cost_u64 :
    (ws : List WithdrawalRequest) → total (map cost ws) < u64_mod → map cost_u64 ws ≡ map cost ws
unfolding total
map-cost_u64 [] h = refl
map-cost_u64 (w ∷ ws) h = rw (cost_u64-cost w (omega arith), map-cost_u64 ws (omega arith))

pending-reserved :
    (info : UserCurrencyInfo) → reserved info < u64_mod → pending_withdrawals info ≡ reserved info
unfolding pending_withdrawals reserved
pending-reserved info h =
    rw (map-cost_u64 (values info.withdrawal_requests) h)
      (sum_u64-total 0 (map cost (values info.withdrawal_requests)) (omega arith) ∙ omega arith)

incoming-received :
    (info : UserCurrencyInfo) → received info < u64_mod → incoming info ≡ received info
unfolding incoming received
incoming-received info h =
    sum_u64-total 0 (values info.incoming_exchange_requests) (omega arith) ∙ omega arith

outgoing-ordered : (info : UserCurrencyInfo) → ordered info < u64_mod → outgoing info ≡ ordered info
unfolding outgoing ordered
outgoing-ordered info h =
    sum_u64-total 0 (filter_map sold (values info.exchange_requests)) (omega arith) ∙ omega arith

regroup : (s i p o : ℤ) → s +ℤ (i -ℤ p -ℤ o) ≡ s +ℤ i -ℤ p -ℤ o
regroup s i p o = omega int_laws

zero-add : (s : ℤ) → pos 0 +ℤ s ≡ s
zero-add s = omega int_laws

-- The three steps of `settle`, each in range.
settle_exact :
    (info : UserCurrencyInfo) (s : ℤ)
    → size s + received info + reserved info + ordered info < i64_half
    → settle s info
      ≡ pos_part (s +ℤ pos (received info) -ℤ pos (reserved info) -ℤ pos (ordered info))
unfolding settle
settle_exact info s h =
    let i = received info in
    let p = reserved info in
    let o = ordered info in
    rw (
      incoming-received info (omega arith),
      pending-reserved info (omega arith),
      outgoing-ordered info (omega arith),
      as_i64_id i (omega arith),
      as_i64_id p (omega arith),
      as_i64_id o (omega arith),
      sub_i64_id (pos i) (pos p) (omega arith),
      sub_i64_id (pos i -ℤ pos p) (pos o) (omega (arith, size-sub (pos i) (pos p))),
      add_i64_id s (pos i -ℤ pos p -ℤ pos o)
          (omega (arith, size-sub (pos i) (pos p), size-sub (pos i -ℤ pos p) (pos o))),
      regroup s (pos i) (pos p) (pos o),
    )

-- If the amounts of an account together fit into an `i64`, its balance is the exact sum of its
-- unconflicted deposits and completed purchases less its withdrawals and fees that are not rejected
-- and its orders that are not rejected, or 0 where that is negative.
pub balance-net : (info : UserCurrencyInfo) → IsBounded info → balance info ≡ pos_part (net info)
unfolding balance net
balance-net info h =
    rw (sum_i64-sum (pos 0) (deposits info) (omega arith), zero-add (sum (deposits info)))
      (settle_exact info (sum (deposits info)) (omega (arith, size-sum (deposits info))))
