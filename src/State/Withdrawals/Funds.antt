-- ===== src/State/Withdrawals/Funds.antt =====
-- What decisions on withdrawal requests do to what the user holds.
use hexstody.Prelude.{
  ℕ, ◌≡◌, Option, some, arith, ◌∙◌, sym, ap, if◌then◌else◌, Bool-cases, inl, inr,
}
use hexstody.Prelude.Int.{ℤ, pos, ◌+ℤ◌, ◌-ℤ◌, int_laws}
use hexstody.Prelude.Dict.{lookup}
use hexstody.Prelude.{nat_eq}
use hexstody.Update.Withdrawal.{WithdrawalRequestId, WithdrawalRequestDecisionInfo}
use hexstody.State.Core.{ok}
use hexstody.State.Withdraw
use hexstody.State.Withdraw.{WithdrawalRequest, op_rejected, in_progress}
use hexstody.State.User.{UserCurrencyInfo, put_request}
use hexstody.State.User.Net.{cost, net}
use hexstody.State.User.Balance.{net-replace_request}
use hexstody.State.Withdrawals.{decide, confirm_request, reject_request}

-- A decision is taken on a request that costs its amount, and costs nothing afterwards only if it is
-- rejected.
cost-decide :
    (d : WithdrawalRequestDecisionInfo) (req : WithdrawalRequest) {res : Option WithdrawalRequestId}
    {req' : WithdrawalRequest}
    → decide d req ≡ ok (res, req')
    → (cost req ≡ req.amount) × (cost req' ≡ (if Withdraw.is_rejected req' then 0 else req.amount))
unfolding decide confirm_request reject_request
cost-decide d req h = ground arith

add_none : (x : ℤ) → x +ℤ pos 0 ≡ x
add_none x = omega int_laws

add_back : (x : ℤ) (a : ℕ) → x +ℤ pos a -ℤ pos a ≡ x
add_back x a = omega int_laws

-- A decision that is taken on a withdrawal request of an account gives the user back exactly the
-- amount of the request if it leaves the request rejected, and otherwise leaves what the user holds
-- as it was.
pub net-decide :
    (d : WithdrawalRequestDecisionInfo) (info : UserCurrencyInfo) (req : WithdrawalRequest)
    {res : Option WithdrawalRequestId} {req' : WithdrawalRequest}
    → lookup d.request_id info.withdrawal_requests ≡ some req
    → decide d req ≡ ok (res, req')
    → net (put_request d.request_id req' info)
      ≡ (if Withdraw.is_rejected req' then net info +ℤ pos req.amount else net info)
net-decide d info req {res} {req'} old h =
    let (before, after) = cost-decide d req {res = res} {req' = req'} h in
    let spent : cost req' ≡ (if Withdraw.is_rejected req' then 0 else req.amount) = after in
    let moved = net-replace_request info d.request_id req' req old in
    let paid = moved ∙ ap (λ n. net info +ℤ pos n) before in
    let net' = net (put_request d.request_id req' info) in
    elim (Bool-cases (Withdraw.is_rejected req')) [
      | inl refunded ↦
          let free : cost req' ≡ 0 = spent ∙ ap (λ b. if b then 0 else req.amount) refunded in
          rw refunded (sym (add_none net') ∙ ap (λ n. net' +ℤ pos n) (sym free) ∙ paid)
      | inr kept ↦
          let same : cost req' ≡ req.amount = spent ∙ ap (λ b. if b then 0 else req.amount) kept in
          let level : net' +ℤ pos req.amount ≡ net info +ℤ pos req.amount =
            ap (λ n. net' +ℤ pos n) (sym same) ∙ paid in
          rw kept (
            sym (add_back net' req.amount)
            ∙ ap (λ z. z -ℤ pos req.amount) level
            ∙ add_back (net info) req.amount)
    ]
