-- ===== src/State/Withdrawals/Outcome.antt =====
-- When a withdrawal request is confirmed, rejected, or neither.
use hexstody.Prelude.{◌≤◌, ◌≡◌, refl, true, false, [], ◌∷◌, ◌++◌, Option, none, some, arith, length}
use hexstody.Prelude.Int.{ℤ, pos, ◌+ℤ◌, ◌≤ℤ◌, +ℤ_parts}
use hexstody.Prelude.Words.{wrap, add_i16, add_i16_id}
use hexstody.Domain.Types.{confirm, reject}
use hexstody.Update.Withdrawal.{WithdrawalRequestId, WithdrawalRequestDecisionInfo, decision_from}
use hexstody.State.Core.{ok}
use hexstody.State.Withdraw.{WithdrawalRequest, in_progress, confirmed, op_rejected}
use hexstody.State.Withdrawals.{
  decided_by, without_key, weight, confirm_request, reject_request, decide,
}
use hexstody.State.Withdrawals.Keys.{DistinctKeys}
use hexstody.State.Withdrawals.Counting.{IsCounted, HasRoom, decide-IsCounted, confirm_threshold}

-- If a decision on a counted request, with room for one more, reports an id as confirmed, then the
-- decision was a confirmation, the id is that of the request, the request now has the status
-- `Confirmed`, and two or more confirmations, by different keys.
pub decide-confirmed :
    (d : WithdrawalRequestDecisionInfo) (req : WithdrawalRequest) {id : WithdrawalRequestId}
    {req' : WithdrawalRequest}
    → HasRoom req
    → IsCounted req
    → decide d req ≡ ok (some id, req')
    → (req'.status ≡ confirmed)
      × (id ≡ req.id)
      × (d.decision_type ≡ confirm)
      × (2 ≤ length req'.confirmations)
      × DistinctKeys req'.confirmations
unfolding decide confirm_request reject_request
decide-confirmed d req {id} {req'} room v h =
    let v' = decide-IsCounted d req {res = some id} {req' = req'} room v h in
    ground (arith, v'.tallied)

-- If a decision on a counted request, with room for one more, leaves it with the status
-- `OpRejected`, then the decision was a rejection, no id is reported as confirmed, and the request
-- has two or more rejections, by different keys.
pub decide-op_rejected :
    (d : WithdrawalRequestDecisionInfo) (req : WithdrawalRequest) {res : Option WithdrawalRequestId}
    {req' : WithdrawalRequest}
    → HasRoom req
    → IsCounted req
    → decide d req ≡ ok (res, req')
    → req'.status ≡ op_rejected
    → (d.decision_type ≡ reject)
      × (res ≡ none)
      × (2 ≤ length req'.rejections)
      × DistinctKeys req'.rejections
unfolding decide confirm_request reject_request
decide-op_rejected d req {res} {req'} room v h e =
    let v' = decide-IsCounted d req {res = res} {req' = req'} room v h in ground (arith, v'.tallied)

-- If the count of a request is 1 and an operator who has rejected it and not confirmed it now
-- confirms, then the count becomes 3 and the request stays in progress.
pub decide_overshoots :
    (d : WithdrawalRequestDecisionInfo) (req : WithdrawalRequest)
    → req.status ≡ in_progress (pos 1)
    → d.decision_type ≡ confirm
    → decided_by d.public_key req.confirmations ≡ false
    → decided_by d.public_key req.rejections ≡ true
    → (req' : WithdrawalRequest) × (decide d req ≡ ok (none, req'))
      × (req'.status ≡ in_progress (pos 3))
unfolding decide confirm_request add_i16 ◌+ℤ◌ wrap
decide_overshoots d req s t c r = (
  record req {
    rejections = without_key d.public_key req.rejections;
    confirmations = req.confirmations ++ decision_from d ∷ [];
    status = in_progress (pos 3);
  },
  ground (arith, confirm_threshold true),
  refl,
)

-- If the count of a counted request, with room for one more decision, is 2 or more, then a
-- confirmation that is taken leaves it in progress with a count of 2 or more, and reports nothing:
-- it is not confirmed.
pub confirm_above :
    (d : WithdrawalRequestDecisionInfo) (req : WithdrawalRequest) (n : ℤ)
    {res : Option WithdrawalRequestId} {req' : WithdrawalRequest}
    → HasRoom req
    → IsCounted req
    → req.status ≡ in_progress n
    → pos 2 ≤ℤ n
    → d.decision_type ≡ confirm
    → decide d req ≡ ok (res, req')
    → (res ≡ none) × ((n' : ℤ) × (req'.status ≡ in_progress n') × (pos 2 ≤ℤ n'))
unfolding decide confirm_request
confirm_above d req n {res} {req'} room v s above t h =
    let m = weight (decided_by d.public_key req.rejections) in
    let threshold = confirm_threshold (decided_by d.public_key req.rejections) in
    let exact = add_i16_id n m in
    let parts = +ℤ_parts n m in (ground arith, (n +ℤ m, ground arith, ground arith))
