-- ===== src/State/Withdrawals/Counting.antt =====
-- The count of a withdrawal request is the number of its confirmations less that of its rejections.
use hexstody.Prelude.{
  ℕ, suc, ◌+◌, ◌<◌, ◌≡◌, refl, ap, Bool, true, false, List, [], ◌∷◌, Option, arith, length,
  length-append, inl, inr, Bool-cases, if◌then◌else◌,
}
use hexstody.Prelude.Int.{ℤ, pos, negsuc, pos_part, neg_part, ◌-ℤ◌, +ℤ_parts, -ℤ_parts}
use hexstody.Prelude.Words.{i16_half, sub_i16, add_i16_id, sub_i16_id, wrap}
use hexstody.Domain.Types.{NaiveDateTime, PublicKey, DecisionType, confirm, reject}
use hexstody.Update.Withdrawal.{
  WithdrawalRequestInfo, WithdrawalRequestId, WithdrawalRequestDecisionInfo,
  WithdrawalRequestDecision, decision_from,
}
use hexstody.State.Core.{ok}
use hexstody.State.Withdraw.{
  request_from, WithdrawalRequest, WithdrawalRequestStatus, in_progress, confirmed, op_rejected,
  required_number_of_confirmations,
}
use hexstody.State.Withdrawals.{
  decided_by, without_key, weight, confirm_request, reject_request, decide,
}
use hexstody.State.Withdrawals.Keys.{
  DistinctKeys, DisjointKeys, without_key_absent, length-without_key, decided_by-without_key_self,
  without_key-DistinctKeys, append-DistinctKeys, DisjointKeys-without_key_left,
  DisjointKeys-without_key_right, DisjointKeys-append_left, DisjointKeys-append_right,
}

-- What the status says of the numbers of confirmations and of rejections.
abbrev pub Tallies : WithdrawalRequestStatus → ℕ → ℕ → Type 0
Tallies (in_progress n) c r = pos_part n + r ≡ neg_part n + c
Tallies confirmed c r = c ≡ r + 2
Tallies op_rejected c r = r ≡ c + 2
Tallies _ c r = Unit

-- Each operator's key is counted once, on one side.
pub record IsCounted (req : WithdrawalRequest) : Type 0 where
  pub confirmed_once : DistinctKeys req.confirmations
  pub rejected_once : DistinctKeys req.rejections
  pub one_side : DisjointKeys req.confirmations req.rejections
  pub tallied : Tallies req.status (length req.confirmations) (length req.rejections)

-- A new request has no decisions, and its count is zero.
pub request_from-IsCounted :
    (t : NaiveDateTime) (info : WithdrawalRequestInfo) → IsCounted (request_from t info)
request_from-IsCounted t info = record {
  confirmed_once = tt;
  rejected_once = tt;
  one_side = tt;
  tallied = refl;
}

-- An operator who changes his mind is taken off the other list.
module _ (k : PublicKey) (xs : List WithdrawalRequestDecision) where
  off_list : (if decided_by k xs then without_key k xs else xs) ≡ without_key k xs
  off_list = ground (arith, without_key_absent k xs)

  length-off_list :
      DistinctKeys xs
      → suc (length xs) ≡ length (without_key k xs) + pos_part (weight (decided_by k xs))
  length-off_list d = elim (Bool-cases (decided_by k xs)) [
    | inl old ↦ rw old (omega (arith, length-without_key k xs d old))
    | inr new ↦ rw new (omega (arith, ap length (without_key_absent k xs new)))
  ]

pub confirm_threshold :
    (b : Bool) → sub_i16 required_number_of_confirmations (weight b) ≡ (if b then pos 0 else pos 1)
unfolding sub_i16 ◌-ℤ◌ wrap
confirm_threshold true = refl
confirm_threshold false = refl

pub reject_threshold :
    (b : Bool)
    → sub_i16 (weight b) required_number_of_confirmations ≡ (if b then pos 0 else negsuc 0)
unfolding sub_i16 ◌-ℤ◌ wrap
reject_threshold true = refl
reject_threshold false = refl

confirm-IsCounted :
    (n : ℤ) (d : WithdrawalRequestDecisionInfo) (req : WithdrawalRequest)
    {res : Option WithdrawalRequestId} {req' : WithdrawalRequest}
    → length req.confirmations + length req.rejections + 3 < i16_half
    → req.status ≡ in_progress n
    → IsCounted req
    → confirm_request n d req ≡ ok (res, req')
    → IsCounted req'
unfolding confirm_request
confirm-IsCounted n d req bound s v h = ground (
  arith,
  off_list d.public_key req.rejections,
  length-off_list d.public_key req.rejections v.rejected_once,
  without_key-DistinctKeys d.public_key req.rejections v.rejected_once,
  append-DistinctKeys req.confirmations (decision_from d) v.confirmed_once,
  decided_by-without_key_self d.public_key req.rejections,
  DisjointKeys-without_key_right d.public_key req.confirmations req.rejections v.one_side,
  DisjointKeys-append_left req.confirmations (without_key d.public_key req.rejections)
      (decision_from d),
  length-append req.confirmations (decision_from d ∷ []),
  add_i16_id n (weight (decided_by d.public_key req.rejections)),
  +ℤ_parts n (weight (decided_by d.public_key req.rejections)),
  confirm_threshold (decided_by d.public_key req.rejections),
)

reject-IsCounted :
    (n : ℤ) (d : WithdrawalRequestDecisionInfo) (req : WithdrawalRequest)
    {res : Option WithdrawalRequestId} {req' : WithdrawalRequest}
    → length req.confirmations + length req.rejections + 3 < i16_half
    → req.status ≡ in_progress n
    → IsCounted req
    → reject_request n d req ≡ ok (res, req')
    → IsCounted req'
unfolding reject_request
reject-IsCounted n d req bound s v h = ground (
  arith,
  off_list d.public_key req.confirmations,
  length-off_list d.public_key req.confirmations v.confirmed_once,
  without_key-DistinctKeys d.public_key req.confirmations v.confirmed_once,
  append-DistinctKeys req.rejections (decision_from d) v.rejected_once,
  decided_by-without_key_self d.public_key req.confirmations,
  DisjointKeys-without_key_left d.public_key req.confirmations req.rejections v.one_side,
  DisjointKeys-append_right (without_key d.public_key req.confirmations) req.rejections
      (decision_from d),
  length-append req.rejections (decision_from d ∷ []),
  sub_i16_id n (weight (decided_by d.public_key req.confirmations)),
  -ℤ_parts n (weight (decided_by d.public_key req.confirmations)),
  reject_threshold (decided_by d.public_key req.confirmations),
)

-- Room for one more decision: the count stays within an `i16`.
abbrev pub HasRoom : WithdrawalRequest → Type 0
HasRoom req = length req.confirmations + length req.rejections + 3 < i16_half

-- A decision that is taken on a withdrawal request, which has room for one more decision within an
-- `i16`, keeps the request counted: no key has two confirmations or two rejections, no key is on
-- both sides, the count in progress is the number of confirmations less that of rejections, and a
-- confirmed or rejected request has two more of the one than of the other.
pub decide-IsCounted :
    (d : WithdrawalRequestDecisionInfo) (req : WithdrawalRequest) {res : Option WithdrawalRequestId}
    {req' : WithdrawalRequest}
    → HasRoom req
    → IsCounted req
    → decide d req ≡ ok (res, req')
    → IsCounted req'
unfolding decide
decide-IsCounted d req {res} {req'} room v h = go req.status d.decision_type refl refl
  where
    go :
        (s : WithdrawalRequestStatus) (t : DecisionType)
        → req.status ≡ s
        → d.decision_type ≡ t
        → IsCounted req'
    go (in_progress n) confirm es et =
        confirm-IsCounted n d req {res = res} room es v (ground arith)
    go (in_progress n) reject es et = reject-IsCounted n d req {res = res} room es v (ground arith)
    go _ _ es et = ground arith
