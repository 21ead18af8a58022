-- ===== src/State/Withdrawals/Lists.antt =====
-- What a decision does to the two lists of a withdrawal request, and what it leaves alone.
use hexstody.Prelude.{◌≡◌, refl, ◌⊎◌, inl, inr, [], ◌∷◌, ◌++◌, Option, arith}
use hexstody.Domain.Types.{DecisionType, confirm, reject}
use hexstody.Update.Withdrawal.{WithdrawalRequestId, WithdrawalRequestDecisionInfo, decision_from}
use hexstody.State.Core.{ok}
use hexstody.State.Withdraw.{WithdrawalRequest, WithdrawalRequestStatus, in_progress}
use hexstody.State.Withdrawals.{without_key, confirm_request, reject_request, decide}
use hexstody.State.Withdrawals.Keys.{without_key_absent}

-- The parts of a request that its signatures are about.
abbrev pub SameRequest : WithdrawalRequest → WithdrawalRequest → Type 0
SameRequest req req' =
    (req'.id ≡ req.id)
    × (req'.user ≡ req.user)
    × (req'.address ≡ req.address)
    × (req'.created_at ≡ req.created_at)
    × (req'.amount ≡ req.amount)

abbrev Confirms : WithdrawalRequestDecisionInfo → WithdrawalRequest → WithdrawalRequest → Type 0
Confirms d req req' =
    (d.decision_type ≡ confirm)
    × (req'.confirmations ≡ req.confirmations ++ decision_from d ∷ [])
    × (req'.rejections ≡ without_key d.public_key req.rejections)

abbrev Rejects : WithdrawalRequestDecisionInfo → WithdrawalRequest → WithdrawalRequest → Type 0
Rejects d req req' =
    (d.decision_type ≡ reject)
    × (req'.rejections ≡ req.rejections ++ decision_from d ∷ [])
    × (req'.confirmations ≡ without_key d.public_key req.confirmations)

-- A decision that is taken adds itself to its side, takes its key off the other side, and keeps the
-- rest of the request but the status.
pub decide-lists :
    (d : WithdrawalRequestDecisionInfo) (req : WithdrawalRequest) {res : Option WithdrawalRequestId}
    {req' : WithdrawalRequest}
    → decide d req ≡ ok (res, req')
    → SameRequest req req' × (Confirms d req req' ⊎ Rejects d req req')
unfolding decide confirm_request reject_request
decide-lists d req {res} {req'} h = go req.status d.decision_type refl refl
  where
    go :
        (s : WithdrawalRequestStatus) (t : DecisionType)
        → req.status ≡ s
        → d.decision_type ≡ t
        → SameRequest req req' × (Confirms d req req' ⊎ Rejects d req req')
    go (in_progress n) confirm es et =
        (ground arith, inl (ground (arith, without_key_absent d.public_key req.rejections)))
    go (in_progress n) reject es et =
        (ground arith, inr (ground (arith, without_key_absent d.public_key req.confirmations)))
    go _ _ es et = ground arith
