-- ===== src/State/Apply/Kept/Withdrawals.antt =====
-- Withdrawal requests keep the properties of accounts.
use hexstody.Prelude.{◌≡◌, some, Option-cases, Option, string_eq, nat_eq, inl, inr, Bool-cases, ltb}
use hexstody.Prelude.Words.{add_u64}
use hexstody.Prelude.Dict.{lookup}
use hexstody.Prelude.Dict.Entries.{AllEntries-update_all}
use hexstody.Domain.Types.{NaiveDateTime}
use hexstody.Domain.Currency.{currency_eq, currency, address_eq}
use hexstody.State.User.{UserInfo, UserCurrencyInfo}
use hexstody.State.Apply.Kept.{KeepsUser, AllUsers, user_cases, set_currency-Keeps}
use hexstody.Update.Signup.{UserId}
use hexstody.State.Core.{invite_eq, State, Result, ok, err, with_user, with_currency}
use hexstody.Update.Withdrawal.{
  WithdrawalRequestId, WithdrawalRequestType, under_limit, over_limit, WithdrawalRequestInfo,
  WithdrawalRequestDecisionInfo, WithdrawCompleteInfo, WithdrawalRejectInfo,
}
use hexstody.State.Withdraw.{WithdrawalRequest, WithdrawalRequestStatus, request_from}
use hexstody.State.Withdrawals.{
  with_new_withdrawal_request, insert_by_type, decide, store_decision, with_request,
  with_withdrawal_request_decision, set_request_status, set_withdrawal_request_completed,
  set_withdrawal_request_node_rejected,
}

module _ (U : UserId → UserInfo → Type 0) (kept : KeepsUser U) where
  pub with_new_withdrawal_request-Keeps :
      (t : NaiveDateTime) (info : WithdrawalRequestInfo) (s : State)
      → AllUsers U s
      → AllUsers U (with_new_withdrawal_request t info s).1
  unfolding with_new_withdrawal_request insert_by_type
  with_new_withdrawal_request-Keeps t r s a = (elim (user_cases U r.user s a) [
    | inl no_user ↦ rw (no_user, with_new_withdrawal_request, insert_by_type, with_user) a
    | inr (user, user_known, au) ↦
        rw (user_known, with_new_withdrawal_request, insert_by_type, with_user)
          ((elim (Option-cases (lookup (currency r.address) user.currencies)) [
            | inl no_account ↦ rw (no_account, with_currency) a
            | inr (info, held) ↦ rw (held, with_currency) (go r.request_type user au info held)
          ]))
  ])
    where
      go :
          (k : WithdrawalRequestType) (user : UserInfo)
          → U r.user user
          → (info : UserCurrencyInfo) → lookup (currency r.address) user.currencies ≡ some info
          → AllUsers U (insert_by_type k (request_from t r) user info s).1
      go under_limit user au info held =
          elim (Bool-cases
            (ltb info.limit_info.limit.amount (add_u64 info.limit_info.spent r.amount))) [
              | inl over ↦ rw over a
              | inr within ↦ rw within (
                  set_currency-Keeps U kept r.user user (currency r.address) _ s a au held
                    (λ P k p. k.requests _ p))
            ]
      go over_limit user au info held =
          set_currency-Keeps U kept r.user user (currency r.address) _ s a au held
            (λ P k p. k.requests _ p)

  pub with_withdrawal_request_decision-Keeps :
      (d : WithdrawalRequestDecisionInfo) (s : State)
      → AllUsers U s
      → AllUsers U (with_withdrawal_request_decision d s).1
  unfolding with_request with_withdrawal_request_decision
  with_withdrawal_request_decision-Keeps d s a = (elim (user_cases U d.user_id s a) [
    | inl no_user ↦ rw (no_user, with_request, with_withdrawal_request_decision, with_user) a
    | inr (user, user_known, au) ↦
        rw (user_known, with_request, with_withdrawal_request_decision, with_user)
          ((elim (Option-cases (lookup d.currency user.currencies)) [
            | inl no_account ↦ rw (no_account, with_currency) a
            | inr (info, held) ↦
                rw (held, with_currency)
                  (elim (Option-cases (lookup d.request_id info.withdrawal_requests)) [
                    | inl unknown ↦ rw unknown a
                    | inr (req, known) ↦ rw known (go user au info held (decide d req))
                  ])
          ]))
  ])
    where
      go :
          (user : UserInfo)
          → U d.user_id user
          → (info : UserCurrencyInfo) → lookup d.currency user.currencies ≡ some info
          → (r : Result (Option WithdrawalRequestId × WithdrawalRequest))
          → AllUsers U (store_decision d user info r s).1
      go user au info held (err e) = a
      go user au info held (ok (res, req')) =
          set_currency-Keeps U kept d.user_id user d.currency _ s a au held
            (λ P k p. k.requests _ p)

  pub set_request_status-Keeps :
      (id : WithdrawalRequestId) (st : WithdrawalRequestStatus) (s : State)
      → AllUsers U s
      → AllUsers U (set_request_status id st s)
  unfolding set_request_status
  set_request_status-Keeps id st s a =
      AllEntries-update_all U _ s.users
        (λ uid user au. kept.accounts _ (λ c info P k p. k.requests _ p) au) a

  pub set_withdrawal_request_completed-Keeps :
      (info : WithdrawCompleteInfo) (s : State)
      → AllUsers U s
      → AllUsers U (set_withdrawal_request_completed info s).1
  unfolding set_withdrawal_request_completed
  set_withdrawal_request_completed-Keeps info s a = set_request_status-Keeps info.id _ s a

  pub set_withdrawal_request_node_rejected-Keeps :
      (info : WithdrawalRejectInfo) (s : State)
      → AllUsers U s
      → AllUsers U (set_withdrawal_request_node_rejected info s).1
  unfolding set_withdrawal_request_node_rejected
  set_withdrawal_request_node_rejected-Keeps info s a = set_request_status-Keeps info.id _ s a
