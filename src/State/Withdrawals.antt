-- ===== src/State/Withdrawals.antt =====
-- The handlers of hexstody-db/src/state/mod.rs for withdrawal requests: creation, the decisions of
-- operators, completion and rejection by the node.
pub mod Keys
pub mod Counting
pub mod Outcome
pub mod Funds
pub mod Lists
use hexstody.Prelude.{
  ℕ, Bool, true, false, not, List, [], ◌∷◌, ◌++◌, Option, none, some, ltb, any, retain, map, ◌==◌,
  nat_eq, string_eq, if◌then◌else◌,
}
use mathlib.Core.List.{flat_map}
use hexstody.Prelude.Int.{ℤ, pos, beq_ℤ}
use hexstody.Prelude.Words.{add_u64, add_i16, sub_i16}
use hexstody.Prelude.Dict.{Dict, lookup, insert, update_all, values}
use hexstody.Domain.Types.{PublicKey, NaiveDateTime, DecisionType, confirm, reject}
use hexstody.Domain.Currency.{Currency, currency_eq, currency}
use hexstody.Update.Withdrawal.{
  WithdrawalRequestId, WithdrawalRequestType, under_limit, over_limit, WithdrawalRequestInfo,
  WithdrawalRequestDecisionInfo, WithdrawalRequestDecision, decision_from, WithdrawCompleteInfo,
  WithdrawalRejectInfo,
}
use hexstody.State.Withdraw.{
  WithdrawalRequest, WithdrawalRequestStatus, Completion, request_from, in_progress, confirmed,
  completed, op_rejected, node_rejected, required_number_of_confirmations,
}
use hexstody.State.User.{UserInfo, UserCurrencyInfo, put_request}
use hexstody.State.Core.{
  State, Handler, Result, fail, pure, err, ok, with_user, with_currency, set_currency, ◌>>=◌,
  limit_overflow, withdrawal_request_not_found, withdrawal_request_confirmation_duplicate,
  withdrawal_request_rejection_duplicate, withdrawal_request_already_confirmed,
  withdrawal_request_already_rejected,
}

-- `UpdateResult` of update/results.rs
pub data UpdateResult : Type 0 where
  withdraw_confirmed : WithdrawalRequestId → UpdateResult
  withdrawal_underlimit : WithdrawalRequest → UpdateResult

unfoldable pub insert_by_type :
    WithdrawalRequestType
    → WithdrawalRequest
    → UserInfo
    → UserCurrencyInfo
    → Handler (Option UpdateResult)
insert_by_type under_limit req user info =
    if ltb info.limit_info.limit.amount (add_u64 info.limit_info.spent req.amount)
    then fail limit_overflow
    else λ s. (
      ok (some (withdrawal_underlimit req)),
      set_currency req.user user (currency req.address) (put_request req.id req info) s,
    )
insert_by_type over_limit req user info = λ s.
    (ok none, set_currency req.user user (currency req.address) (put_request req.id req info) s)

unfoldable pub with_new_withdrawal_request :
    NaiveDateTime → WithdrawalRequestInfo → Handler (Option UpdateResult)
unfolding insert_by_type
with_new_withdrawal_request timestamp request_info =
    let req = request_from timestamp request_info in
    with_user req.user λ user.
      with_currency req.user user (currency req.address)
        λ info. insert_by_type req.request_type req user info

-- A decision was signed with the key.
unfoldable pub decided_by : PublicKey → List WithdrawalRequestDecision → Bool
decided_by key = any (λ c. c.public_key == key)

-- `retain(|x| x.public_key != key)`
unfoldable pub without_key :
    PublicKey → List WithdrawalRequestDecision → List WithdrawalRequestDecision
without_key key = retain (λ c. not (c.public_key == key))

-- 2 for an operator who changes his mind, 1 for a new one
abbrev pub weight : Bool → ℤ
weight true = pos 2
weight false = pos 1

-- The branches of a decision on a request that is in progress with the count `n`.
unfoldable pub confirm_request :
    ℤ
    → WithdrawalRequestDecisionInfo
    → WithdrawalRequest
    → Result (Option WithdrawalRequestId × WithdrawalRequest)
confirm_request n d req =
    let flips = decided_by d.public_key req.rejections in
    let m = weight flips in
    let counted = record req {
      rejections = if flips then without_key d.public_key req.rejections else req.rejections;
      confirmations = req.confirmations ++ decision_from d ∷ [];
    } in
    if decided_by d.public_key req.confirmations
    then err (withdrawal_request_confirmation_duplicate d.request_id d.public_key)
    else if beq_ℤ n (sub_i16 required_number_of_confirmations m)
    then ok (some req.id, record counted { status = confirmed })
    else ok (none, record counted { status = in_progress (add_i16 n m) })

unfoldable pub reject_request :
    ℤ
    → WithdrawalRequestDecisionInfo
    → WithdrawalRequest
    → Result (Option WithdrawalRequestId × WithdrawalRequest)
reject_request n d req =
    let flips = decided_by d.public_key req.confirmations in
    let m = weight flips in
    let counted = record req {
      confirmations =
          if flips then without_key d.public_key req.confirmations else req.confirmations;
      rejections = req.rejections ++ decision_from d ∷ [];
    } in
    if decided_by d.public_key req.rejections
    then err (withdrawal_request_rejection_duplicate d.request_id d.public_key)
    else if beq_ℤ n (sub_i16 m required_number_of_confirmations)
    then ok (none, record counted { status = op_rejected })
    else ok (none, record counted { status = in_progress (sub_i16 n m) })

abbrev decide_in_progress :
    DecisionType
    → ℤ
    → WithdrawalRequestDecisionInfo
    → WithdrawalRequest
    → Result (Option WithdrawalRequestId × WithdrawalRequest)
decide_in_progress confirm = confirm_request
decide_in_progress reject = reject_request

abbrev decide_by_status :
    WithdrawalRequestStatus
    → WithdrawalRequestDecisionInfo
    → WithdrawalRequest
    → Result (Option WithdrawalRequestId × WithdrawalRequest)
decide_by_status (in_progress n) d req = decide_in_progress d.decision_type n d req
decide_by_status confirmed d req = err (withdrawal_request_already_confirmed req.id)
decide_by_status (completed c) d req = err (withdrawal_request_already_confirmed req.id)
decide_by_status op_rejected d req = err (withdrawal_request_already_rejected req.id)
decide_by_status (node_rejected reason) d req = err (withdrawal_request_already_rejected req.id)

-- The request after a decision, with its id if it was just confirmed. Every error comes before the
-- first write.
unfoldable pub decide :
    WithdrawalRequestDecisionInfo
    → WithdrawalRequest
    → Result (Option WithdrawalRequestId × WithdrawalRequest)
decide d req = decide_by_status req.status d req

-- What `k` has written through the reference to the request.
abbrev pub store_decision :
    WithdrawalRequestDecisionInfo
    → UserInfo
    → UserCurrencyInfo
    → Result (Option WithdrawalRequestId × WithdrawalRequest)
    → Handler (Option WithdrawalRequestId)
store_decision d user info (err e) s = (err e, s)
store_decision d user info (ok (res, req)) s =
    (ok res, set_currency d.user_id user d.currency (put_request d.request_id req info) s)

-- The reference that `get_withdrawal_request_by_decision_info` finds, written by `k`.
unfoldable pub with_request :
    WithdrawalRequestDecisionInfo
    → (WithdrawalRequest → Result (Option WithdrawalRequestId × WithdrawalRequest))
    → Handler (Option WithdrawalRequestId)
with_request d k = with_user d.user_id λ user. with_currency d.user_id user d.currency λ info s.
    elim (lookup d.request_id info.withdrawal_requests) [
      | none ↦ (err (withdrawal_request_not_found d.user_id d.request_id), s)
      | some req ↦ store_decision d user info (k req) s
    ]

unfoldable pub with_withdrawal_request_decision :
    WithdrawalRequestDecisionInfo → Handler (Option WithdrawalRequestId)
unfolding with_request decide
with_withdrawal_request_decision d = with_request d (decide d)

-- `for` loops over all requests of all users: those with the id get the status.
unfoldable pub set_request_status : WithdrawalRequestId → WithdrawalRequestStatus → State → State
set_request_status id status s =
    let set_request = λ (req_id : WithdrawalRequestId) (req : WithdrawalRequest).
      if req_id == id then record req { status = status } else req in
    let set_info = λ (c : Currency) (info : UserCurrencyInfo). record info {
      withdrawal_requests = update_all set_request info.withdrawal_requests;
    } in
    record s {
      users =
          update_all (λ uid user. record user { currencies = update_all set_info user.currencies })
            s.users;
    }

unfoldable pub set_withdrawal_request_completed : WithdrawCompleteInfo → Handler (Unit {0})
unfolding set_request_status
set_withdrawal_request_completed info s = (
  ok tt,
  set_request_status info.id
      (completed (record {
        confirmed_at = info.confirmed_at;
        txid = info.txid;
        fee = info.fee;
        input_addresses = info.input_addresses;
        output_addresses = info.output_addresses;
      }))
      s,
)

unfoldable pub set_withdrawal_request_node_rejected : WithdrawalRejectInfo → Handler (Unit {0})
unfolding set_request_status
set_withdrawal_request_node_rejected info s =
    (ok tt, set_request_status info.id (node_rejected info.reason) s)

-- The requests of all users, in the order of the loops, with their keys.
all_requests : State → Dict WithdrawalRequestId WithdrawalRequest
all_requests s =
    flat_map (λ user. flat_map (λ info. info.withdrawal_requests) (values user.currencies))
      (values s.users)

insert_all :
    Dict WithdrawalRequestId WithdrawalRequest
    → Dict WithdrawalRequestId WithdrawalRequest
    → Dict WithdrawalRequestId WithdrawalRequest
insert_all [] result = result
insert_all ((id, req) ∷ rest) result = insert_all rest (insert id req result)

unfoldable pub withdrawal_requests : State → Dict WithdrawalRequestId WithdrawalRequest
unfolding all_requests insert_all
withdrawal_requests s = insert_all (all_requests s) []

unfoldable pub get_withdrawal_request : State → WithdrawalRequestId → Option WithdrawalRequest
unfolding all_requests
get_withdrawal_request s id = lookup id (all_requests s)
