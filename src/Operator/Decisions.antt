-- ===== src/Operator/Decisions.antt =====
-- The decisions of the operators on withdrawals, limits and exchanges.
use hexstody.Prelude.{String}
use hexstody.Domain.Types.{SignatureData, DecisionType}
use hexstody.Domain.Requests.{LimitConfirmationData, ExchangeConfirmationData}
use hexstody.Update.Body.{UpdateBody}
use hexstody.Update.Withdrawal.{ConfirmationData, decision_info_from}
use hexstody.Update.Limit.{LimitChangeDecision}
use hexstody.State.Exchange.{ExchangeDecision}
use hexstody.Operator.{Service, Call, guard_op_signature, send, after, url_of}

-- `From<(LimitConfirmationData, SignatureData, LimitChangeDecisionType, String)>`
abbrev pub limit_decision_from :
    LimitConfirmationData → SignatureData → DecisionType → String → LimitChangeDecision
limit_decision_from cd sd decision_type url = record {
  id = cd.id;
  user = cd.user;
  currency = cd.currency;
  created_at = cd.created_at;
  requested_limit = cd.requested_limit;
  url = url;
  signature = sd.signature;
  nonce = sd.nonce;
  public_key = sd.public_key;
  decision_type = decision_type;
}

-- `From<(ExchangeConfirmationData, SignatureData, ExchangeDecisionType, String)>`
abbrev pub exchange_decision_from :
    ExchangeConfirmationData → SignatureData → DecisionType → String → ExchangeDecision
exchange_decision_from cd sd decision url = record {
  user = cd.user;
  id = cd.id;
  currency_from = cd.currency_from;
  currency_to = cd.currency_to;
  amount_from = cd.amount_from;
  amount_to = cd.amount_to;
  url = url;
  signature = sd.signature;
  nonce = sd.nonce;
  public_key = sd.public_key;
  decision = decision;
}

module _ (service : Service) (to_json : ConfirmationData → String) where
  unfoldable pub confirm : SignatureData → ConfirmationData → Call (Unit {0})
  unfolding guard_op_signature send decision_info_from
  confirm sd cd = after (guard_op_signature service "/confirm" sd (to_json cd)) (
      send service (
        UpdateBody.withdrawal_request_decision
          (decision_info_from cd sd DecisionType.confirm (url_of service "/confirm"))))

  unfoldable pub reject : SignatureData → ConfirmationData → Call (Unit {0})
  unfolding guard_op_signature send decision_info_from
  reject sd cd = after (guard_op_signature service "/reject" sd (to_json cd)) (
      send service (
        UpdateBody.withdrawal_request_decision
          (decision_info_from cd sd DecisionType.reject (url_of service "/reject"))))

module _ (service : Service) (to_json : LimitConfirmationData → String) where
  unfoldable pub confirm_limits : SignatureData → LimitConfirmationData → Call (Unit {0})
  unfolding guard_op_signature send
  confirm_limits sd cd = after (guard_op_signature service "/limits/confirm" sd (to_json cd)) (
      send service (
        UpdateBody.limit_change_decision
          (limit_decision_from cd sd DecisionType.confirm (url_of service "/limits/confirm"))))

  unfoldable pub reject_limits : SignatureData → LimitConfirmationData → Call (Unit {0})
  unfolding guard_op_signature send
  reject_limits sd cd = after (guard_op_signature service "/limits/reject" sd (to_json cd)) (
      send service (
        UpdateBody.limit_change_decision
          (limit_decision_from cd sd DecisionType.reject (url_of service "/limits/reject"))))

module _ (service : Service) (to_json : ExchangeConfirmationData → String) where
  unfoldable pub confirm_exchange : SignatureData → ExchangeConfirmationData → Call (Unit {0})
  unfolding guard_op_signature send
  confirm_exchange sd cd = after (guard_op_signature service "/exchange/confirm" sd (to_json cd)) (
      send service (
        UpdateBody.exchange_decision
          (exchange_decision_from cd sd DecisionType.confirm (url_of service "/exchange/confirm"))))

  unfoldable pub reject_exchange : SignatureData → ExchangeConfirmationData → Call (Unit {0})
  unfolding guard_op_signature send
  reject_exchange sd cd = after (guard_op_signature service "/exchange/reject" sd (to_json cd)) (
      send service (
        UpdateBody.exchange_decision
          (exchange_decision_from cd sd DecisionType.reject (url_of service "/exchange/reject"))))
