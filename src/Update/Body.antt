-- ===== src/Update/Body.antt =====
-- hexstody-db/src/update/mod.rs: the events that the database keeps.
use hexstody.Prelude.{Bool, true, false}
use hexstody.Domain.Types.{NaiveDateTime, LimitSpan}
use hexstody.Domain.Currency.{CurrencyAddress}
use hexstody.Update.Signup.{SignupInfo, DepositAddress}
use hexstody.Update.Withdrawal.{
  WithdrawalRequestInfo, WithdrawalRequestDecisionInfo, WithdrawCompleteInfo, WithdrawalRejectInfo,
}
use hexstody.Update.Limit.{LimitChangeUpd, LimitCancelData, LimitChangeDecision}
use hexstody.Update.Misc.{
  TokenUpdate, InviteRec, SetLanguage, ConfigUpdateData, PasswordChangeUpd, SetPublicKey,
}
use hexstody.Update.Btc.{BestBtcBlock, BtcTxCancel}
use hexstody.State.Transaction.{BtcTransaction}
use hexstody.State.Exchange.{ExchangeOrderUpd, ExchangeDecision}
use hexstody.State.Core.{State}

pub data UpdateBody : Type 0 where
  signup : SignupInfo → UpdateBody
  snapshot : State → UpdateBody
  create_withdrawal_request : WithdrawalRequestInfo → UpdateBody
  withdrawal_request_decision : WithdrawalRequestDecisionInfo → UpdateBody
  withdrawal_request_complete : WithdrawCompleteInfo → UpdateBody
  withdrawal_request_node_rejected : WithdrawalRejectInfo → UpdateBody
  deposit_address : DepositAddress → UpdateBody
  best_btc_block : BestBtcBlock → UpdateBody
  update_btc_tx : BtcTransaction → UpdateBody
  cancel_btc_tx : BtcTxCancel → UpdateBody
  update_tokens : TokenUpdate → UpdateBody
  gen_invite : InviteRec → UpdateBody
  limits_change_request : LimitChangeUpd → UpdateBody
  cancel_limit_change : LimitCancelData → UpdateBody
  limit_change_decision : LimitChangeDecision → UpdateBody
  clear_limits : LimitSpan → UpdateBody
  set_language : SetLanguage → UpdateBody
  config_update : ConfigUpdateData → UpdateBody
  password_change : PasswordChangeUpd → UpdateBody
  set_public_key : SetPublicKey → UpdateBody
  exchange_request : ExchangeOrderUpd → UpdateBody
  exchange_decision : ExchangeDecision → UpdateBody
  exchange_address : CurrencyAddress → UpdateBody

pub record StateUpdate : Type 0 where
  pub created : NaiveDateTime
  pub body : UpdateBody

-- `tag() == UpdateTag::Snapshot`
abbrev pub body_is_snapshot : UpdateBody → Bool
body_is_snapshot (UpdateBody.snapshot s) = true
body_is_snapshot _ = false
