-- ===== src/State/Withdraw.antt =====
-- hexstody-db/src/state/withdraw.rs: withdrawal requests and their states.
use hexstody.Prelude.{ℕ, Bool, true, false, List, [], Option, none}
use hexstody.Prelude.Int.{ℤ, pos}
use hexstody.Domain.Types.{NaiveDateTime, WithdrawalFilter}
use hexstody.Domain.Currency.{CurrencyAddress, CurrencyTxId}
use hexstody.Update.Signup.{UserId}
use hexstody.Update.Withdrawal.{
  WithdrawalRequestId, WithdrawalRequestType, WithdrawalRequestInfo, WithdrawalRequestDecision,
}
use hexstody.Prelude.{String}

-- `i16`
abbrev pub required_number_of_confirmations : ℤ
required_number_of_confirmations = pos 2

-- The fields of `Completed`.
pub record Completion : Type 0 where
  pub confirmed_at : NaiveDateTime
  pub txid : CurrencyTxId
  pub fee : Option ℕ
  pub input_addresses : List CurrencyAddress
  pub output_addresses : List CurrencyAddress

pub data WithdrawalRequestStatus : Type 0 where
  in_progress : ℤ → WithdrawalRequestStatus
  confirmed : WithdrawalRequestStatus
  completed : Completion → WithdrawalRequestStatus
  op_rejected : WithdrawalRequestStatus
  node_rejected : String → WithdrawalRequestStatus

pub record WithdrawalRequest : Type 0 where
  pub id : WithdrawalRequestId
  pub user : UserId
  pub address : CurrencyAddress
  pub created_at : NaiveDateTime
  pub amount : ℕ
  pub status : WithdrawalRequestStatus
  pub confirmations : List WithdrawalRequestDecision
  pub rejections : List WithdrawalRequestDecision
  pub request_type : WithdrawalRequestType

-- `From<(NaiveDateTime, WithdrawalRequestInfo)>`
abbrev pub request_from : NaiveDateTime → WithdrawalRequestInfo → WithdrawalRequest
request_from created_at info = record {
  id = info.id;
  user = info.user;
  address = info.address;
  created_at = created_at;
  amount = info.amount;
  status = in_progress (pos 0);
  confirmations = [];
  rejections = [];
  request_type = info.request_type;
}

abbrev pub status_rejected : WithdrawalRequestStatus → Bool
status_rejected op_rejected = true
status_rejected (node_rejected reason) = true
status_rejected _ = false

abbrev pub is_rejected : WithdrawalRequest → Bool
is_rejected req = status_rejected req.status

abbrev pub status_fee : WithdrawalRequestStatus → Option ℕ
status_fee (completed c) = c.fee
status_fee _ = none

abbrev pub fee : WithdrawalRequest → Option ℕ
fee req = status_fee req.status

abbrev status_matches : WithdrawalFilter → WithdrawalRequestStatus → Bool
status_matches WithdrawalFilter.all _ = true
status_matches WithdrawalFilter.pending (in_progress n) = true
status_matches WithdrawalFilter.confirmed confirmed = true
status_matches WithdrawalFilter.completed (completed c) = true
status_matches WithdrawalFilter.op_rejected op_rejected = true
status_matches WithdrawalFilter.node_rejected (node_rejected reason) = true
status_matches _ _ = false

unfoldable pub matches_filter : WithdrawalRequest → WithdrawalFilter → Bool
matches_filter req filter = status_matches filter req.status
