-- ===== src/Update/Withdrawal.antt =====
-- hexstody-db/src/update/withdrawal.rs, with `WithdrawalRequestType` of state/withdraw.rs and the
-- confirmation data of hexstody-api/src/types.rs that a decision is made from.
use hexstody.Prelude.{ℕ, List, Option, String}
use hexstody.Domain.Types.{Uuid, PublicKey, Signature, SignatureData, NaiveDateTime, DecisionType}
use hexstody.Domain.Currency.{Currency, CurrencyAddress, CurrencyTxId, currency}
use hexstody.Update.Signup.{UserId}

abbrev pub WithdrawalRequestId : Type 0
WithdrawalRequestId = Uuid

pub data WithdrawalRequestType : Type 0 where
  under_limit over_limit : WithdrawalRequestType

pub record WithdrawalRequestInfo : Type 0 where
  pub id : WithdrawalRequestId
  pub user : UserId
  pub address : CurrencyAddress
  pub amount : ℕ
  pub request_type : WithdrawalRequestType

pub record WithdrawalRequestDecisionInfo : Type 0 where
  pub user_id : UserId
  pub currency : Currency
  pub request_id : WithdrawalRequestId
  pub url : String
  pub signature : Signature
  pub nonce : ℕ
  pub public_key : PublicKey
  pub decision_type : DecisionType

pub record ConfirmationData : Type 0 where
  pub id : Uuid
  pub user : String
  pub address : CurrencyAddress
  pub created_at : String
  pub amount : ℕ

-- `From<(ConfirmationData, SignatureData, WithdrawalRequestDecisionType, String)>`
unfoldable pub decision_info_from :
    ConfirmationData → SignatureData → DecisionType → String → WithdrawalRequestDecisionInfo
unfolding currency
decision_info_from cd sd decision_type url = record {
  user_id = cd.user;
  currency = currency cd.address;
  request_id = cd.id;
  url = url;
  signature = sd.signature;
  nonce = sd.nonce;
  public_key = sd.public_key;
  decision_type = decision_type;
}

-- What a request stores of each decision.
pub record WithdrawalRequestDecision : Type 0 where
  pub url : String
  pub signature : Signature
  pub nonce : ℕ
  pub public_key : PublicKey

abbrev pub decision_from : WithdrawalRequestDecisionInfo → WithdrawalRequestDecision
decision_from info = record {
  url = info.url;
  signature = info.signature;
  nonce = info.nonce;
  public_key = info.public_key;
}

abbrev pub signature_data_from : WithdrawalRequestDecision → SignatureData
signature_data_from wrd = record {
  signature = wrd.signature;
  nonce = wrd.nonce;
  public_key = wrd.public_key;
}

pub record WithdrawCompleteInfo : Type 0 where
  pub id : WithdrawalRequestId
  pub confirmed_at : NaiveDateTime
  pub txid : CurrencyTxId
  pub fee : Option ℕ
  pub input_addresses : List CurrencyAddress
  pub output_addresses : List CurrencyAddress
  pub request_type : WithdrawalRequestType

pub record WithdrawalRejectInfo : Type 0 where
  pub id : WithdrawalRequestId
  pub reason : String
