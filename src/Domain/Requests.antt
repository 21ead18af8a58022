-- ===== src/Domain/Requests.antt =====
-- Requests and responses of hexstody-api/src/types.rs, as the services pass them to each other.
use hexstody.Prelude.{ℕ, List, Option, String}
use hexstody.Prelude.Int.{ℤ}
use hexstody.Domain.Types.{Uuid, Invite, SignatureData, Limit, LimitChangeStatus}
use hexstody.Domain.Currency.{Currency, CurrencyAddress}
use hexstody.Domain.Profile.{Email, PhoneNumber, TgName}
use hexstody.Update.Btc.{Txid}

pub record ConfirmedWithdrawal : Type 0 where
  pub id : Uuid
  pub user : String
  pub address : CurrencyAddress
  pub created_at : String
  pub amount : ℕ
  pub confirmations : List SignatureData
  pub rejections : List SignatureData

pub record WithdrawalResponse : Type 0 where
  pub id : Uuid
  pub txid : Txid
  pub fee : Option ℕ
  pub input_addresses : List CurrencyAddress
  pub output_addresses : List CurrencyAddress

pub record HotBalanceResponse : Type 0 where
  pub balance : ℕ

pub record FeeResponse : Type 0 where
  pub fee_rate : ℕ
  pub block : Option ℤ

pub record LimitConfirmationData : Type 0 where
  pub id : Uuid
  pub user : String
  pub created_at : String
  pub currency : Currency
  pub requested_limit : Limit

pub record ExchangeConfirmationData : Type 0 where
  pub user : String
  pub id : Uuid
  pub currency_from : Currency
  pub currency_to : Currency
  pub amount_from : ℕ
  pub amount_to : ℕ
  pub created_at : String

pub record InviteRequest : Type 0 where
  pub label : String

pub record InviteResp : Type 0 where
  pub invite : Invite
  pub label : String

pub record LimitChangeOpResponse : Type 0 where
  pub id : Uuid
  pub user : String
  pub created_at : String
  pub currency : Currency
  pub current_limit : Limit
  pub requested_limit : Limit
  pub status : LimitChangeStatus

pub record ExchangeBalanceItem : Type 0 where
  pub currency : Currency
  pub balance : ℤ

-- `UserInfo` of the API
pub record UserCard : Type 0 where
  pub first_name : Option String
  pub last_name : Option String
  pub email : Option Email
  pub phone : Option PhoneNumber
  pub tg_name : Option TgName
