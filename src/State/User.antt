-- ===== src/State/User.antt =====
-- hexstody-db/src/state/user.rs: a user, and what he holds in one currency.
pub mod Net
pub mod Balance
pub mod Deposits
use hexstody.Prelude.{
  ℕ, Bool, true, false, List, [], ◌∷◌, ◌++◌, Option, none, some, String, map, filter_map, find_map,
  any, nat_eq, ◌==◌, not, if◌then◌else◌,
}
use mathlib.Core.Option.{get_or}
use mathlib.Core.List.{flat_map}
use hexstody.Prelude.Int.{ℤ, pos, pos_part, leb_ℤ}
use hexstody.Prelude.Words.{as_i64, add_u64, add_i64, sub_i64, sum_u64, sum_i64}
use hexstody.Prelude.Dict.{Dict, lookup, insert, values}
use hexstody.Domain.Types.{
  PublicKey, Invite, NaiveDateTime, LimitInfo, default_limit_info, ExchangeFilter,
}
use hexstody.Domain.Currency.{
  Currency, currency_eq, CurrencyAddress, address_eq, CurrencyTxId, txid_eq, currency,
  txid_currency, default_currencies,
}
use hexstody.Domain.Profile.{Language, english, Email, PhoneNumber, TgName}
use hexstody.Update.Signup.{UserId, SignupAuth, SignupInfo}
use hexstody.Update.Withdrawal.{WithdrawalRequestId}
use hexstody.Update.Limit.{LimitChangeData}
use hexstody.Update.Btc.{BtcTxCancel}
use hexstody.State.Transaction
use hexstody.State.Transaction.{BtcTransaction, replace_btc_tx, position, remove_at}
use hexstody.State.Withdraw
use hexstody.State.Withdraw.{WithdrawalRequest, WithdrawalRequestStatus, completed}
use hexstody.State.Exchange
use hexstody.State.Exchange.{ApiOrder, api_order_from, ExchangeOrder, ExchangeOrderId}

pub record UserConfig : Type 0 where
  pub language : Language
  pub email : Option Email
  pub phone : Option PhoneNumber
  pub tg_name : Option TgName

abbrev pub default_config : UserConfig
default_config = record { language = english; email = none; phone = none; tg_name = none }

pub record UserCurrencyInfo : Type 0 where
  pub currency : Currency
  pub deposit_info : List CurrencyAddress
  pub transactions : List Transaction.Transaction
  pub withdrawal_requests : Dict WithdrawalRequestId WithdrawalRequest
  pub exchange_requests : Dict ExchangeOrderId ExchangeOrder
  pub incoming_exchange_requests : Dict ExchangeOrderId ℕ
  pub limit_info : LimitInfo

-- `UserCurrencyInfo::new`
abbrev pub new_currency_info : Currency → UserCurrencyInfo
new_currency_info c = record {
  currency = c;
  deposit_info = [];
  transactions = [];
  withdrawal_requests = [];
  exchange_requests = [];
  incoming_exchange_requests = [];
  limit_info = default_limit_info;
}

pub record UserInfo : Type 0 where
  pub username : UserId
  pub invite : Invite
  pub auth : SignupAuth
  pub created_at : NaiveDateTime
  pub withdrawal_requests : List WithdrawalRequestId
  pub completed_requests : List WithdrawalRequestId
  pub currencies : Dict Currency UserCurrencyInfo
  pub limit_change_requests : Dict Currency LimitChangeData
  pub config : UserConfig
  pub public_key : Option PublicKey

-- `UserInfo::new`
unfoldable pub new_user : UserId → Invite → SignupAuth → NaiveDateTime → UserInfo
unfolding default_currencies
new_user username invite auth created_at = record {
  username = username;
  invite = invite;
  auth = auth;
  created_at = created_at;
  withdrawal_requests = [];
  completed_requests = [];
  currencies = map (λ c. (c, new_currency_info c)) default_currencies;
  limit_change_requests = [];
  config = default_config;
  public_key = none;
}

-- `From<(NaiveDateTime, SignupInfo)>`
abbrev pub user_from : NaiveDateTime → SignupInfo → UserInfo
user_from created_at info = new_user info.username info.invite info.auth created_at

-- An entry of one of the three maps of a currency.
abbrev pub put_request :
    WithdrawalRequestId → WithdrawalRequest → UserCurrencyInfo → UserCurrencyInfo
put_request id req info = record info {
  withdrawal_requests = insert id req info.withdrawal_requests;
}

abbrev pub put_order : ExchangeOrderId → ExchangeOrder → UserCurrencyInfo → UserCurrencyInfo
put_order id order info = record info { exchange_requests = insert id order info.exchange_requests }

abbrev pub put_purchase : ExchangeOrderId → ℕ → UserCurrencyInfo → UserCurrencyInfo
put_purchase id amount info = record info {
  incoming_exchange_requests = insert id amount info.incoming_exchange_requests;
}

-- `UserCurrencyInfo::has_address`
abbrev pub currency_has_address : CurrencyAddress → UserCurrencyInfo → Bool
currency_has_address addr info = any (λ a. a == addr) info.deposit_info

-- `UserInfo::has_address`
unfoldable pub has_address : CurrencyAddress → UserInfo → Bool
has_address addr user = elim (lookup (currency addr) user.currencies) [
  | some info ↦ currency_has_address addr info
  | none ↦ false
]

abbrev completed_as : CurrencyTxId → WithdrawalRequestStatus → Bool
completed_as req_txid (completed c) = req_txid == c.txid
completed_as req_txid _ = false

-- `UserCurrencyInfo::find_completed_request`
unfoldable pub currency_find_completed :
    CurrencyTxId → UserCurrencyInfo → Option WithdrawalRequestId
currency_find_completed req_txid info =
    if txid_currency req_txid == info.currency
    then find_map (λ req. if completed_as req_txid req.status then some req.id else none)
        (values info.withdrawal_requests)
    else none

-- `UserInfo::find_completed_request`
unfoldable pub find_completed_request : CurrencyTxId → UserInfo → Option WithdrawalRequestId
find_completed_request txid user = elim (lookup (txid_currency txid) user.currencies) [
  | some info ↦ currency_find_completed txid info
  | none ↦ none
]

-- The sums that `balance` and `finalized_balance` share.
unfoldable pub pending_withdrawals : UserCurrencyInfo → ℕ
pending_withdrawals info = sum_u64 0 (
    map (λ w. if Withdraw.is_rejected w then 0 else add_u64 w.amount (get_or (Withdraw.fee w) 0))
      (values info.withdrawal_requests))

unfoldable pub incoming : UserCurrencyInfo → ℕ
incoming info = sum_u64 0 (values info.incoming_exchange_requests)

unfoldable pub outgoing : UserCurrencyInfo → ℕ
outgoing info = sum_u64 0 (
    filter_map (λ v. if Exchange.is_rejected v then none else some v.amount_from)
      (values info.exchange_requests))

-- `tx_sum + val`, and `0.max` of it as a `u64`
unfoldable pub settle : ℤ → UserCurrencyInfo → ℕ
settle tx_sum info =
    let val =
      sub_i64 (sub_i64 (as_i64 (incoming info)) (as_i64 (pending_withdrawals info)))
        (as_i64 (outgoing info)) in
    pos_part (add_i64 tx_sum val)

unfoldable pub unconfirmed_transactions : UserCurrencyInfo → List Transaction.Transaction
unconfirmed_transactions info =
    filter_map (λ t. if Transaction.is_conflicted t then none else some t) info.transactions

unfoldable pub balance : UserCurrencyInfo → ℕ
balance info =
    settle
      (sum_i64 (pos 0) (
        filter_map (λ t. if Transaction.is_conflicted t then none else some (Transaction.amount t))
          info.transactions))
      info

unfoldable pub finalized_balance : UserCurrencyInfo → ℕ
finalized_balance info =
    settle
      (sum_i64 (pos 0) (
        filter_map (λ t. if Transaction.is_finalized t then some (Transaction.amount t) else none)
          info.transactions))
      info

unfoldable pub update_btc_tx : BtcTransaction → UserCurrencyInfo → UserCurrencyInfo
update_btc_tx upd_tx info =
    if leb_ℤ (pos 0) upd_tx.amount
    then (elim (replace_btc_tx upd_tx info.transactions) [
      | some txs ↦ record info { transactions = txs }
      | none ↦ record info { transactions = info.transactions ++ Transaction.btc upd_tx ∷ [] }
    ])
    else info

unfoldable pub cancel_btc_tx : BtcTxCancel → UserCurrencyInfo → UserCurrencyInfo
cancel_btc_tx upd_tx info = elim (position upd_tx 0 info.transactions) [
  | none ↦ info
  | some i ↦ record info { transactions = remove_at i info.transactions }
]

abbrev order_matches : ExchangeFilter → ExchangeOrder → Bool
order_matches ExchangeFilter.all order = true
order_matches ExchangeFilter.completed order = Exchange.is_finalized order
order_matches ExchangeFilter.rejected order = Exchange.is_rejected order
order_matches ExchangeFilter.pending order = Exchange.is_pending order

-- `UserInfo::get_exchange_requests`
unfoldable pub get_exchange_requests : ExchangeFilter → UserInfo → List ApiOrder
get_exchange_requests filter user =
    flat_map
      (λ info.
        filter_map (λ eo. if order_matches filter eo then some (api_order_from eo) else none)
          (values info.exchange_requests))
      (values user.currencies)
