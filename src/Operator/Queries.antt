-- ===== src/Operator/Queries.antt =====
-- What the operators read, and the deposit address of the exchange. `uri` is the text that rocket gives
-- for the route with its arguments.
pub mod Covered
pub mod Listed
use hexstody.Prelude.{
  map_all, ℕ, Bool, true, false, ◌&&◌, List, [], ◌∷◌, ◌++◌, Option, none, some, String, string_eq,
  map, if◌then◌else◌, filter_map, ◌==◌,
}
use mathlib.Core.List.{flat_map}
use hexstody.Prelude.Int.{ℤ}
use hexstody.Prelude.Dict.{Dict, lookup, values}
use hexstody.Prelude.Fallible.{Fallible, ok, err, map_err, map_ok}
use hexstody.Domain.Types.{SignatureData, NaiveDateTime, WithdrawalFilter, ExchangeFilter, Uuid}
use hexstody.Domain.Currency.{
  Currency, currency_eq, CurrencyAddress, BtcAddress, EthAccount, Erc20, Erc20Token, supported,
  currency, address,
}
use hexstody.Domain.Names.{ticker_lowercase, get_by_name}
use hexstody.Domain.Error.{
  ApiError, no_user_found, no_user_currency, unknown_currency, internal_server_error,
  failed_gen_address, failed_eth_connection, generic_error,
}
use hexstody.Domain.Requests.{
  HotBalanceResponse, UserCard, LimitChangeOpResponse, ExchangeBalanceItem,
}
use hexstody.Update.Body.{UpdateBody, StateUpdate}
use hexstody.Update.Channel.{Channel}
use hexstody.Update.Limit.{LimitChangeData}
use hexstody.State.Core.{State, get_user_by_id}
use hexstody.State.User.{UserInfo}
use hexstody.State.Exchange.{ApiOrder}
use hexstody.State.Orders.{get_exchange_requests}
use hexstody.State.Withdraw.{
  WithdrawalRequest, WithdrawalRequestStatus, matches_filter, required_number_of_confirmations,
}
use hexstody.State.Withdrawals.{withdrawal_requests}
use hexstody.Operator.{Service, Call, guard_op_signature, guard_op_signature_nomsg, send, after}

-- `WithdrawalRequest` of the API, with the time as text
pub record ApiWithdrawal : Type 0 where
  pub id : Uuid
  pub user : String
  pub address : CurrencyAddress
  pub created_at : String
  pub amount : ℕ
  pub confirmation_status : WithdrawalRequestStatus

-- `Into<WithdrawalRequestApi>`
abbrev pub into_api : (NaiveDateTime → String) → WithdrawalRequest → ApiWithdrawal
into_api to_seconds req = record {
  id = req.id;
  user = req.user;
  address = req.address;
  created_at = to_seconds req.created_at;
  amount = req.amount;
  confirmation_status = req.status;
}

-- A request for a change, with the limit that the user has; `none` panics.
abbrev pub change_of : UserInfo → LimitChangeData → Option LimitChangeOpResponse
change_of uinfo req = elim (lookup req.currency uinfo.currencies) [
  | none ↦ none
  | some info ↦ some (record {
    id = req.id;
    user = req.user;
    created_at = req.created_at;
    currency = req.currency;
    current_limit = info.limit_info.limit;
    requested_limit = req.limit;
    status = req.status;
  })
]

abbrev pub changes_of : UserInfo → Option (List LimitChangeOpResponse)
changes_of uinfo = map_all (change_of uinfo) (values uinfo.limit_change_requests)

abbrev pub concat : {A : Type 0} → List (List A) → List A
concat [] = []
concat (xs ∷ rest) = xs ++ concat rest

-- The changes of all users, whatever the filter of the request.
unfoldable pub all_changes : State → Option (List LimitChangeOpResponse)
all_changes s = elim (map_all changes_of (values s.users)) [
  | none ↦ none
  | some found ↦ some (concat found)
]

abbrev user_card : UserInfo → UserCard
user_card user = record {
  first_name = none;
  last_name = none;
  email = user.config.email;
  phone = user.config.phone;
  tg_name = user.config.tg_name;
}

abbrev card_or_fail : Option UserInfo → Fallible ApiError UserCard
card_or_fail none = err no_user_found
card_or_fail (some user) = ok (user_card user)

module _ (service : Service) (uri : String) where
  abbrev guarded : {A : Type 0} → SignatureData → Fallible ApiError A → Call A
  guarded sd r = after (guard_op_signature_nomsg service uri sd) λ channel. (r, channel)

  unfoldable pub get_supported_currencies : SignatureData → Call (List Currency)
  unfolding guard_op_signature_nomsg
  get_supported_currencies sd = guarded sd (ok supported)

  unfoldable pub get_required_confirmations : SignatureData → Call ℤ
  unfolding guard_op_signature_nomsg
  get_required_confirmations sd = guarded sd (ok required_number_of_confirmations)

  unfoldable pub get_user_info : State → SignatureData → String → Call UserCard
  unfolding guard_op_signature_nomsg get_user_by_id
  get_user_info s sd user_id = guarded sd (card_or_fail (get_user_by_id s user_id))

  abbrev listed :
      (String → String)
      → (NaiveDateTime → String)
      → String
      → WithdrawalFilter
      → WithdrawalRequest
      → Option ApiWithdrawal
  listed to_lowercase to_seconds currency_name filter x =
      if ticker_lowercase to_lowercase (currency x.address) == currency_name
        && matches_filter x filter
      then some (into_api to_seconds x)
      else none

  unfoldable pub list :
      (String → String)
      → (NaiveDateTime → String)
      → State
      → SignatureData
      → String
      → WithdrawalFilter
      → Call (List ApiWithdrawal)
  unfolding guard_op_signature_nomsg withdrawal_requests ticker_lowercase currency matches_filter
  list to_lowercase to_seconds s sd currency_name filter = guarded sd (
      ok (
        filter_map (listed to_lowercase to_seconds currency_name filter)
          (values (withdrawal_requests s))))

  -- `none` is a panic, which comes only behind the guard.
  unfoldable pub get_all_changes :
      State
      → SignatureData
      → Channel
      → Option (Fallible ApiError (List LimitChangeOpResponse) × Channel)
  unfolding guard_op_signature_nomsg all_changes
  get_all_changes s sd channel = elim (guard_op_signature_nomsg service uri sd) [
    | err e ↦ some (err e, channel)
    | ok u ↦ elim (all_changes s) [ none ↦ none | some found ↦ some (ok found, channel) ]
  ]

  unfoldable pub get_exchange_list : State → SignatureData → ExchangeFilter → Call (List ApiOrder)
  unfolding guard_op_signature_nomsg get_exchange_requests
  get_exchange_list s sd filter = guarded sd (ok (get_exchange_requests s filter))

  unfoldable pub get_exchange_balances : State → SignatureData → Call (List ExchangeBalanceItem)
  unfolding guard_op_signature_nomsg
  get_exchange_balances s sd =
      guarded sd
        (ok (map (λ e. record { currency = e.0; balance = e.1 }) s.exchange_state.balances))

  abbrev hot_balance :
      (Currency → Fallible String HotBalanceResponse)
      → String
      → Option Currency
      → Fallible ApiError HotBalanceResponse
  hot_balance ask name none = err (unknown_currency name)
  hot_balance ask name (some c) = map_err internal_server_error (ask c)

  -- `ask` asks the adapter of the currency; `quote` prints the unknown name.
  unfoldable pub get_hot_wallet_balance :
      (String → String)
      → (String → String)
      → (Currency → Fallible String HotBalanceResponse)
      → SignatureData
      → String
      → Call HotBalanceResponse
  unfolding guard_op_signature_nomsg get_by_name
  get_hot_wallet_balance to_uppercase quote ask sd currency_name =
      guarded sd (hot_balance ask (quote currency_name) (get_by_name to_uppercase currency_name))
