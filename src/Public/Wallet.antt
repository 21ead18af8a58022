-- ===== src/Public/Wallet.antt =====
-- hexstody-public/src/api/wallet.rs: withdrawals, deposit addresses, tokens and orders.
use hexstody.Prelude.{
  ℕ, ◌*◌, ◌%◌, List, [], ◌∷◌, ◌++◌, Option, none, some, String, string_eq, ltb, leb, ◌==◌, map,
  if◌then◌else◌, filter_map,
}
use hexstody.Prelude.Dict.{lookup}
use hexstody.Prelude.Words.{u64_mod, add_u64, sub_u64}
use hexstody.Prelude.Fallible.{Fallible, ok, err}
use hexstody.Domain.Types.{NaiveDateTime, Uuid, ExchangeFilter}
use hexstody.Domain.Currency.{Currency, currency_eq, CurrencyAddress, Erc20Token, filter_tokens}
use hexstody.Domain.Error.{
  no_user_found, no_user_currency, failed_get_fee, insufficient_funds, token_already_enabled,
  token_already_disabled, token_non_zero_balance, token_action_failed, failed_eth_connection,
  generic_error,
}
use hexstody.Update.Withdrawal.{
  WithdrawalRequestType, under_limit, over_limit, WithdrawalRequestInfo,
}
use hexstody.Update.Misc.{TokenAction}
use hexstody.Update.Body.{UpdateBody}
use hexstody.State.Core.{State}
use hexstody.State.User.{
  UserInfo, UserCurrencyInfo, balance, finalized_balance, get_exchange_requests,
}
use hexstody.State.Exchange.{ApiOrder}
use hexstody.Public.{
  Handler, ◌>>=◌, ◌>>◌, pure, fail, require, found, send_or, ask, require_auth_user,
}
use hexstody.Public.Auth.{EthClient}

pub record UserWithdrawRequest : Type 0 where
  pub address : CurrencyAddress
  pub amount : ℕ

pub record ExchangeRequest : Type 0 where
  pub currency_from : Currency
  pub currency_to : Currency
  pub amount_from : ℕ
  pub amount_to : ℕ

abbrev pub btc_bytes_per_transaction : ℕ
btc_bytes_per_transaction = 1024

-- What a withdrawal takes from the balance: the amount and the fee of a transaction, on `u64`.
unfoldable pub required_amount : ℕ → ℕ → ℕ
required_amount amount btc_fee_per_byte =
    add_u64 amount ((btc_fee_per_byte * btc_bytes_per_transaction) % u64_mod)

unfoldable pub request_type_for : UserCurrencyInfo → ℕ → WithdrawalRequestType
request_type_for info required =
    if leb required (sub_u64 info.limit_info.limit.amount info.limit_info.spent)
    then under_limit
    else over_limit

abbrev pub withdrawal_info :
    Uuid → UserInfo → UserWithdrawRequest → WithdrawalRequestType → WithdrawalRequestInfo
withdrawal_info id user req request_type = record {
  id = id;
  user = user.username;
  address = req.address;
  amount = req.amount;
  request_type = request_type;
}

-- Each other token of the user is posted as the one that is disabled.
abbrev pub others : Erc20Token → Currency → Option Erc20Token
others token (Currency.erc20 tok) = if tok.ticker == token.ticker then none else some token
others token _ = none

module _ {W : Type 0} (now : NaiveDateTime) where
  abbrev send_request :
      Uuid → UserInfo → UserWithdrawRequest → WithdrawalRequestType → Handler W (Unit {0})
  send_request id user req request_type =
      send_or no_user_found now
        (UpdateBody.create_withdrawal_request (withdrawal_info id user req request_type))

  abbrev fee_or_fail : Fallible String ℕ → Handler W ℕ
  fee_or_fail (ok rate) = pure rate
  fee_or_fail (err e) = fail (failed_get_fee Currency.btc)

  -- `get_fees` is what the bitcoin adapter answers, `id` a fresh UUID.
  unfoldable pub withdraw_btc :
      Fallible String ℕ → Uuid → UserInfo → UserWithdrawRequest → Handler W (Unit {0})
  unfolding required_amount request_type_for send_or finalized_balance
  withdraw_btc get_fees id user req = do
    info ← found (lookup Currency.btc user.currencies) (no_user_currency Currency.btc)
    rate ← fee_or_fail get_fees
    let required = required_amount req.amount rate
    require (leb required (finalized_balance info)) (insufficient_funds Currency.btc)
    send_request id user req (request_type_for info required)

  unfoldable pub post_withdraw :
      Fallible String ℕ → Uuid → State → UserWithdrawRequest → Handler W (Unit {0})
  unfolding require_auth_user withdraw_btc send_or
  post_withdraw get_fees id s req = require_auth_user s λ user. elim req.address [
    | CurrencyAddress.btc a ↦ withdraw_btc get_fees id user req
    | CurrencyAddress.eth a ↦ send_request id user req over_limit
    | CurrencyAddress.erc20 a ↦ send_request id user req over_limit
  ]

  module _ (eth : EthClient W) where
    unfoldable pub enable_token : State → (UpdateBody → String) → Erc20Token → Handler W (Unit {0})
    unfolding require_auth_user send_or filter_tokens
    enable_token s send_error token = require_auth_user s λ user.
        elim (lookup (Currency.erc20 token) user.currencies) [
          | some info ↦ fail (token_already_enabled token)
          | none ↦
              let upd =
                UpdateBody.update_tokens
                  (record { user = user.username; token = token; action = TokenAction.enable }) in
              do
                send_or (token_action_failed (send_error upd)) now upd
                ask failed_eth_connection (
                    eth.post_tokens user.username
                      (filter_tokens (map (λ e. e.0) user.currencies) ++ token ∷ []))
        ]

    unfoldable pub disable_token : State → (UpdateBody → String) → Erc20Token → Handler W (Unit {0})
    unfolding require_auth_user send_or balance
    disable_token s send_error token = require_auth_user s λ user.
        elim (lookup (Currency.erc20 token) user.currencies) [
          | none ↦ fail (token_already_disabled token)
          | some info ↦
              if ltb 0 (balance info)
              then fail (token_non_zero_balance token)
              else let upd =
                  UpdateBody.update_tokens (record {
                    user = user.username;
                    token = token;
                    action = TokenAction.disable;
                  }) in
                do
                  send_or (token_action_failed (send_error upd)) now upd
                  ask failed_eth_connection (
                      eth.post_tokens user.username
                        (filter_map (others token) (map (λ e. e.0) user.currencies)))
        ]

  unfoldable pub order_exchange :
      State → (UpdateBody → String) → Uuid → String → ExchangeRequest → Handler W (Unit {0})
  unfolding require_auth_user send_or balance
  order_exchange s send_error id created_at req = require_auth_user s λ user. do
    info ← found (lookup req.currency_from user.currencies) (no_user_currency req.currency_from)
    require (leb req.amount_from (balance info)) (insufficient_funds req.currency_from)
    let upd = UpdateBody.exchange_request (record {
      user = user.username;
      currency_from = req.currency_from;
      currency_to = req.currency_to;
      amount_from = req.amount_from;
      amount_to = req.amount_to;
      id = id;
      created_at = created_at;
    })
    send_or (generic_error (send_error upd)) now upd

  unfoldable pub list_my_orders : State → ExchangeFilter → Handler W (List ApiOrder)
  unfolding require_auth_user get_exchange_requests
  list_my_orders s filter = require_auth_user s λ user. pure (get_exchange_requests filter user)
