-- ===== src/Public/Balance.antt =====
-- The balances of hexstody-public/src/api/wallet.rs, with the messages of hexstody-api/src/types.rs:
-- bitcoin from the state, ether and tokens from the ethereum adapter.
pub mod Listed
use hexstody.Prelude.{
  ℕ, ◌*◌, ◌%◌, ◌≡◌, ◌≢◌, refl, true, false, Bool, Bool-cases, inl, inr, List, [], ◌∷◌, Option, none,
  some, String, string_eq, ◌==◌, ==_iff, leb, arith, if◌then◌else◌, All, map, map_all, ap,
}
use hexstody.Prelude.Dict.{lookup}
use hexstody.Prelude.Words.{u64_mod}
use hexstody.Prelude.Fallible.{Fallible, ok, err, map_err}
use hexstody.Domain.Types.{LimitInfo}
use hexstody.Domain.Currency.{Currency, currency_eq, Erc20Token, supported_tokens, index}
use hexstody.Domain.Error.{ApiError, no_user_currency, failed_eth_connection, failed_get_fee}
use hexstody.Update.Signup.{UserId}
use hexstody.State.Core.{State}
use hexstody.State.User.{UserInfo, UserCurrencyInfo, balance, finalized_balance}
use hexstody.Public.{Handler, ◌>>=◌, answer, pure, found, ask, require_auth, require_auth_user}
use hexstody.Public.Wallet.{btc_bytes_per_transaction}
use mathlib.Core.Path.{subst}

pub record Erc20TokenBalance : Type 0 where
  pub token_name : String
  pub token_balance : String

-- What the ethereum adapter knows of a user, without the history.
pub record UserData : Type 0 where
  pub tokens : List Erc20Token
  pub balance_eth : String
  pub balance_tokens : List Erc20TokenBalance

pub record UserEth : Type 0 where
  pub login : String
  pub address : String
  pub data_of : UserData

pub record BalanceItem : Type 0 where
  pub currency : Currency
  pub value : ℕ
  pub limit_info : LimitInfo

pub record TokenInfo : Type 0 where
  pub token : Erc20Token
  pub balance : ℕ
  pub finalized_balance : ℕ
  pub is_active : Bool

-- The derived order of currencies, with tokens by their index.
abbrev pub not_above : Currency → Currency → Bool
not_above Currency.btc b = true
not_above a Currency.btc = false
not_above Currency.eth b = true
not_above a Currency.eth = false
not_above (Currency.erc20 a) (Currency.erc20 b) = leb (index a) (index b)

-- `sort`, which is stable
abbrev pub insert_sorted : {A : Type 0} → (A → A → Bool) → A → List A → List A
insert_sorted below x [] = x ∷ []
insert_sorted below x (y ∷ ys) =
    let rest = insert_sorted below x ys in if below x y then x ∷ y ∷ ys else y ∷ rest

abbrev pub sort : {A : Type 0} → (A → A → Bool) → List A → List A
sort below [] = []
sort below (x ∷ xs) = insert_sorted below x (sort below xs)

abbrev token_info : UserInfo → Erc20Token → TokenInfo
token_info user token = elim (lookup (Currency.erc20 token) user.currencies) [
  | some c ↦ record {
    token = token;
    balance = balance c;
    finalized_balance = finalized_balance c;
    is_active = true;
  }
  | none ↦ record { token = token; balance = 0; finalized_balance = 0; is_active = false }
]

-- `unwrap` of a parsed number
abbrev parsed : Option ℕ → Option (Fallible ApiError ℕ)
parsed none = none
parsed (some n) = some (ok n)

-- `parse::<u64>()`
module _ (parse : String → Option ℕ) where
  abbrev or_zero : Option ℕ → ℕ
  or_zero none = 0
  or_zero (some n) = n

  -- The list of all balances takes the last entry of a token, or else the balance in the state.
  abbrev pub last_entry : String → ℕ → List Erc20TokenBalance → ℕ
  last_entry ticker bal [] = bal
  last_entry ticker bal (tok ∷ rest) =
      last_entry ticker
        (if tok.token_name == ticker then or_zero (parse tok.token_balance) else bal) rest

  -- `none` is a panic.
  abbrev pub listed_balance : UserData → Currency → UserCurrencyInfo → Option ℕ
  listed_balance user_data Currency.btc info = some (balance info)
  listed_balance user_data Currency.eth info = parse user_data.balance_eth
  listed_balance user_data (Currency.erc20 token) info =
      some (last_entry token.ticker (balance info) user_data.balance_tokens)

  -- A request for one balance takes the first entry.
  abbrev pub first_entry : Erc20Token → List Erc20TokenBalance → Option (Fallible ApiError ℕ)
  first_entry token [] = some (err (no_user_currency (Currency.erc20 token)))
  first_entry token (tok ∷ rest) =
      let later = first_entry token rest in
      if tok.token_name == token.ticker then parsed (parse tok.token_balance) else later

  abbrev pub single_balance : UserData → Currency → UserCurrencyInfo → Option (Fallible ApiError ℕ)
  single_balance user_data Currency.btc info = some (ok (balance info))
  single_balance user_data Currency.eth info = parsed (parse user_data.balance_eth)
  single_balance user_data (Currency.erc20 token) info = first_entry token user_data.balance_tokens

  abbrev pub item : UserData → Currency × UserCurrencyInfo → Option BalanceItem
  item user_data (c, info) = elim (listed_balance user_data c info) [
    | none ↦ none
    | some bal ↦ some (record { currency = c; value = bal; limit_info = info.limit_info })
  ]

  -- A panic where a number is missing.
  abbrev pub or_panic : {W A : Type 0} → Option A → Handler W A
  or_panic none w = (none, w)
  or_panic (some a) w = pure a w

  -- `get_user_data` is the call of the ethereum adapter.
  module _ {W : Type 0} (get_user_data : UserId → W → Fallible String UserEth × W) where
    abbrev pub get_balance : State → Handler W (List BalanceItem)
    get_balance s = require_auth_user s λ user. do
      user_data ← ask failed_eth_connection (get_user_data user.username)
      balances ← or_panic (map_all (item user_data.data_of) user.currencies)
      pure (sort (λ a b. not_above a.currency b.currency) balances)

    abbrev pub value_of : UserInfo → Currency → UserCurrencyInfo → Handler W ℕ
    value_of user Currency.btc info = pure (balance info)
    value_of user cur info = do
      user_data ← ask failed_eth_connection (get_user_data user.username)
      value ← or_panic (single_balance user_data.data_of cur info)
      answer value

    abbrev pub get_balance_by_currency : State → Currency → Handler W BalanceItem
    get_balance_by_currency s cur = require_auth_user s λ user. do
      info ← found (lookup cur user.currencies) (no_user_currency cur)
      value ← value_of user cur info
      pure (record { currency = cur; value = value; limit_info = info.limit_info })

    abbrev get_user_data_handle : State → Handler W UserEth
    get_user_data_handle s =
        require_auth_user s λ user. ask failed_eth_connection (get_user_data user.username)

abbrev list_tokens : {W : Type 0} → State → Handler W (List TokenInfo)
list_tokens s = require_auth_user s λ user.
    pure
      (sort (λ a b. leb (index a.token) (index b.token)) (map (token_info user) supported_tokens))

-- `get_fees` is what the bitcoin adapter answers; the product is one of `u64`.
abbrev btcfee : {W : Type 0} → Fallible String ℕ → Handler W ℕ
btcfee get_fees = require_auth λ user_id. do
  rate ← answer (map_err (λ e. failed_get_fee Currency.btc) get_fees)
  pure ((rate * btc_bytes_per_transaction) % u64_mod)
