-- ===== src/Tests/Balances.antt =====
-- Balances that users see.
use hexstody.Prelude.{ℕ, ◌≡◌, refl, [], ◌∷◌, Option, some, String}
use hexstody.Domain.Currency.{Currency, Erc20Token}
use hexstody.Prelude.{Among, string_eq}
use hexstody.Prelude.Fallible.{Fallible, ok}
use hexstody.Prelude.Dict.{lookup}
use hexstody.Domain.Currency.{currency_eq}
use hexstody.State.Core.{State}
use hexstody.State.User.{UserInfo, balance}
use hexstody.Public.{World, require_auth, require_auth_user}
use hexstody.Public.Balance.{UserData, UserEth, BalanceItem, get_balance, get_balance_by_currency}
use hexstody.Public.Balance.Listed.{IsListedOnce, get_balance_by_currency-Among}
use hexstody.Tests.Users.{world}
use hexstody.Tests.Data.{account, user, state}

abbrev token : Erc20Token
token = record { ticker = "CRV"; name = "CRV"; contract = "0xd5" }

-- Every text is the number 12.
abbrev twelve : String → Option ℕ
twelve text = some 12

abbrev user_data : UserData
user_data = record {
  tokens = token ∷ [];
  balance_eth = "12";
  balance_tokens =
      record { token_name = "USDT"; token_balance = "12" }
      ∷ record { token_name = "CRV"; token_balance = "12" }
      ∷ [];
}

once : IsListedOnce twelve user_data.balance_tokens
once = ((λ h. cc, tt), (tt, tt))

abbrev holder : UserInfo
holder = record user { currencies = (Currency.erc20 token, account) ∷ user.currencies }

abbrev held : State
held = record state { users = ("alice", holder) ∷ [] }

abbrev get_user_data : String → ℕ → Fallible String UserEth × ℕ
get_user_data name n = (ok (record { login = "alice"; address = "0xa1"; data_of = user_data }), n)

abbrev session : World ℕ
session = record world { cookie = some "alice" }

abbrev token_item : BalanceItem
token_item = record { currency = Currency.erc20 token; value = 12; limit_info = account.limit_info }

abbrev btc_item : BalanceItem
btc_item = record {
  currency = Currency.btc;
  value = balance account;
  limit_info = account.limit_info;
}

held_known : lookup "alice" held.users ≡ some holder
unfolding lookup
held_known = refl

all_of_them :
    (get_balance twelve get_user_data held session).0 ≡ some (ok (btc_item ∷ token_item ∷ []))
unfolding lookup require_auth require_auth_user
all_of_them = refl

one_of_them :
    (get_balance_by_currency twelve get_user_data held (Currency.erc20 token) session).0
    ≡ some (ok token_item)
unfolding lookup require_auth require_auth_user
one_of_them = refl

get_balance_by_currency-Among_example : Among token_item (btc_item ∷ token_item ∷ [])
get_balance_by_currency-Among_example =
    get_balance_by_currency-Among twelve get_user_data held holder session "alice"
      (record { login = "alice"; address = "0xa1"; data_of = user_data }) refl held_known refl
      (Currency.erc20 token) token_item (btc_item ∷ token_item ∷ []) once all_of_them one_of_them
