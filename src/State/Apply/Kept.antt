-- ===== src/State/Apply/Kept.antt =====
-- Properties that every user, or every account of every user, keeps, whatever updates are applied.
pub mod Withdrawals
pub mod Orders
pub mod Chain
pub mod Limits
pub mod Settings
pub mod Updates
pub mod Accounts
pub mod Spending
use hexstody.Prelude.{
  ℕ, ◌⊎◌, ◌≡◌, refl, sym, ap, List, [], ◌∷◌, ◌++◌, Option, none, some, Bool, true, false, arith,
  string_eq, nat_eq, Option-cases, inl, inr, map, Bool-cases, any, ◌==◌,
}
use hexstody.Prelude.Dict.{Dict, lookup, insert, remove, update_all, contains_key, AllEntries}
use hexstody.Prelude.Dict.Entries.{
  AllEntries-update_all, AllEntries-lookup, AllEntries-insert, AllEntries-remove,
}
use hexstody.Domain.Types.{Limit, NaiveDateTime, PublicKey}
use hexstody.Domain.Currency.{
  Currency, currency_eq, CurrencyAddress, default_currencies, currency, address_eq,
}
use hexstody.Update.Signup.{SignupAuth, UserId, SignupInfo, DepositAddress}
use hexstody.Update.Limit.{LimitChangeData}
use hexstody.Update.Btc.{BtcTxCancel}
use hexstody.Update.Withdrawal.{WithdrawalRequestId}
use hexstody.Update.Body.{UpdateBody, StateUpdate}
use hexstody.State.Transaction.{BtcTransaction}
use hexstody.State.Withdraw.{WithdrawalRequest}
use hexstody.State.Exchange.{ExchangeOrder, ExchangeOrderId}
use hexstody.State.User.{
  UserInfo, UserConfig, UserCurrencyInfo, new_currency_info, new_user, user_from, update_btc_tx,
  cancel_btc_tx,
}
use hexstody.State.Accounts.{with_signup, with_deposit_address, update_tokens}
use hexstody.State.Apply.{quiet, settled}
use hexstody.State.Core.{
  invite_eq, State, Bitcoin, Draw, Handler, Result, ok, err, set_user, set_currency, with_user,
  with_currency,
}

-- The changes that updates make to an account keep the property.
pub record IsKept (P : Currency → UserCurrencyInfo → Type 0) : Type 0 where
  pub opened : (c : Currency) → P c (new_currency_info c)
  pub addresses :
      {c : Currency} {info : UserCurrencyInfo} (xs : List CurrencyAddress)
      → P c info
      → P c (record info { deposit_info = xs })
  pub requests :
      {c : Currency} {info : UserCurrencyInfo} (m : Dict WithdrawalRequestId WithdrawalRequest)
      → P c info
      → P c (record info { withdrawal_requests = m })
  pub orders :
      {c : Currency} {info : UserCurrencyInfo} (m : Dict ExchangeOrderId ExchangeOrder)
      → P c info
      → P c (record info { exchange_requests = m })
  pub purchases :
      {c : Currency} {info : UserCurrencyInfo} (m : Dict ExchangeOrderId ℕ)
      → P c info
      → P c (record info { incoming_exchange_requests = m })
  pub limits :
      {c : Currency} {info : UserCurrencyInfo} (l : Limit)
      → P c info
      → P c (record info { limit_info = record { limit = l; spent = 0 } })
  pub seen :
      {c : Currency} {info : UserCurrencyInfo} (tx : BtcTransaction)
      → P c info
      → P c (update_btc_tx tx info)
  pub canceled :
      {c : Currency} {info : UserCurrencyInfo} (tx : BtcTxCancel)
      → P c info
      → P c (cancel_btc_tx tx info)

-- A change that every property which updates keep survives.
abbrev pub IsUpdate : Currency → UserCurrencyInfo → UserCurrencyInfo → Type 1
IsUpdate c info info' = (P : Currency → UserCurrencyInfo → Type 0) → IsKept P → P c info → P c info'

-- The changes that updates make to a user keep the property.
pub record KeepsUser (U : UserId → UserInfo → Type 0) : Type 1 where
  pub account :
      {uid : UserId} {user : UserInfo} (c : Currency) {info : UserCurrencyInfo}
      (info' : UserCurrencyInfo)
      → IsUpdate c info info'
      → lookup c user.currencies ≡ some info
      → U uid user
      → U uid (record user { currencies = insert c info' user.currencies })
  pub accounts :
      {uid : UserId} {user : UserInfo} (f : Currency → UserCurrencyInfo → UserCurrencyInfo)
      → ((c : Currency) (info : UserCurrencyInfo) → IsUpdate c info (f c info))
      → U uid user
      → U uid (record user { currencies = update_all f user.currencies })
  pub opened :
      {uid : UserId} {user : UserInfo} (c : Currency)
      → U uid user
      → U uid (record user { currencies = insert c (new_currency_info c) user.currencies })
  pub closed :
      {uid : UserId} {user : UserInfo} (c : Currency)
      → U uid user
      → U uid (record user {
        currencies = remove c user.currencies;
        limit_change_requests = remove c user.limit_change_requests;
      })
  pub settings :
      {uid : UserId} {user : UserInfo} (auth : SignupAuth) (config : UserConfig)
      (key : Option PublicKey)
      → U uid user
      → U uid (record user { auth = auth; config = config; public_key = key })
  pub asked :
      {uid : UserId} {user : UserInfo} {info : UserCurrencyInfo} (req : LimitChangeData)
      → lookup req.currency user.currencies ≡ some info
      → U uid user
      → U uid (record user {
        limit_change_requests = insert req.currency req user.limit_change_requests;
      })
  pub decided :
      {uid : UserId} {user : UserInfo} (c : Currency) {req : LimitChangeData}
      (req' : LimitChangeData)
      → lookup c user.limit_change_requests ≡ some req
      → req'.currency ≡ req.currency
      → U uid user
      → U uid (record user { limit_change_requests = insert c req' user.limit_change_requests })
  pub dropped :
      {uid : UserId} {user : UserInfo} (c : Currency)
      → U uid user
      → U uid (record user { limit_change_requests = remove c user.limit_change_requests })

abbrev pub AllUsers : (UserId → UserInfo → Type 0) → State → Type 0
AllUsers U s = AllEntries U s.users

abbrev pub AllOfUser : (Currency → UserCurrencyInfo → Type 0) → UserId → UserInfo → Type 0
AllOfUser P uid user = AllEntries P user.currencies

-- Every account of every user has the property.
abbrev pub AllAccounts : (Currency → UserCurrencyInfo → Type 0) → State → Type 0
AllAccounts P s = AllUsers (AllOfUser P) s

module _ (U : UserId → UserInfo → Type 0) where
  -- A user is unknown, or has the property.
  pub user_cases :
      (uid : UserId) (s : State)
      → AllUsers U s
      → (lookup uid s.users ≡ none)
        ⊎ ((user : UserInfo) × (lookup uid s.users ≡ some user) × U uid user)
  user_cases uid s a = elim (Option-cases (lookup uid s.users)) [
    | inl unknown ↦ inl unknown
    | inr (user, known) ↦ inr (user, known, AllEntries-lookup U uid s.users a known)
  ]

  pub set_user-Keeps :
      (uid : UserId) (user : UserInfo) (s : State)
      → AllUsers U s
      → U uid user
      → AllUsers U (set_user uid user s)
  set_user-Keeps uid user s a au = AllEntries-insert U uid user s.users a au

  pub set_currency-Keeps :
      KeepsUser U
      → (uid : UserId) (user : UserInfo) (c : Currency) {info : UserCurrencyInfo}
        (info' : UserCurrencyInfo) (s : State)
      → AllUsers U s
      → U uid user
      → lookup c user.currencies ≡ some info
      → IsUpdate c info info'
      → AllUsers U (set_currency uid user c info' s)
  set_currency-Keeps kept uid user c info' s a au held change =
      set_user-Keeps uid (record user { currencies = insert c info' user.currencies }) s a
        (kept.account c info' change held au)

  pub quiet-Keeps :
      (t : NaiveDateTime) (m : Handler (Unit {0})) (s : State)
      → AllUsers U (m s).1
      → AllUsers U (quiet t m s).1
  quiet-Keeps t m s a = go (m s) a
    where
      go : (r : Result (Unit {0}) × State) → AllUsers U r.1 → AllUsers U (settled t r).1
      go (ok x, s') a' = a'
      go (err e, s') a' = a'
