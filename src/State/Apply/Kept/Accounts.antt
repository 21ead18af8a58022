-- ===== src/State/Apply/Kept/Accounts.antt =====
-- What holds of every account of every user after any chain of updates.
use hexstody.Prelude.{◌≡◌, refl, arith, List, [], ◌∷◌, map, All, All-map}
use hexstody.Prelude.Dict.{AllEntries}
use hexstody.Prelude.Dict.Entries.{
  AllEntries-insert, AllEntries-lookup, AllEntries-update_all, AllEntries-remove,
}
use hexstody.Domain.Types.{NaiveDateTime}
use hexstody.Domain.Currency.{Currency, currency_eq, default_currencies}
use hexstody.Update.Body.{StateUpdate, UpdateBody}
use hexstody.State.User.{
  UserCurrencyInfo, new_currency_info, new_user, update_btc_tx, cancel_btc_tx,
}
use hexstody.State.User.Deposits.{
  HasUniqueOutputs, update_btc_tx-HasUniqueOutputs, cancel_btc_tx-HasUniqueOutputs,
}
use hexstody.State.Core.{State, Bitcoin, Draw, Network, ok}
use hexstody.State.Apply.{collect}
use hexstody.State.Apply.Kept.{IsKept, KeepsUser, AllOfUser, AllAccounts}
use hexstody.State.Apply.Kept.Updates.{BringsUsers, collect-Keeps}

-- The property of the account and its key in the map of currencies.
abbrev pub IsSound : Currency → UserCurrencyInfo → Type 0
IsSound c info = HasUniqueOutputs info × (info.currency ≡ c) × (info.limit_info.spent ≡ 0)

update_btc_tx_rest :
    (tx : _) (info : UserCurrencyInfo)
    → ((update_btc_tx tx info).currency ≡ info.currency)
      × ((update_btc_tx tx info).limit_info ≡ info.limit_info)
unfolding update_btc_tx
update_btc_tx_rest tx info = ground arith

cancel_btc_tx_rest :
    (tx : _) (info : UserCurrencyInfo)
    → ((cancel_btc_tx tx info).currency ≡ info.currency)
      × ((cancel_btc_tx tx info).limit_info ≡ info.limit_info)
unfolding cancel_btc_tx
cancel_btc_tx_rest tx info = ground arith

IsSound-IsKept : IsKept IsSound
IsSound-IsKept = record {
  opened = λ c. (tt, refl, refl);
  addresses = λ xs p. p;
  requests = λ m p. p;
  orders = λ m p. p;
  purchases = λ m p. p;
  limits = λ l p. (p.0, p.1, refl);
  seen = λ {c} {info} tx p. (
    update_btc_tx-HasUniqueOutputs tx info p.0,
    ground (arith, update_btc_tx_rest tx info),
    ground (arith, update_btc_tx_rest tx info),
  );
  canceled = λ {c} {info} tx p. (
    cancel_btc_tx-HasUniqueOutputs tx info p.0,
    ground (arith, cancel_btc_tx_rest tx info),
    ground (arith, cancel_btc_tx_rest tx info),
  );
}

-- A snapshot brings accounts of its own.
abbrev pub BringsAccounts : (Currency → UserCurrencyInfo → Type 0) → UpdateBody → Type 0
BringsAccounts P (UpdateBody.snapshot s) = AllAccounts P s
BringsAccounts P _ = Unit

module _ (P : Currency → UserCurrencyInfo → Type 0) (kept : IsKept P) where
  accounts-KeepsUser : KeepsUser (AllOfUser P)
  accounts-KeepsUser = record {
    account = λ {uid} {user} c {info} info' change held au.
        AllEntries-insert P c info' user.currencies au
          (change P kept (AllEntries-lookup P c user.currencies au held));
    accounts = λ {uid} {user} f change au.
        AllEntries-update_all P f user.currencies (λ c info p. change c info P kept p) au;
    opened = λ {uid} {user} c au.
        AllEntries-insert P c (new_currency_info c) user.currencies au (kept.opened c);
    closed = λ {uid} {user} c au. AllEntries-remove P c user.currencies au;
    settings = λ auth config key au. au;
    asked = λ req held au. au;
    decided = λ c req' pending same au. au;
    dropped = λ c au. au;
  }

  opened_all : (cs : List Currency) → AllEntries P (map (λ c. (c, new_currency_info c)) cs)
  opened_all [] = tt
  opened_all (c ∷ cs) = (kept.opened c, opened_all cs)

  brought :
      (t : NaiveDateTime) (body : UpdateBody)
      → BringsAccounts P body
      → BringsUsers (AllOfUser P) t body
  unfolding new_user
  brought t (UpdateBody.snapshot s) h = h
  brought t (UpdateBody.signup info) h = opened_all default_currencies
  brought t _ h = tt

-- In a state that is collected from a chain of updates, whose snapshots have it too, every account
-- of every user has no transaction output twice, has the currency it is kept under, and has an
-- amount spent of 0.
pub collect-IsSound :
    (b : Bitcoin) (network : Network) (now : NaiveDateTime) (us : List (Draw × StateUpdate))
    {s : State}
    → All (λ u. BringsAccounts IsSound u.1.body) us
    → collect b network now us ≡ ok s
    → AllAccounts IsSound s
collect-IsSound b network now us {s} h e =
    collect-Keeps (AllOfUser IsSound) (accounts-KeepsUser IsSound IsSound-IsKept) b network now us
      {s = s}
      (All-map (λ u. BringsAccounts IsSound u.1.body)
        (λ u. BringsUsers (AllOfUser IsSound) u.1.created u.1.body) us
        (λ u h'. brought IsSound IsSound-IsKept u.1.created u.1.body h') h)
      e
