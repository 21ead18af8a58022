-- ===== src/Public/Balance/Listed.antt =====
-- The list of all balances and the request for one of them.
use mathlib.Core.Path.{subst}
use hexstody.Prelude.{
  Among, map_all-Among, ℕ, ◌≡◌, ◌≢◌, ◌⊎◌, refl, ap, Bool, Bool-cases, inl, inr, List, [], ◌∷◌,
  Option, some, Option-cases, String, string_eq, ◌==◌, ==_iff, arith, All, map_all,
}
use hexstody.Prelude.Dict.{Dict, lookup}
use hexstody.Prelude.Fallible.{Fallible, ok, err}
use hexstody.Domain.Currency.{Currency, currency_eq, Erc20Token}
use hexstody.Update.Signup.{UserId}
use hexstody.State.Core.{State}
use hexstody.State.User.{UserInfo, UserCurrencyInfo, balance}
use hexstody.Public.{World, require_auth, require_auth_user}
use hexstody.Public.Balance.{
  Erc20TokenBalance, UserData, UserEth, BalanceItem, not_above, insert_sorted, sort, last_entry,
  first_entry, listed_balance, single_balance, item, get_balance, get_balance_by_currency,
}

insert_sorted-Among :
    {A : Type 0} (below : A → A → Bool) (x y : A) (ys : List A)
    → (y ≡ x) ⊎ Among x ys
    → Among x (insert_sorted below y ys)
insert_sorted-Among below x y [] h = h
insert_sorted-Among below x y (z ∷ zs) h = elim (Bool-cases (below y z)) [
  | inl first ↦ rw first h
  | inr later ↦ rw later (elim h [
    | inl here ↦ inr (insert_sorted-Among below x y zs (inl here))
    | inr there ↦ elim there [
      | inl head ↦ inl head
      | inr tail ↦ inr (insert_sorted-Among below x y zs (inr tail))
    ]
  ])
]

sort-Among :
    {A : Type 0} (below : A → A → Bool) (x : A) (xs : List A) → Among x xs → Among x (sort below xs)
sort-Among below x [] h = h
sort-Among below x (y ∷ ys) h =
    insert_sorted-Among below x y (sort below ys)
      (elim h [ inl here ↦ inl here | inr there ↦ inr (sort-Among below x ys there) ])

lookup-Among :
    {V : Type 0} (c : Currency) (v : V) (m : Dict Currency V) → lookup c m ≡ some v → Among (c, v) m
unfolding lookup
lookup-Among c v [] h = cc
lookup-Among c v ((k, w) ∷ m) h = elim (Bool-cases (k == c)) [
  | inl hit ↦
      let named = (==_iff k c).0 hit in let same : w ≡ v = ground arith in inl (ground arith)
  | inr miss ↦ inr (lookup-Among c v m (rw miss at h))
]

module _ (parse : String → Option ℕ) where
  abbrev Unlisted : String → List Erc20TokenBalance → Type 0
  Unlisted ticker ts = All (λ t. t.token_name ≢ ticker) ts

  abbrev pub IsListedOnce : List Erc20TokenBalance → Type 0
  IsListedOnce [] = Unit
  IsListedOnce (t ∷ ts) = Unlisted t.token_name ts × IsListedOnce ts

  last_entry-Unlisted :
      (ticker : String) (bal : ℕ) (ts : List Erc20TokenBalance)
      → Unlisted ticker ts
      → last_entry parse ticker bal ts ≡ bal
  last_entry-Unlisted ticker bal [] h = refl
  last_entry-Unlisted ticker bal (t ∷ ts) h =
      ground (arith, last_entry-Unlisted ticker bal ts h.1, ==_iff t.token_name ticker, h.0)

  first_entry-last_entry :
      (token : Erc20Token) (bal v : ℕ) (ts : List Erc20TokenBalance)
      → IsListedOnce ts
      → first_entry parse token ts ≡ some (ok v)
      → last_entry parse token.ticker bal ts ≡ v
  first_entry-last_entry token bal v [] once h = ground arith
  first_entry-last_entry token bal v (t ∷ ts) once h =
      elim (Bool-cases (t.token_name == token.ticker)) [
        | inl hit ↦
            let named : t.token_name ≡ token.ticker = (==_iff t.token_name token.ticker).0 hit in
            ground (
              arith,
              last_entry-Unlisted token.ticker v ts (subst (λ n. Unlisted n ts) named once.0),
            )
        | inr miss ↦ ground (arith, first_entry-last_entry token bal v ts once.1)
      ]

  single_balance-listed :
      (user_data : UserData) (c : Currency) (info : UserCurrencyInfo) (v : ℕ)
      → IsListedOnce user_data.balance_tokens
      → single_balance parse user_data c info ≡ some (ok v)
      → listed_balance parse user_data c info ≡ some v
  single_balance-listed user_data Currency.btc info v once h = ground arith
  single_balance-listed user_data Currency.eth info v once h = ground arith
  single_balance-listed user_data (Currency.erc20 token) info v once h =
      ap some (first_entry-last_entry token (balance info) v user_data.balance_tokens once h)

  value-item :
      (user_data : UserData) (c : Currency) (info : UserCurrencyInfo) (v : ℕ)
      → listed_balance parse user_data c info ≡ some v
      → item parse user_data (c, info)
        ≡ some (record { currency = c; value = v; limit_info = info.limit_info })
  value-item user_data c info v h = rw (item, h) refl

  module _ {W : Type 0} (get_user_data : UserId → W → Fallible String UserEth × W) where
    module _ (s : State) (user : UserInfo) (w : World W) (uid : UserId) (answer : UserEth)
        (signed : w.cookie ≡ some uid) (present : lookup uid s.users ≡ some user)
        (answered : (get_user_data user.username w.eth).0 ≡ ok answer) where
      all_items :
          (items : List BalanceItem)
          → (get_balance parse get_user_data s w).0 ≡ some (ok items)
          → (balances : List BalanceItem) × (map_all (item parse answer.data_of) user.currencies
              ≡ some balances)
            × (items ≡ sort (λ a b. not_above a.currency b.currency) balances)
      unfolding require_auth_user require_auth
      all_items items h =
          elim (Option-cases (map_all (item parse answer.data_of) user.currencies)) [
            | inl stuck ↦ ground arith
            | inr (balances, mapped) ↦ (balances, mapped, ground arith)
          ]

      value_found :
          (c : Currency) (info : UserCurrencyInfo) (it : BalanceItem)
          → lookup c user.currencies ≡ some info
          → (get_balance_by_currency parse get_user_data s c w).0 ≡ some (ok it)
          → (v : ℕ) × (single_balance parse answer.data_of c info ≡ some (ok v))
            × (it ≡ record { currency = c; value = v; limit_info = info.limit_info })
      unfolding require_auth_user require_auth
      value_found Currency.btc info it has h = (balance info, refl, ground arith)
      value_found Currency.eth info it has h =
          elim (Option-cases (single_balance parse answer.data_of Currency.eth info)) [
            | inl stuck ↦ ground arith
            | inr (ok v, single) ↦ (v, single, ground arith)
            | inr (err e, single) ↦ ground arith
          ]
      value_found (Currency.erc20 t) info it has h =
          elim (Option-cases (single_balance parse answer.data_of (Currency.erc20 t) info)) [
            | inl stuck ↦ ground arith
            | inr (ok v, single) ↦ (v, single, ground arith)
            | inr (err e, single) ↦ ground arith
          ]

      one_item :
          (c : Currency) (it : BalanceItem)
          → (get_balance_by_currency parse get_user_data s c w).0 ≡ some (ok it)
          → (info : UserCurrencyInfo) × (v : ℕ) × (lookup c user.currencies ≡ some info)
            × (single_balance parse answer.data_of c info ≡ some (ok v))
            × (it ≡ record { currency = c; value = v; limit_info = info.limit_info })
      unfolding require_auth_user require_auth
      one_item c it h = elim (Option-cases (lookup c user.currencies)) [
        | inl none_such ↦ ground arith
        | inr (info, has) ↦
            let (v, single, shape) = value_found c info it has h in (info, v, has, single, shape)
      ]

      -- If the ethereum adapter lists no name of a token twice, and both the request for all
      -- balances and the request for one of them are answered with success for the user of the
      -- session, then the one balance stands in the list of all.
      pub get_balance_by_currency-Among :
          (c : Currency) (it : BalanceItem) (items : List BalanceItem)
          → IsListedOnce answer.data_of.balance_tokens
          → (get_balance parse get_user_data s w).0 ≡ some (ok items)
          → (get_balance_by_currency parse get_user_data s c w).0 ≡ some (ok it)
          → Among it items
      get_balance_by_currency-Among c it items once all one =
          let (info, v, has, single, shape) = one_item c it one in
          let (balances, mapped, sorted) = all_items items all in
          let below = λ (a b : BalanceItem). not_above a.currency b.currency in
          let listed = single_balance-listed answer.data_of c info v once single in
          let mine : BalanceItem = record {
            currency = c;
            value = v;
            limit_info = info.limit_info;
          } in
          let found =
            map_all-Among (item parse answer.data_of) (c, info) mine user.currencies balances
              (lookup-Among c info user.currencies has) (value-item answer.data_of c info v listed)
              mapped in
          rw (shape, sorted) (sort-Among below mine balances found)
