-- ===== src/Tests/Tickers.antt =====
-- The cache of rates.
use mathlib.Core.Path.{subst, sym}
use hexstody.Prelude.{
  any, ◌==◌, false, Bool-cases, inl, inr, ◌⊎◌, if◌then◌else◌, ℕ, ◌≡◌, ◌≢◌, refl, List, [], ◌∷◌,
  none, some, String, arith, nat_eq, string_eq, ==_iff,
}
use hexstody.Prelude.Dict.{lookup}
use hexstody.Prelude.Fallible.{ok, err, ok_injective}
use hexstody.Domain.Currency.{currency_eq, Symbol, symbol_eq}
use hexstody.Domain.Names.{symbol_name}
use hexstody.Runtime.{
  RuntimeState, Rates, TickerClient, missing, symbol_to_symbols, symbol_to_symbols_generic,
}
use hexstody.Runtime.Rates.{
  IsExact, HasUniqueKeys, known, Answers, symbol_to_symbols-Answers,
  symbol_to_symbols_generic_drops,
}

-- Only rubles have a rate, which is 3.
abbrev client : TickerClient ℕ String
client = record {
  symbol_to_symbol = λ a b. ok 3;
  symbol_to_symbols =
      λ a ts. ok (if any (λ u. u == Symbol.rub) ts then (Symbol.rub, 3) ∷ [] else []);
}

abbrev cache : RuntimeState ℕ
cache = record { challenges = []; cached_tickers = (Symbol.btc, (Symbol.usd, 3) ∷ []) ∷ [] }

client-IsExact : IsExact client
unfolding lookup
client-IsExact = record {
  unique = λ a ts m h. elim (Bool-cases (any (λ u. u == Symbol.rub) ts)) [
    | inl yes_rub ↦ subst (HasUniqueKeys client) (ok_injective (rw yes_rub at h)) (refl, tt)
    | inr no_rub ↦ subst (HasUniqueKeys client) (ok_injective (rw no_rub at h)) tt
  ];
  asked = λ a ts m h t unasked. elim (Bool-cases (Symbol.rub == t)) [
    | inl named ↦
        let same : t ≡ Symbol.rub = sym ((==_iff Symbol.rub t).0 named) in
        let none_asked : any (λ u. u == Symbol.rub) ts ≡ false =
          subst (λ x. any (λ u. u == x) ts ≡ false) same unasked in
        subst (λ r. lookup t r ≡ none) (ok_injective (rw none_asked at h)) refl
    | inr other ↦ elim (Bool-cases (any (λ u. u == Symbol.rub) ts)) [
      | inl yes_rub ↦
          subst (λ r. lookup t r ≡ none) (ok_injective (rw yes_rub at h)) (rw other refl)
      | inr no_rub ↦ subst (λ r. lookup t r ≡ none) (ok_injective (rw no_rub at h)) refl
    ]
  ];
}

symbol_to_symbols-Answers_example :
    let targets = Symbol.usd ∷ Symbol.rub ∷ [] in
    let (answer, s') = symbol_to_symbols client cache Symbol.btc targets in
    (((m : Rates ℕ) × (answer ≡ ok m) × Answers client cache Symbol.btc targets m)
      ⊎ ((e : String) × (answer ≡ err e)
          × (client.symbol_to_symbols Symbol.btc
                (missing client (known client cache Symbol.btc) targets)
              ≡ err e)))
    × (lookup Symbol.eth s'.cached_tickers ≡ lookup Symbol.eth cache.cached_tickers)
symbol_to_symbols-Answers_example =
    symbol_to_symbols-Answers client cache Symbol.btc Symbol.eth (Symbol.usd ∷ Symbol.rub ∷ [])
      client-IsExact (λ e. cc)

btc_cached : lookup Symbol.btc cache.cached_tickers ≡ some ((Symbol.usd, 3) ∷ [])
unfolding lookup
btc_cached = refl

usd_rub : symbol_name Symbol.usd ≢ symbol_name Symbol.rub
unfolding symbol_name
usd_rub h = absurd (ground (arith, (==_iff {K = String} "USD" "RUB").1 h))

symbol_to_symbols_generic_drops_example :
    (vals : List (String × ℕ)) × ((symbol_to_symbols_generic client cache Symbol.btc
        (Symbol.usd ∷ Symbol.rub ∷ [])).0
      ≡ ok vals)
    × (lookup (symbol_name Symbol.usd) vals ≡ none)
    × (lookup (symbol_name Symbol.rub) vals ≡ some 3)
symbol_to_symbols_generic_drops_example =
    symbol_to_symbols_generic_drops client cache Symbol.btc Symbol.usd Symbol.rub 3 3 btc_cached
      usd_rub refl
