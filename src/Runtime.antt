-- ===== src/Runtime.antt =====
-- hexstody-runtime-db/src/lib.rs: what is kept only while the services run, the challenges and a cache
-- of exchange rates. The rates are floating-point numbers of the rate provider, only stored here, so
-- their type `R` is a parameter, and so is the client.
pub mod Rates
use hexstody.Prelude.{
  ℕ, Bool, true, false, List, [], ◌∷◌, Option, none, some, String, string_eq, map, if◌then◌else◌,
  filter_map,
}
use hexstody.Prelude.Dict.{Dict, lookup, insert}
use hexstody.Prelude.Fallible.{Fallible, ok, err}
use hexstody.Domain.Currency.{Symbol, symbol_eq}
use hexstody.Domain.Names.{symbol_name}

abbrev pub Rates : Type 0 → Type 0
Rates R = Dict Symbol R

pub record RuntimeState (R : Type 0) : Type 0 where
  pub challenges : Dict String String
  pub cached_tickers : Dict Symbol (Rates R)

abbrev pub new : {R : Type 0} → RuntimeState R
new = record { challenges = []; cached_tickers = [] }

-- What the provider answers.
pub record TickerClient (R E : Type 0) : Type 0 where
  pub symbol_to_symbol : Symbol → Symbol → Fallible E R
  pub symbol_to_symbols : Symbol → List Symbol → Fallible E (Rates R)

module _ {R E : Type 0} (client : TickerClient R E) where
  abbrev and_modify : Symbol → Symbol → R → Dict Symbol (Rates R) → Dict Symbol (Rates R)
  and_modify source target rate cache = elim (lookup source cache) [
    | none ↦ cache
    | some cm ↦ insert source (insert target rate cm) cache
  ]

  abbrev cached : Symbol → Symbol → RuntimeState R → Option R
  cached source target s = elim (lookup source s.cached_tickers) [
    | none ↦ none
    | some submap ↦ lookup target submap
  ]

  unfoldable pub symbol_to_symbol : RuntimeState R → Symbol → Symbol → Fallible E R × RuntimeState R
  symbol_to_symbol s source target = elim (cached source target s) [
    | some rate ↦ (ok rate, s)
    | none ↦ elim (client.symbol_to_symbol source target) [
      | err e ↦ (err e, s)
      | ok rate ↦
          (ok rate, record s { cached_tickers = and_modify source target rate s.cached_tickers })
    ]
  ]

  -- The symbols that the cache has, with their rates, and those that it has not.
  unfoldable pub hits : Rates R → List Symbol → Rates R → Rates R
  hits submap [] result = result
  hits submap (t ∷ rest) result = elim (lookup t submap) [
    | none ↦ hits submap rest result
    | some rate ↦ hits submap rest (insert t rate result)
  ]

  abbrev miss : Rates R → Symbol → Option Symbol
  miss submap t = elim (lookup t submap) [ none ↦ some t | some rate ↦ none ]

  unfoldable pub missing : Rates R → List Symbol → List Symbol
  missing submap targets = filter_map (miss submap) targets

  abbrev pub insert_all : Rates R → Rates R → Rates R
  insert_all [] result = result
  insert_all ((k, v) ∷ rest) result = insert_all rest (insert k v result)

  abbrev pub store : Symbol → Rates R → RuntimeState R → RuntimeState R
  store source res s = record s { cached_tickers = insert source res s.cached_tickers }

  abbrev pub fetch_missing :
      RuntimeState R → Symbol → Rates R → List Symbol → Fallible E (Rates R) × RuntimeState R
  fetch_missing s source result [] = (ok result, s)
  fetch_missing s source result (m ∷ ms) = elim (client.symbol_to_symbols source (m ∷ ms)) [
    | err e ↦ (err e, s)
    | ok res ↦ (ok (insert_all res result), store source res s)
  ]

  unfoldable pub symbol_to_symbols :
      RuntimeState R → Symbol → List Symbol → Fallible E (Rates R) × RuntimeState R
  unfolding hits missing
  symbol_to_symbols s source targets = elim (lookup source s.cached_tickers) [
    | none ↦ elim (client.symbol_to_symbols source targets) [
      | err e ↦ (err e, s)
      | ok res ↦ (ok res, store source res s)
    ]
    | some submap ↦ fetch_missing s source (hits submap targets []) (missing submap targets)
  ]

  -- The rates under the names of their symbols.
  unfoldable pub named : Rates R → Dict String R → Dict String R
  unfolding symbol_name
  named [] vals = vals
  named ((k, v) ∷ rest) vals = named rest (insert (symbol_name k) v vals)

  abbrev pub refetch :
      RuntimeState R
      → Symbol
      → Dict String R
      → List Symbol
      → Fallible E (Dict String R) × RuntimeState R
  refetch s source vals [] = (ok vals, s)
  refetch s source vals (m ∷ ms) = elim (client.symbol_to_symbols source (m ∷ ms)) [
    | err e ↦ (err e, s)
    | ok res ↦ (ok (named res []), store source res s)
  ]

  -- Up to the JSON object, which serde then reads as the type wanted.
  unfoldable pub symbol_to_symbols_generic :
      RuntimeState R → Symbol → List Symbol → Fallible E (Dict String R) × RuntimeState R
  unfolding hits missing named
  symbol_to_symbols_generic s source targets = elim (lookup source s.cached_tickers) [
    | none ↦ elim (client.symbol_to_symbols source targets) [
      | err e ↦ (err e, s)
      | ok res ↦ (ok (named res []), store source res s)
    ]
    | some submap ↦ refetch s source (named (hits submap targets []) []) (missing submap targets)
  ]

  unfoldable pub tracked_pairs : RuntimeState R → Dict Symbol (List Symbol)
  tracked_pairs s = map (λ e. (e.0, map (λ r. r.0) e.1)) s.cached_tickers
