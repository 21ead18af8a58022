-- ===== src/Runtime/Rates.antt =====
-- The cache of rates against the rates themselves.
use hexstody.Prelude.{
  All, ◌∙◌, Bool-cases, ◌⊎◌, ◌≡◌, ◌≢◌, refl, sym, List, [], ◌∷◌, none, some, String, string_eq, inl,
  inr, Option-cases, ==_refl, ==_ne, ==_iff, ◌==◌, ap, filter_map, arith, any, Option, Bool, true,
  false, if◌then◌else◌,
}
use hexstody.Prelude.Dict.{Dict, lookup, insert, lookup-insert, lookup-insert_ne}
use hexstody.Prelude.Fallible.{ok, err, Fallible-cases, ok_injective}
use hexstody.Domain.Currency.{Symbol, symbol_eq}
use hexstody.Domain.Names.{symbol_name}
use hexstody.Runtime.{
  Rates, RuntimeState, TickerClient, symbol_to_symbols, symbol_to_symbols_generic, hits, missing,
  named, insert_all, fetch_missing, refetch,
}

module _ {R E : Type 0} (client : TickerClient R E) where
  -- An answer has each symbol at most once.
  abbrev pub HasUniqueKeys : Rates R → Type 0
  HasUniqueKeys [] = Unit
  HasUniqueKeys ((k, v) ∷ rest) = (lookup k rest ≡ none) × HasUniqueKeys rest

  abbrev pub asks : List Symbol → Symbol → Bool
  asks targets t = any (λ u. u == t) targets

  -- The provider answers about nothing that it was not asked for.
  pub record IsExact : Type 0 where
    pub unique :
        (source : Symbol) (ts : List Symbol) (m : Rates R)
        → client.symbol_to_symbols source ts ≡ ok m
        → HasUniqueKeys m
    pub asked :
        (source : Symbol) (ts : List Symbol) (m : Rates R)
        → client.symbol_to_symbols source ts ≡ ok m
        → (t : Symbol) → asks ts t ≡ false
        → lookup t m ≡ none

  abbrev pub or_else : Option R → Option R → Option R
  or_else none later = later
  or_else (some r) later = some r

  -- What the cache has for a source.
  abbrev pub known : RuntimeState R → Symbol → Rates R
  known s source = elim (lookup source s.cached_tickers) [ none ↦ [] | some submap ↦ submap ]

  -- What the provider gives.
  abbrev pub fetched : Symbol → List Symbol → Rates R
  fetched source ts = elim (client.symbol_to_symbols source ts) [ ok res ↦ res | err e ↦ [] ]

  lookup-insert_all :
      (t : Symbol) (res result : Rates R)
      → HasUniqueKeys res
      → lookup t (insert_all client res result) ≡ or_else (lookup t res) (lookup t result)
  unfolding lookup
  lookup-insert_all t [] result h = refl
  lookup-insert_all t ((k, v) ∷ rest) result h = ground (
    arith,
    lookup-insert_all t rest (insert k v result) h.1,
    lookup-insert k t v result,
    h.0,
    ==_iff k t,
  )

  lookup-hits :
      (t : Symbol) (submap : Rates R) (ts : List Symbol) (result : Rates R)
      → lookup t (hits client submap ts result)
        ≡ (if asks ts t then or_else (lookup t submap) (lookup t result) else lookup t result)
  unfolding hits
  lookup-hits t submap [] result = refl
  lookup-hits t submap (u ∷ ts) result = elim (Bool-cases (u == t)) [
    | inl hit ↦
        let same : lookup u submap ≡ lookup t submap =
          ap (λ x. lookup x submap) ((==_iff u t).0 hit) in
        elim (Option-cases (lookup u submap)) [
          | inl gone ↦ ground (arith, lookup-hits t submap ts result, same)
          | inr (r, found) ↦
              ground (
                arith,
                lookup-hits t submap ts (insert u r result),
                same,
                lookup-insert u t r result,
              )
        ]
    | inr other ↦ elim (Option-cases (lookup u submap)) [
      | inl gone ↦ ground (arith, lookup-hits t submap ts result)
      | inr (r, found) ↦
          ground (arith, lookup-hits t submap ts (insert u r result), lookup-insert u t r result)
    ]
  ]

  missing-cached :
      (t : Symbol) (submap : Rates R) (r : R) (ts : List Symbol)
      → lookup t submap ≡ some r
      → asks (missing client submap ts) t ≡ false
  unfolding missing
  missing-cached t submap r [] h = refl
  missing-cached t submap r (u ∷ ts) h = elim (Bool-cases (u == t)) [
    | inl hit ↦
        let same : lookup u submap ≡ lookup t submap =
          ap (λ x. lookup x submap) ((==_iff u t).0 hit) in
        ground (arith, missing-cached t submap r ts h, same)
    | inr other ↦ ground (arith, missing-cached t submap r ts h)
  ]

  missing-new :
      (t : Symbol) (submap : Rates R) (ts : List Symbol)
      → lookup t submap ≡ none
      → asks (missing client submap ts) t ≡ asks ts t
  unfolding missing
  missing-new t submap [] h = refl
  missing-new t submap (u ∷ ts) h = elim (Bool-cases (u == t)) [
    | inl hit ↦
        let same : lookup u submap ≡ lookup t submap =
          ap (λ x. lookup x submap) ((==_iff u t).0 hit) in
        ground (arith, missing-new t submap ts h, same)
    | inr other ↦ ground (arith, missing-new t submap ts h)
  ]

  missing-nothing : (targets : List Symbol) → missing client [] targets ≡ targets
  unfolding missing lookup
  missing-nothing [] = refl
  missing-nothing (u ∷ us) = ap (λ ts. u ∷ ts) (missing-nothing us)

  fetched-asked :
      (source : Symbol) (ts : List Symbol) (t : Symbol)
      → IsExact
      → asks ts t ≡ false
      → lookup t (fetched source ts) ≡ none
  unfolding lookup
  fetched-asked source ts t exact h = elim (Fallible-cases (client.symbol_to_symbols source ts)) [
    | inl (res, got) ↦ ground (arith, exact.asked source ts res got t h)
    | inr (e, failed) ↦ ground arith
  ]

  fetch_missing-lookup :
      (s : RuntimeState R) (source t : Symbol) (result : Rates R) (ms : List Symbol) (m : Rates R)
      → IsExact
      → (lookup t result ≡ none) ⊎ (asks ms t ≡ false)
      → (fetch_missing client s source result ms).0 ≡ ok m
      → lookup t m ≡ or_else (lookup t result) (lookup t (fetched source ms))
  fetch_missing-lookup s source t result [] m exact apart h =
      ground (arith, fetched-asked source [] t exact refl, Option-cases (lookup t result))
  fetch_missing-lookup s source t result (u ∷ us) m exact apart h =
      elim (Fallible-cases (client.symbol_to_symbols source (u ∷ us))) [
        | inl (res, got) ↦
            let all = lookup-insert_all t res result (exact.unique source (u ∷ us) res got) in
            elim apart [
              | inl free ↦ ground (arith, all)
              | inr unasked ↦ ground (
                arith,
                all,
                exact.asked source (u ∷ us) res got t unasked,
                Option-cases (lookup t result),
              )
            ]
        | inr (e, failed) ↦ ground arith
      ]

  symbol_to_symbols-lookup :
      (s : RuntimeState R) (source : Symbol) (targets : List Symbol) (m : Rates R) (t : Symbol)
      → IsExact
      → (symbol_to_symbols client s source targets).0 ≡ ok m
      → asks targets t ≡ true
      → lookup t m
        ≡ or_else
            (lookup t (known s source))
            (lookup t (fetched source (missing client (known s source) targets)))
  unfolding symbol_to_symbols lookup
  symbol_to_symbols-lookup s source targets m t exact h wanted =
      elim (Option-cases (lookup source s.cached_tickers)) [
        | inl absent ↦ elim (Fallible-cases (client.symbol_to_symbols source targets)) [
          | inl (res, got) ↦
              let same : res ≡ m = ok_injective (rw (symbol_to_symbols, absent, got) at h) in
              rw (known, absent, missing-nothing targets, got, sym same, lookup) refl
          | inr (e, failed) ↦ ground arith
        ]
        | inr (submap, present) ↦
            let result = hits client submap targets [] in
            let ms = missing client submap targets in
            let held : lookup t result ≡ lookup t submap =
              ground (arith, lookup-hits t submap targets [], Option-cases (lookup t submap)) in
            let apart : (lookup t result ≡ none) ⊎ (asks ms t ≡ false) =
              elim (Option-cases (lookup t submap)) [
                | inl gone ↦ inl (held ∙ gone)
                | inr (r, found) ↦ inr (missing-cached t submap r targets found)
              ] in
            let answered =
              fetch_missing-lookup s source t result ms m exact apart
                (rw (symbol_to_symbols, present) at h) in
            rw (known, present, sym held) answered
      ]

  fetch_missing-fails :
      (s : RuntimeState R) (source : Symbol) (result : Rates R) (ms : List Symbol) (e : E)
      → (fetch_missing client s source result ms).0 ≡ err e
      → client.symbol_to_symbols source ms ≡ err e
  fetch_missing-fails s source result [] e h = cc
  fetch_missing-fails s source result (u ∷ us) e h =
      elim (Fallible-cases (client.symbol_to_symbols source (u ∷ us))) [
        | inl (res, got) ↦ ground arith
        | inr (e', failed) ↦ ground arith
      ]

  symbol_to_symbols-fails :
      (s : RuntimeState R) (source : Symbol) (targets : List Symbol) (e : E)
      → (symbol_to_symbols client s source targets).0 ≡ err e
      → client.symbol_to_symbols source (missing client (known s source) targets) ≡ err e
  unfolding symbol_to_symbols
  symbol_to_symbols-fails s source targets e h =
      elim (Option-cases (lookup source s.cached_tickers)) [
        | inl absent ↦ elim (Fallible-cases (client.symbol_to_symbols source targets)) [
          | inl (res, got) ↦ ground arith
          | inr (e', failed) ↦ rw (known, absent, missing-nothing targets) (ground arith)
        ]
        | inr (submap, present) ↦
            rw (known, present)
              (fetch_missing-fails s source (hits client submap targets [])
                (missing client submap targets) e (rw (symbol_to_symbols, present) at h))
      ]

  fetch_missing-others :
      (s : RuntimeState R) (source other : Symbol) (result : Rates R) (ms : List Symbol)
      → source ≢ other
      → lookup other (fetch_missing client s source result ms).1.cached_tickers
        ≡ lookup other s.cached_tickers
  fetch_missing-others s source other result [] ne = refl
  fetch_missing-others s source other result (u ∷ us) ne =
      elim (Fallible-cases (client.symbol_to_symbols source (u ∷ us))) [
        | inl (res, got) ↦
            rw (fetch_missing, got) (lookup-insert_ne source other res s.cached_tickers ne)
        | inr (e, failed) ↦ rw (fetch_missing, failed) refl
      ]

  symbol_to_symbols-others :
      (s : RuntimeState R) (source other : Symbol) (targets : List Symbol)
      → source ≢ other
      → lookup other (symbol_to_symbols client s source targets).1.cached_tickers
        ≡ lookup other s.cached_tickers
  unfolding symbol_to_symbols
  symbol_to_symbols-others s source other targets ne =
      elim (Option-cases (lookup source s.cached_tickers)) [
        | inl absent ↦ elim (Fallible-cases (client.symbol_to_symbols source targets)) [
          | inl (res, got) ↦
              rw (symbol_to_symbols, absent, got)
                (lookup-insert_ne source other res s.cached_tickers ne)
          | inr (e, failed) ↦ rw (symbol_to_symbols, absent, failed) refl
        ]
        | inr (submap, present) ↦
            rw (symbol_to_symbols, present)
              (fetch_missing-others s source other (hits client submap targets [])
                (missing client submap targets) ne)
      ]

  asks-All :
      (P : Symbol → Type 0) (ts : List Symbol) → ((t : Symbol) → asks ts t ≡ true → P t) → All P ts
  asks-All P [] h = tt
  asks-All P (t ∷ ts) h =
      (h t (ground (arith, ==_refl t)), asks-All P ts (λ u wanted. h u (ground (arith, wanted))))

  -- Each symbol asked for has the cached rate, or else the one that the provider gives.
  abbrev pub Answers : RuntimeState R → Symbol → List Symbol → Rates R → Type 0
  Answers s source targets m =
      All
        (λ t.
          lookup t m
          ≡ or_else (lookup t (known s source))
              (lookup t (fetched source (missing client (known s source) targets))))
        targets

  -- If the provider's answers have each symbol at most once and none that was not asked for, then a
  -- request for rates does one of two things. It answers, and each symbol asked for has the rate
  -- that the cache has for it, or else the one that the provider gives for the symbols that are not
  -- cached. Or it fails with the error that the provider gives for these. In either case the cached
  -- rates of any other source stay as they are.
  pub symbol_to_symbols-Answers :
      (s : RuntimeState R) (source other : Symbol) (targets : List Symbol)
      → IsExact
      → source ≢ other
      → let (answer, s') = symbol_to_symbols client s source targets in
        (((m : Rates R) × (answer ≡ ok m) × Answers s source targets m)
          ⊎ ((e : E) × (answer ≡ err e)
              × (client.symbol_to_symbols source (missing client (known s source) targets)
                  ≡ err e)))
        × (lookup other s'.cached_tickers ≡ lookup other s.cached_tickers)
  symbol_to_symbols-Answers s source other targets exact ne = (
    elim (Fallible-cases (symbol_to_symbols client s source targets).0) [
      | inl (m, got) ↦ inl (
        m,
        got,
        asks-All _ targets
            (λ t wanted. symbol_to_symbols-lookup s source targets m t exact got wanted),
      )
      | inr (e, failed) ↦ inr (e, failed, symbol_to_symbols-fails s source targets e failed)
    ],
    symbol_to_symbols-others s source other targets ne,
  )

missing_new :
    {R E : Type 0} (client : TickerClient R E) (known new : Symbol) (old : R)
    → known ≢ new
    → missing client ((known, old) ∷ []) (known ∷ new ∷ []) ≡ new ∷ []
unfolding missing lookup
missing_new client known new old other =
    rw (missing, filter_map, lookup, ==_refl known, ==_ne known new other) refl

-- If the cache has the rate of one symbol only, and rates are asked for this symbol and for one
-- with another name, whose rate the provider gives, then the answer lacks the rate that the cache
-- has.
pub symbol_to_symbols_generic_drops :
    {R E : Type 0} (client : TickerClient R E) (s : RuntimeState R) (source known new : Symbol)
    (old fresh : R)
    → lookup source s.cached_tickers ≡ some ((known, old) ∷ [])
    → symbol_name known ≢ symbol_name new
    → client.symbol_to_symbols source (new ∷ []) ≡ ok ((new, fresh) ∷ [])
    → (vals : Dict String R) × ((symbol_to_symbols_generic client s source (known ∷ new ∷ [])).0
        ≡ ok vals)
      × (lookup (symbol_name known) vals ≡ none)
      × (lookup (symbol_name new) vals ≡ some fresh)
unfolding symbol_to_symbols_generic named lookup insert
symbol_to_symbols_generic_drops {R} client s source known new old fresh present names got =
    let other : known ≢ new = λ p. names (ap symbol_name p) in
    let vals : Dict String R = (symbol_name new, fresh) ∷ [] in
    (
      vals,
      rw (symbol_to_symbols_generic, present, missing_new client known new old other, refetch, got)
          refl,
      rw (lookup, ==_ne (symbol_name new) (symbol_name known) (λ p. names (sym p))) refl,
      rw (lookup, ==_refl (symbol_name new)) refl,
    )
