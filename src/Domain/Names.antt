-- ===== src/Domain/Names.antt =====
-- The names of currencies and symbols in hexstody-api/src/domain/currency.rs, and those of the filters
-- in hexstody-api/src/types.rs. The case conversions of the standard library are parameters.
use Prim.Native.String.{◌++◌}
use hexstody.Prelude.{
  Bool, true, false, List, [], ◌∷◌, Option, none, some, String, if◌then◌else◌, retain, ◌==◌,
  string_eq,
}
use hexstody.Prelude.Fallible.{Fallible, ok, err}
use hexstody.Domain.Types.{WithdrawalFilter, LimitChangeFilter, ExchangeFilter}
use hexstody.Domain.Currency.{
  Currency, Symbol, Erc20Token, usdt_erc20, crv_erc20, gtech_erc20, symbol, supported_tokens,
}

-- `Display` of a currency
unfoldable pub display : Currency → String
display Currency.btc = "Bitcoin"
display Currency.eth = "Ethereum"
display (Currency.erc20 token) = token.ticker ++ " ERC-20"

-- `FromStr` of a currency
unfoldable pub currency_from_str : String → Fallible String Currency
currency_from_str s =
    if s == "TUSDT"
    then ok usdt_erc20
    else if s == "TCRV"
    then ok crv_erc20
    else if s == "TGTECH"
    then ok gtech_erc20
    else if s == "ETH"
    then ok Currency.eth
    else err ("unknown currency" ++ s)

-- `Symbol::symbol`
unfoldable pub symbol_name : Symbol → String
symbol_name Symbol.usd = "USD"
symbol_name Symbol.rub = "RUB"
symbol_name Symbol.btc = "BTC"
symbol_name Symbol.eth = "ETH"
symbol_name (Symbol.erc20 ticker) = ticker

abbrev pub is_fiat : Symbol → Bool
is_fiat Symbol.usd = true
is_fiat Symbol.rub = true
is_fiat _ = false

abbrev pub is_crypto : Symbol → Bool
is_crypto Symbol.usd = false
is_crypto Symbol.rub = false
is_crypto _ = true

abbrev pub supported_symbols : List Symbol
supported_symbols =
    Symbol.usd
    ∷ Symbol.rub
    ∷ Symbol.btc
    ∷ Symbol.eth
    ∷ Symbol.erc20 "USDT"
    ∷ Symbol.erc20 "CRV"
    ∷ Symbol.erc20 "GTECH"
    ∷ []

abbrev pub supported_fiats : List Symbol
supported_fiats = retain is_fiat supported_symbols

abbrev pub supported_cryptos : List Symbol
supported_cryptos = retain is_crypto supported_symbols

pub data Fiat : Type 0 where
  usd rub : Fiat

abbrev pub fiat_symbol : Fiat → Symbol
fiat_symbol Fiat.usd = Symbol.usd
fiat_symbol Fiat.rub = Symbol.rub

abbrev pub fiat_from_symbol : Symbol → Option Fiat
fiat_from_symbol Symbol.usd = some Fiat.usd
fiat_from_symbol Symbol.rub = some Fiat.rub
fiat_from_symbol _ = none

unfoldable pub ticker : Currency → String
unfolding symbol symbol_name
ticker c = symbol_name (symbol c)

unfoldable pub ticker_lowercase : (String → String) → Currency → String
ticker_lowercase to_lowercase Currency.btc = "btc"
ticker_lowercase to_lowercase Currency.eth = "eth"
ticker_lowercase to_lowercase (Currency.erc20 token) = to_lowercase token.ticker

-- The loop over the supported tokens.
abbrev token_named : String → List Erc20Token → Option Currency
token_named name [] = none
token_named name (token ∷ rest) =
    if name == token.ticker then some (Currency.erc20 token) else token_named name rest

unfoldable pub get_by_name : (String → String) → String → Option Currency
unfolding supported_tokens
get_by_name to_uppercase name_orig =
    let name = to_uppercase name_orig in
    if name == "BTC"
    then some Currency.btc
    else if name == "ETH"
    then some Currency.eth
    else token_named name supported_tokens

-- `to_string` of the three filters
unfoldable pub withdrawal_filter_name : WithdrawalFilter → String
withdrawal_filter_name WithdrawalFilter.all = "all"
withdrawal_filter_name WithdrawalFilter.pending = "pending"
withdrawal_filter_name WithdrawalFilter.confirmed = "confirmed"
withdrawal_filter_name WithdrawalFilter.completed = "completed"
withdrawal_filter_name WithdrawalFilter.op_rejected = "oprejected"
withdrawal_filter_name WithdrawalFilter.node_rejected = "noderejected"

unfoldable pub limit_filter_name : LimitChangeFilter → String
limit_filter_name LimitChangeFilter.all = "all"
limit_filter_name LimitChangeFilter.completed = "completed"
limit_filter_name LimitChangeFilter.rejected = "rejected"
limit_filter_name LimitChangeFilter.pending = "pending"

unfoldable pub exchange_filter_name : ExchangeFilter → String
exchange_filter_name ExchangeFilter.all = "all"
exchange_filter_name ExchangeFilter.completed = "completed"
exchange_filter_name ExchangeFilter.rejected = "rejected"
exchange_filter_name ExchangeFilter.pending = "pending"
