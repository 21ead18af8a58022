-- ===== src/Domain/Currency.antt =====
-- hexstody-api/src/domain/currency.rs: currencies, tokens, addresses and transaction ids. The
-- derived equalities are Boolean tests, with an instance of `Key` for each type that is a key.
use hexstody.Prelude.{
  ◌≡◌, ◌↔◌, Bool, true, false, ◌&&◌, List, [], ◌∷◌, Option, none, some, String, arith, Key,
  string_eq, ◌==◌, ==_iff, if◌then◌else◌, any, filter_map, ℕ,
}

-- Derived `PartialEq` compares all three fields.
pub record Erc20Token : Type 0 where
  pub ticker : String
  pub name : String
  pub contract : String

pub data Currency : Type 0 where
  btc eth : Currency
  erc20 : Erc20Token → Currency

abbrev pub token_beq : Erc20Token → Erc20Token → Bool
token_beq a b = a.ticker == b.ticker && a.name == b.name && a.contract == b.contract

pub token_beq_iff : (a b : Erc20Token) → (token_beq a b ≡ true) ↔ (a ≡ b)
token_beq_iff a b =
    ground (arith, ==_iff a.ticker b.ticker, ==_iff a.name b.name, ==_iff a.contract b.contract)

instance abbrev pub token_eq : Key Erc20Token
token_eq = record { same = token_beq; same_iff = token_beq_iff }

abbrev pub currency_beq : Currency → Currency → Bool
currency_beq btc btc = true
currency_beq eth eth = true
currency_beq (erc20 a) (erc20 b) = token_beq a b
currency_beq _ _ = false

pub currency_beq_iff : (a b : Currency) → (currency_beq a b ≡ true) ↔ (a ≡ b)
currency_beq_iff (erc20 a) (erc20 b) = ground (arith, token_beq_iff a b)
currency_beq_iff _ _ = ground arith

instance abbrev pub currency_eq : Key Currency
currency_eq = record { same = currency_beq; same_iff = currency_beq_iff }

abbrev pub usdt_erc20 : Currency
usdt_erc20 = erc20 (record {
  ticker = "USDT";
  name = "USDT";
  contract = "0xdAC17F958D2ee523a2206206994597C13D831ec7";
})

abbrev pub crv_erc20 : Currency
crv_erc20 = erc20 (record {
  ticker = "CRV";
  name = "CRV";
  contract = "0xd533a949740bb3306d119cc777fa900ba034cd52";
})

abbrev pub gtech_erc20 : Currency
gtech_erc20 = erc20 (record {
  ticker = "GTECH";
  name = "GTECH";
  contract = "0x866A4Da32007BA71aA6CcE9FD85454fCF48B140c";
})

abbrev pub supported : List Currency
supported = btc ∷ eth ∷ usdt_erc20 ∷ crv_erc20 ∷ gtech_erc20 ∷ []

unfoldable pub is_token : Currency → Bool
is_token (erc20 token) = true
is_token _ = false

abbrev pub token_of : Currency → Option Erc20Token
token_of (erc20 token) = some token
token_of _ = none

unfoldable pub filter_tokens : List Currency → List Erc20Token
filter_tokens curs = filter_map token_of curs

unfoldable pub supported_tokens : List Erc20Token
supported_tokens = filter_map token_of supported

abbrev default_token : Currency → Option Erc20Token
default_token (erc20 token) =
    if any (λ ticker. ticker == token.ticker) ("USDT" ∷ "GTECH" ∷ []) then some token else none
default_token _ = none

unfoldable pub default_tokens : List Erc20Token
default_tokens = filter_map default_token supported

abbrev pub active_by_default : Currency → Option Currency
active_by_default (erc20 token) = if token.ticker == "CRV" then none else some (erc20 token)
active_by_default c = some c

-- The currencies of a new user.
unfoldable pub default_currencies : List Currency
default_currencies = filter_map active_by_default supported

-- `USD` and `RUB` are fiat, the rest are traded on chain.
pub data Symbol : Type 0 where
  usd rub btc eth : Symbol
  erc20 : String → Symbol

abbrev pub symbol_beq : Symbol → Symbol → Bool
symbol_beq usd usd = true
symbol_beq rub rub = true
symbol_beq btc btc = true
symbol_beq eth eth = true
symbol_beq (erc20 a) (erc20 b) = a == b
symbol_beq _ _ = false

pub symbol_beq_iff : (a b : Symbol) → (symbol_beq a b ≡ true) ↔ (a ≡ b)
symbol_beq_iff (erc20 a) (erc20 b) = ground (arith, ==_iff a b)
symbol_beq_iff _ _ = ground arith

instance abbrev pub symbol_eq : Key Symbol
symbol_eq = record { same = symbol_beq; same_iff = symbol_beq_iff }

unfoldable pub symbol : Currency → Symbol
symbol btc = btc
symbol eth = eth
symbol (erc20 token) = erc20 token.ticker

unfoldable pub from_symbol : Symbol → Option Currency
from_symbol usd = none
from_symbol rub = none
from_symbol btc = some btc
from_symbol eth = some eth
from_symbol (erc20 s) =
    if s == "USDT"
    then some usdt_erc20
    else if s == "CRV"
    then some crv_erc20
    else if s == "GTECH"
    then some gtech_erc20
    else none

-- The position of a token in the order of the lists that a user sees.
unfoldable pub index : Erc20Token → ℕ
index token =
    if token.ticker == "USDT"
    then 0
    else if token.ticker == "GTECH"
    then 1
    else if token.ticker == "CRV"
    then 2
    else 65535

pub record BtcAddress : Type 0 where
  pub addr : String

pub record EthAccount : Type 0 where
  pub account : String

pub record Erc20 : Type 0 where
  pub token : Erc20Token
  pub account : EthAccount

pub data CurrencyAddress : Type 0 where
  btc : BtcAddress → CurrencyAddress
  eth : EthAccount → CurrencyAddress
  erc20 : Erc20 → CurrencyAddress

abbrev pub address_beq : CurrencyAddress → CurrencyAddress → Bool
address_beq (btc a) (btc b) = a.addr == b.addr
address_beq (eth a) (eth b) = a.account == b.account
address_beq (erc20 a) (erc20 b) =
    token_beq a.token b.token && a.account.account == b.account.account
address_beq _ _ = false

pub address_beq_iff : (a b : CurrencyAddress) → (address_beq a b ≡ true) ↔ (a ≡ b)
address_beq_iff (btc a) (btc b) = ground (arith, ==_iff a.addr b.addr)
address_beq_iff (eth a) (eth b) = ground (arith, ==_iff a.account b.account)
address_beq_iff (erc20 a) (erc20 b) =
    ground (arith, token_beq_iff a.token b.token, ==_iff a.account.account b.account.account)
address_beq_iff _ _ = ground arith

instance abbrev pub address_eq : Key CurrencyAddress
address_eq = record { same = address_beq; same_iff = address_beq_iff }

unfoldable pub currency : CurrencyAddress → Currency
currency (btc a) = btc
currency (eth a) = eth
currency (erc20 a) = erc20 a.token

unfoldable pub address : CurrencyAddress → String
address (btc a) = a.addr
address (eth a) = a.account
address (erc20 a) = a.account.account

pub data CurrencyTxId : Type 0 where
  btc eth : String → CurrencyTxId

abbrev pub txid_beq : CurrencyTxId → CurrencyTxId → Bool
txid_beq (btc a) (btc b) = a == b
txid_beq (eth a) (eth b) = a == b
txid_beq _ _ = false

pub txid_beq_iff : (a b : CurrencyTxId) → (txid_beq a b ≡ true) ↔ (a ≡ b)
txid_beq_iff (btc a) (btc b) = ground (arith, ==_iff a b)
txid_beq_iff (eth a) (eth b) = ground (arith, ==_iff a b)
txid_beq_iff _ _ = ground arith

instance abbrev pub txid_eq : Key CurrencyTxId
txid_eq = record { same = txid_beq; same_iff = txid_beq_iff }

unfoldable pub txid_currency : CurrencyTxId → Currency
txid_currency (btc t) = btc
txid_currency (eth t) = eth
