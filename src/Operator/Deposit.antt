-- ===== src/Operator/Deposit.antt =====
-- The address at which the exchange is paid, of hexstody-operator/src/api/mod.rs and helpers.rs.
pub mod Reserved
use hexstody.Prelude.{
  ◌≡◌, ◌≢◌, refl, true, List, [], ◌∷◌, Option, none, some, String, string_eq, arith,
}
use hexstody.Prelude.Dict.{lookup, lookup-insert_self}
use hexstody.Prelude.Fallible.{Fallible, ok, err}
use hexstody.Domain.Types.{SignatureData}
use hexstody.Domain.Currency.{Currency, currency_eq, CurrencyAddress, Erc20Token, currency, address}
use hexstody.Domain.Error.{
  ApiError, no_user_found, no_user_currency, failed_gen_address, failed_eth_connection,
  generic_error,
}
use hexstody.Domain.Names.{ticker_lowercase}
use hexstody.Update.Btc.{Address}
use hexstody.Update.Body.{UpdateBody}
use hexstody.Update.Channel.{Channel}
use hexstody.State.Core.{State}
use hexstody.State.Orders.{set_exchange_address}
use hexstody.Public.Auth.{reserved_name}
use hexstody.Operator.{Service, Call, guard_op_signature, send}

pub record ExchangeAddress : Type 0 where
  pub currency : String
  pub address : String
  pub qr_code_base64 : String

-- What the two adapters answer: the bitcoin address, as the crate displays it, and the address in the
-- data of the exchange's user on ethereum.
pub record Adapters : Type 0 where
  pub deposit_address : Fallible String Address
  pub display : Address → String
  pub user_address : Fallible String String

-- `qr_code` is the picture of a text in base 64, if it fits, and otherwise the request is a panic.
abbrev pub shown :
    (String → String)
    → (String → Option String)
    → Currency
    → CurrencyAddress
    → Option (Fallible ApiError ExchangeAddress)
shown to_lowercase qr_code c a = elim (qr_code (address a)) [
  | none ↦ none
  | some picture ↦ some (
      ok (record {
        currency = ticker_lowercase to_lowercase c;
        address = address a;
        qr_code_base64 = picture;
      }))
]

module _ (service : Service) (adapters : Adapters) where
  abbrev announce : CurrencyAddress → Call CurrencyAddress
  announce packed_address channel =
      let body = UpdateBody.exchange_address packed_address in
      let (sent, channel') = send service body channel in
      (
        elim sent [
          | ok u ↦ ok packed_address
          | err e ↦
              err
                (generic_error (service.send_error (record { created = service.now; body = body })))
        ],
        channel',
      )

  abbrev with_user_address : (String → CurrencyAddress) → Call CurrencyAddress
  with_user_address pack channel = elim adapters.user_address [
    | ok account ↦ announce (pack account) channel
    | err e ↦ (err (failed_eth_connection e), channel)
  ]

  abbrev allocate_btc_address : Call CurrencyAddress
  allocate_btc_address channel = elim adapters.deposit_address [
    | ok a ↦ announce (CurrencyAddress.btc (record { addr = adapters.display a })) channel
    | err e ↦ (err (failed_gen_address Currency.btc), channel)
  ]

  abbrev allocate_eth_address : Call CurrencyAddress
  allocate_eth_address =
      with_user_address (λ account. CurrencyAddress.eth (record { account = account }))

  abbrev allocate_erc20_address : Erc20Token → Call CurrencyAddress
  allocate_erc20_address token = with_user_address (λ account.
      CurrencyAddress.erc20 (record { token = token; account = record { account = account } }))

  abbrev allocate_address : Currency → Call CurrencyAddress
  allocate_address Currency.btc = allocate_btc_address
  allocate_address Currency.eth = allocate_eth_address
  allocate_address (Currency.erc20 token) = allocate_erc20_address token

  abbrev first_or_new : Currency → List CurrencyAddress → Call CurrencyAddress
  first_or_new c [] channel = allocate_address c channel
  first_or_new c (a ∷ rest) channel = (ok a, channel)

  -- The user of the exchange, as he is in the state.
  abbrev known_address : State → Currency → Call CurrencyAddress
  known_address s c channel = elim (lookup reserved_name s.users) [
    | none ↦ (err no_user_found, channel)
    | some user ↦ elim (lookup c user.currencies) [
      | none ↦ (err (no_user_currency c), channel)
      | some info ↦ first_or_new c info.deposit_info channel
    ]
  ]

  abbrev get_deposit_address : State → Currency → Call CurrencyAddress
  get_deposit_address s Currency.btc = allocate_address Currency.btc
  get_deposit_address s Currency.eth = known_address s Currency.eth
  get_deposit_address s (Currency.erc20 token) = known_address s (Currency.erc20 token)

  abbrev address_or_new : State → Currency → Call CurrencyAddress
  address_or_new s c channel = elim (lookup c s.exchange_state.addresses) [
    | some a ↦ (ok a, channel)
    | none ↦
        let (r, channel') = get_deposit_address s c channel in
        (elim r [ ok a ↦ ok a | err e ↦ err (failed_gen_address c) ], channel')
  ]

  module _ (to_json : Currency → String) (to_lowercase : String → String)
      (qr_code : String → Option String) where
    abbrev pub get_exchange_address :
        State
        → SignatureData
        → Currency
        → Channel
        → Option (Fallible ApiError ExchangeAddress) × Channel
    get_exchange_address s sd c channel =
        elim (guard_op_signature service "/exchange/address" sd (to_json c)) [
          | err e ↦ (some (err e), channel)
          | ok u ↦
              let (r, channel') = address_or_new s c channel in
              (elim r [ ok a ↦ shown to_lowercase qr_code c a | err e ↦ some (err e) ], channel')
        ]

    pub stuck_without_user :
        (s : State) (sd : SignatureData) (c : Currency) (channel : Channel)
        → c ≢ Currency.btc
        → lookup c s.exchange_state.addresses ≡ none
        → lookup "hexstody-exchange" s.users ≡ none
        → guard_op_signature service "/exchange/address" sd (to_json c) ≡ ok tt
        → get_exchange_address s sd c channel ≡ (some (err (failed_gen_address c)), channel)
    stuck_without_user s sd Currency.btc channel hc ha hu hg = absurd (hc refl)
    stuck_without_user s sd Currency.eth channel hc ha hu hg = ground arith
    stuck_without_user s sd (Currency.erc20 t) channel hc ha hu hg = ground arith

-- If the exchange has no bitcoin address, the request is signed by an operator, the bitcoin adapter
-- gives an address and the worker listens, then the answer shows this address and it is sent to the
-- worker, and in the state that this gives, the same request has the same answer and sends nothing,
-- whatever the adapters answer then.
pub get_exchange_address-kept :
    (service : Service) (before after : Adapters) (to_json : Currency → String)
    (to_lowercase : String → String) (qr_code : String → Option String) (s : State)
    (sd : SignatureData) (channel : Channel) (a : Address)
    → lookup Currency.btc s.exchange_state.addresses ≡ none
    → guard_op_signature service "/exchange/address" sd (to_json Currency.btc) ≡ ok tt
    → before.deposit_address ≡ ok a
    → channel.listens ≡ true
    → let stored = CurrencyAddress.btc (record { addr = before.display a }) in
      let answer = shown to_lowercase qr_code Currency.btc stored in
      let s' = (set_exchange_address stored s).1 in
      (get_exchange_address service before to_json to_lowercase qr_code s sd Currency.btc channel
        ≡ (answer, (send service (UpdateBody.exchange_address stored) channel).1))
      × (get_exchange_address service after to_json to_lowercase qr_code s' sd Currency.btc channel
          ≡ (answer, channel))
unfolding send set_exchange_address currency
get_exchange_address-kept service before after to_json to_lowercase qr_code s sd channel a hn hg ha
      hl =
    let stored = CurrencyAddress.btc (record { addr = before.display a }) in
    (
      ground arith,
      ground (arith, lookup-insert_self Currency.btc stored s.exchange_state.addresses),
    )
