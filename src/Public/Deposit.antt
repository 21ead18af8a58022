-- ===== src/Public/Deposit.antt =====
-- The addresses for deposits, of hexstody-public/src/api/wallet.rs: a new one from the adapter of the
-- chain, or for ether and tokens the first that the user has.
use hexstody.Prelude.{◌≡◌, refl, true, List, [], ◌∷◌, none, some, String, string_eq, arith}
use hexstody.Prelude.Dict.{lookup, insert, lookup-insert_self}
use hexstody.Prelude.Fallible.{Fallible, ok, map_err}
use hexstody.Domain.Types.{NaiveDateTime}
use hexstody.Domain.Currency.{
  Currency, currency_eq, CurrencyAddress, address_eq, Erc20Token, currency,
}
use hexstody.Domain.Error.{
  ApiError, no_user_found, no_user_currency, failed_gen_address, failed_eth_connection,
}
use hexstody.Update.Btc.{Address}
use hexstody.Update.Signup.{UserId, DepositAddress}
use hexstody.Update.Body.{UpdateBody}
use hexstody.State.Core
use hexstody.State.Core.{State, with_user, with_currency, set_currency, set_user}
use hexstody.State.Accounts.{with_deposit_address}
use hexstody.State.User.{UserInfo, UserCurrencyInfo}
use hexstody.Public.{
  World, Handler, ◌>>=◌, ◌>>◌, answer, pure, found, push, send_unwrap, ask, require_auth_user,
  require_auth,
}
use hexstody.Public.Auth.{EthClient}

abbrev pub eth_address : String → CurrencyAddress
eth_address addr = CurrencyAddress.eth (record { account = addr })

abbrev pub erc20_address : Erc20Token → String → CurrencyAddress
erc20_address token addr =
    CurrencyAddress.erc20 (record { token = token; account = record { account = addr } })

-- `map_err` with an error that is always the same
abbrev failing_as : {W A : Type 0} → ApiError → Handler W A → Handler W A
failing_as e handler w =
    let (r, w') = handler w in
    (elim r [ none ↦ none | some result ↦ some (map_err (λ old. e) result) ], w')

-- `deposit_address` is what the bitcoin adapter answers.
module _ {W : Type 0} (now : NaiveDateTime) (eth : EthClient W)
    (deposit_address : Fallible String Address) (display : Address → String) where
  -- The address is sent to the worker, and a worker that is gone is a panic.
  abbrev announce : UserId → CurrencyAddress → Handler W CurrencyAddress
  announce user_id packed_address =
      send_unwrap now
        (UpdateBody.deposit_address (record { user_id = user_id; address = packed_address }))
      >> pure packed_address

  abbrev allocate_btc_address : UserId → Handler W CurrencyAddress
  allocate_btc_address user_id = do
    addr ← answer (map_err (λ e. failed_gen_address Currency.btc) deposit_address)
    announce user_id (CurrencyAddress.btc (record { addr = display addr }))

  abbrev allocate_eth_address : UserId → Handler W CurrencyAddress
  allocate_eth_address user_id = do
    addr ← ask failed_eth_connection (eth.allocate_address user_id)
    announce user_id (eth_address addr)

  abbrev allocate_erc20_address : UserId → Erc20Token → Handler W CurrencyAddress
  allocate_erc20_address user_id token = do
    addr ← ask failed_eth_connection (eth.allocate_address user_id)
    announce user_id (erc20_address token addr)

  abbrev allocate_address : UserId → Currency → Handler W CurrencyAddress
  allocate_address user_id Currency.btc = allocate_btc_address user_id
  allocate_address user_id Currency.eth = allocate_eth_address user_id
  allocate_address user_id (Currency.erc20 token) = allocate_erc20_address user_id token

  abbrev first_or_new : UserId → Currency → List CurrencyAddress → Handler W CurrencyAddress
  first_or_new user_id c [] = allocate_address user_id c
  first_or_new user_id c (a ∷ rest) = pure a

  abbrev known_address : State → UserId → Currency → Handler W CurrencyAddress
  known_address s user_id c = do
    user ← found (lookup user_id s.users) no_user_found
    info ← found (lookup c user.currencies) (no_user_currency c)
    first_or_new user_id c info.deposit_info

  abbrev get_deposit_address : State → UserId → Currency → Handler W CurrencyAddress
  get_deposit_address s user_id Currency.btc = allocate_address user_id Currency.btc
  get_deposit_address s user_id Currency.eth = known_address s user_id Currency.eth
  get_deposit_address s user_id (Currency.erc20 token) =
      known_address s user_id (Currency.erc20 token)

  abbrev pub get_deposit_address_handle : State → Currency → Handler W CurrencyAddress
  get_deposit_address_handle s c =
      require_auth_user s
        λ user. failing_as (no_user_currency c) (get_deposit_address s user.username c)

  get_deposit_address-first :
      (s : State) (user : UserInfo) (token : Erc20Token) (info : UserCurrencyInfo)
      (a : CurrencyAddress) (rest : List CurrencyAddress) (w : World W)
      → lookup user.username s.users ≡ some user
      → lookup (Currency.erc20 token) user.currencies ≡ some info
      → info.deposit_info ≡ a ∷ rest
      → get_deposit_address_handle s
          (Currency.erc20 token)
          (record w { cookie = some user.username })
        ≡ (some (ok a), record w { cookie = some user.username })
  unfolding require_auth_user require_auth
  get_deposit_address-first s user token info a rest w hu hi he = ground arith

  -- Take a signed-in user with an account of a token that has no address, an ethereum adapter that
  -- allocates one, and a worker that listens. Then the first request is answered with this address
  -- for the token and sends it to the worker, the state accepts it, and every later request in the
  -- state that this gives is answered with the same address, whatever is around the state, and
  -- changes nothing.
  pub get_deposit_address-kept :
      (s : State) (user : UserInfo) (token : Erc20Token) (info : UserCurrencyInfo)
      (w later : World W) (addr : String)
      → lookup user.username s.users ≡ some user
      → lookup (Currency.erc20 token) user.currencies ≡ some info
      → info.deposit_info ≡ []
      → w.channel.listens ≡ true
      → (eth.allocate_address user.username w.eth).0 ≡ ok addr
      → let c = Currency.erc20 token in
        let packed = erc20_address token addr in
        let dep : DepositAddress = record { user_id = user.username; address = packed } in
        let asked = record w {
          cookie = some user.username;
          eth = (eth.allocate_address user.username w.eth).1;
        } in
        let s' = (with_deposit_address dep s).1 in
        let session = record later { cookie = some user.username } in
        (get_deposit_address_handle s c (record w { cookie = some user.username })
          ≡ (some (ok packed), (push now (UpdateBody.deposit_address dep) asked).1))
        × ((with_deposit_address dep s).0 ≡ Core.ok tt)
        × (get_deposit_address_handle s' c session ≡ (some (ok packed), session))
  unfolding require_auth_user require_auth send_unwrap with_deposit_address currency
  get_deposit_address-kept s user token info w later addr hu hi he hl ha =
      let c = Currency.erc20 token in
      let packed = erc20_address token addr in
      let dep : DepositAddress = record { user_id = user.username; address = packed } in
      let s' = (with_deposit_address dep s).1 in
      let info' : UserCurrencyInfo = record info { deposit_info = packed ∷ [] } in
      let user' : UserInfo = record user { currencies = insert c info' user.currencies } in
      let stored : s'.users ≡ insert user.username user' s.users =
        rw (with_deposit_address, with_user, hu, with_currency, hi, he) refl in
      let first_known : lookup user'.username s'.users ≡ some user' =
        rw stored (lookup-insert_self user.username user' s.users) in
      let first_has : lookup c user'.currencies ≡ some info' =
        lookup-insert_self c info' user.currencies in
      (
        ground arith,
        rw (with_deposit_address, with_user, hu, with_currency, hi, he) refl,
        get_deposit_address-first s' user' token info' packed [] later first_known first_has refl,
      )
