-- ===== src/Tests/Deposits.antt =====
-- Addresses for deposits.
use hexstody.Prelude.{List, String, ◌≡◌, refl, [], ◌∷◌, none, some, String, nat_eq, string_eq}
use hexstody.Prelude.Dict.{lookup}
use hexstody.Prelude.Fallible.{ok, err}
use hexstody.Domain.Currency.{Currency, currency_eq, CurrencyAddress, symbol_eq}
use hexstody.Update.Body.{UpdateBody}
use hexstody.State.Core
use hexstody.State.Core.{State}
use hexstody.State.User.{UserInfo}
use hexstody.Signed.{verify, signed_text}
use hexstody.Operator.{guard_op_signature}
use hexstody.Public.{push}
use hexstody.Tests.Data.{state, user}
use hexstody.Domain.Currency.{Erc20Token}
use hexstody.State.Accounts.{with_deposit_address}
use hexstody.State.Orders.{set_exchange_address}
use hexstody.State.User.{new_currency_info}
use hexstody.Update.Signup.{DepositAddress}
use hexstody.Public.Deposit.{erc20_address, get_deposit_address_handle, get_deposit_address-kept}
use hexstody.Operator.{send}
use hexstody.Domain.Error.{failed_gen_address}
use hexstody.Operator.Deposit.{Adapters, get_exchange_address, shown, get_exchange_address-kept}
use hexstody.Operator.Deposit.Reserved.{get_exchange_address_stuck}
use hexstody.Prelude.{◌≢◌, ==_iff, arith}
use hexstody.Prelude.Dict.{contains_key, insert, remove}
use hexstody.Update.Body.{StateUpdate}
use hexstody.Update.Signup.{SignupInfo, SignupAuth}
use hexstody.State.Core.{Draw, mainnet}
use hexstody.State.User.{user_from}
use hexstody.State.Accounts.{gen_invite, with_signup}
use hexstody.State.Apply.{collect, collect_from, apply_update, apply_body}
use hexstody.Tests.Data.{bitcoin, draw, invite_update, signup_update}
use hexstody.Tests.Services.{service, channel, sd}
use hexstody.Tests.Users.{world, eth}

abbrev token : Erc20Token
token = record { ticker = "CRV"; name = "CRV"; contract = "0xd5" }

abbrev holder : UserInfo
holder = record user {
  currencies = (Currency.erc20 token, new_currency_info (Currency.erc20 token)) ∷ [];
}

abbrev held : State
held = record state { users = ("alice", holder) ∷ [] }

holder_known : lookup "alice" held.users ≡ some holder
unfolding lookup
holder_known = refl

holder_has :
    lookup (Currency.erc20 token) holder.currencies
    ≡ some (new_currency_info (Currency.erc20 token))
unfolding lookup
holder_has = refl

holder_empty : (new_currency_info (Currency.erc20 token)).deposit_info ≡ []
holder_empty = refl

get_deposit_address-kept_example :
    let c = Currency.erc20 token in
    let packed = erc20_address token "0xa1" in
    let dep : DepositAddress = record { user_id = "alice"; address = packed } in
    let asked = record world { cookie = some "alice"; eth = 1 } in
    let s' = (with_deposit_address dep held).1 in
    let session = record world { cookie = some "alice" } in
    (get_deposit_address_handle 8 eth (ok 3) (λ a. "bc1q") held c session
      ≡ (some (ok packed), (push 8 (UpdateBody.deposit_address dep) asked).1))
    × ((with_deposit_address dep held).0 ≡ Core.ok tt)
    × (get_deposit_address_handle 8 eth (ok 3) (λ a. "bc1q") s' c session
        ≡ (some (ok packed), session))
get_deposit_address-kept_example =
    get_deposit_address-kept 8 eth (ok 3) (λ a. "bc1q") held holder token
      (new_currency_info (Currency.erc20 token)) world world "0xa1" holder_known holder_has
      holder_empty refl refl

abbrev adapters : Adapters
adapters = record { deposit_address = ok 3; display = λ a. "bc1q"; user_address = ok "0xa1" }

abbrev broken : Adapters
broken = record adapters { deposit_address = err "offline" }

exchange-guard : (body : String) → guard_op_signature service "/exchange/address" sd body ≡ ok tt
unfolding guard_op_signature verify signed_text
exchange-guard body = refl

no_btc_address : lookup Currency.btc state.exchange_state.addresses ≡ none
unfolding lookup
no_btc_address = refl

-- A user signs up with an invite.
abbrev history : List (Draw × StateUpdate)
history = (draw, invite_update) ∷ (draw, signup_update) ∷ []

abbrev bob : SignupInfo
bob = record { username = "bob"; invite = record { invite = 4 }; auth = SignupAuth.lightning }

abbrev joined : State
joined = record (Core.new bitcoin mainnet 0) {
  users = ("bob", user_from 2 bob) ∷ [];
  last_changed = 2;
}

history_collected : collect bitcoin mainnet 0 history ≡ Core.ok joined
unfolding collect collect_from apply_update apply_body gen_invite with_signup contains_key lookup
    insert remove Core.new
history_collected = refl

bob-IsOrdinary : bob.username ≢ "hexstody-exchange"
bob-IsOrdinary h = absurd (ground (arith, (==_iff {K = String} "bob" "hexstody-exchange").1 h))

unset : lookup Currency.eth joined.exchange_state.addresses ≡ none
unfolding lookup Core.new
unset = refl

get_exchange_address_stuck_example :
    get_exchange_address service adapters (λ c. "{}") (λ t. t) some joined sd Currency.eth channel
    ≡ (some (err (failed_gen_address Currency.eth)), channel)
get_exchange_address_stuck_example =
    get_exchange_address_stuck service adapters (λ c. "{}") (λ t. t) some bitcoin mainnet 0 history
      {s = joined} sd Currency.eth channel (tt, (bob-IsOrdinary, tt)) history_collected (λ e. cc)
      unset (exchange-guard "{}")

get_exchange_address-kept_example :
    let stored = CurrencyAddress.btc (record { addr = "bc1q" }) in
    let answer = shown (λ t. t) some Currency.btc stored in
    let s' = (set_exchange_address stored state).1 in
    (get_exchange_address service adapters (λ c. "{}") (λ t. t) some state sd Currency.btc channel
      ≡ (answer, (send service (UpdateBody.exchange_address stored) channel).1))
    × (get_exchange_address service broken (λ c. "{}") (λ t. t) some s' sd Currency.btc channel
        ≡ (answer, channel))
get_exchange_address-kept_example =
    get_exchange_address-kept service adapters broken (λ c. "{}") (λ t. t) some state sd channel 3
      no_btc_address (exchange-guard "{}") refl refl
