-- ===== src/Tests/Handlers.antt =====
-- Sign-up, limits, and properties of all accounts.
use hexstody.Prelude.{◌≡◌, refl, arith, List, [], ◌∷◌, none, some, true, string_eq, nat_eq}
use hexstody.Prelude.Dict.{lookup, insert, remove, contains_key}
use hexstody.Domain.Types.{confirm, ExchangeStatus}
use hexstody.Domain.Currency.{Currency, currency_eq, CurrencyAddress, currency}
use hexstody.Update.Signup.{SignupInfo, SignupAuth}
use hexstody.Update.Misc.{InviteRec}
use hexstody.Update.Withdrawal.{WithdrawalRequestInfo, under_limit}
use hexstody.Update.Body.{StateUpdate}
use hexstody.State.Transaction.{replace_btc_tx}
use hexstody.State.Exchange.{ExchangeOrder, ExchangeDecision}
use hexstody.State.Withdraw.{request_from}
use hexstody.State.User.{UserInfo, UserCurrencyInfo, user_from, put_request, put_order}
use hexstody.State.Core.{
  State, Draw, ok, err, new, mainnet, invite_eq, set_currency, user_missing_currency,
}
use hexstody.State.Accounts.{with_signup, gen_invite}
use hexstody.State.Chain.{with_best_btc_block}
use hexstody.State.Orders.{order_from, settle_order}
use hexstody.State.Withdrawals.{with_new_withdrawal_request, withdrawal_underlimit}
use hexstody.State.Apply.{apply_update, apply_body, collect_from, collect, exchange_decision}
use hexstody.State.Apply.Halves.{exchange_decision_half}
use hexstody.State.Apply.Kept.{AllAccounts}
use hexstody.State.Apply.Kept.Accounts.{IsSound, collect-IsSound}
use hexstody.State.Apply.Kept.Spending.{under_limit_repeats}
use hexstody.Tests.Data.{
  account, user, state, bitcoin, draw, invite_update, block_update, snapshot_update, order_upd,
}

abbrev bob : SignupInfo
bob = record { username = "bob"; invite = record { invite = 4 }; auth = SignupAuth.lightning }

abbrev carol : SignupInfo
carol = record { username = "carol"; invite = record { invite = 4 }; auth = SignupAuth.lightning }

abbrev invitation : InviteRec
invitation = record { invite = record { invite = 4 }; invitor = "operator"; label = "friend" }

abbrev invited : State
invited = record state { invites = (record { invite = 4 }, invitation) ∷ [] }

abbrev joined : State
joined = record state { users = ("alice", user) ∷ ("bob", user_from 2 bob) ∷ []; invites = [] }

free_name : lookup "bob" invited.users ≡ none
unfolding lookup
free_name = refl

known_invite : lookup bob.invite invited.invites ≡ some invitation
unfolding lookup
known_invite = refl

carol_free : lookup "carol" joined.users ≡ none
unfolding lookup
carol_free = refl

joins : with_signup 2 bob invited ≡ (ok tt, joined)
unfolding with_signup contains_key lookup insert remove
joins = refl

-- Two deposits' worth of updates, with a snapshot that has an account.
abbrev history : List (Draw × StateUpdate)
history = (draw, invite_update) ∷ (draw, snapshot_update) ∷ (draw, block_update) ∷ []

abbrev after : State
after = record state { last_changed = 4; btc_state = record { height = 8; block_hash = "8" } }

collected : collect bitcoin mainnet 0 history ≡ ok after
unfolding collect collect_from apply_update apply_body new gen_invite with_best_btc_block lookup
    insert
collected = refl

state-AllAccounts : AllAccounts IsSound state
unfolding replace_btc_tx
state-AllAccounts = ((((refl, tt), refl, refl), tt), tt)

collect-IsSound_example : AllAccounts IsSound after
collect-IsSound_example =
    collect-IsSound bitcoin mainnet 0 history {s = after} (tt, (state-AllAccounts, (tt, tt)))
      collected

-- The account may spend up to 100 at a time.
abbrev limited : UserCurrencyInfo
limited = record account {
  limit_info = record account.limit_info {
    limit = record account.limit_info.limit { amount = 100 };
  };
}

abbrev spender : UserInfo
spender = record user { currencies = (Currency.btc, limited) ∷ [] }

abbrev spending : State
spending = record state { users = ("alice", spender) ∷ [] }

abbrev small : WithdrawalRequestInfo
small = record {
  id = 7;
  user = "alice";
  address = CurrencyAddress.btc (record { addr = "bc1q" });
  amount = 90;
  request_type = under_limit;
}

spending-AllAccounts : AllAccounts IsSound spending
unfolding replace_btc_tx
spending-AllAccounts = ((((refl, tt), refl, refl), tt), tt)

spender_known : lookup "alice" spending.users ≡ some spender
unfolding lookup
spender_known = refl

limited_known : lookup (currency small.address) spender.currencies ≡ some limited
unfolding lookup currency
limited_known = refl

under_limit_repeats_example :
    let s' =
      set_currency "alice" spender
        (currency small.address)
        (put_request 7 (request_from 5 small) limited)
        spending in
    (with_new_withdrawal_request 5 small spending
      ≡ (ok (some (withdrawal_underlimit (request_from 5 small))), s'))
    × AllAccounts IsSound s'
under_limit_repeats_example =
    under_limit_repeats 5 small spending spender limited spending-AllAccounts spender_known
      limited_known refl (omega arith) (omega arith)

abbrev pending : ExchangeOrder
pending = order_from order_upd

abbrev seller : UserCurrencyInfo
seller = record account { exchange_requests = (9, pending) ∷ [] }

abbrev trader : UserInfo
trader = record user { currencies = (Currency.btc, seller) ∷ [] }

abbrev trading : State
trading = record state { users = ("alice", trader) ∷ [] }

abbrev approval : ExchangeDecision
approval = record {
  user = "alice";
  id = 9;
  currency_from = Currency.btc;
  currency_to = Currency.eth;
  amount_from = 200;
  amount_to = 3000;
  url = "https://operator";
  signature = 5;
  nonce = 1;
  public_key = 1;
  decision = confirm;
}

trader_known : lookup "alice" trading.users ≡ some trader
unfolding lookup
trader_known = refl

seller_known : lookup Currency.btc trader.currencies ≡ some seller
unfolding lookup
seller_known = refl

pending_known : lookup 9 seller.exchange_requests ≡ some pending
unfolding lookup
pending_known = refl

no_eth : lookup Currency.eth trader.currencies ≡ none
unfolding lookup
no_eth = refl

exchange_decision_half_example :
    (order' : ExchangeOrder) × (order'.status ≡ ExchangeStatus.completed)
    × (exchange_decision approval trading ≡ (
      err (user_missing_currency "alice" Currency.eth),
      settle_order true order'
          (set_currency "alice" trader Currency.btc (put_order 9 order' seller) trading),
    ))
exchange_decision_half_example =
    exchange_decision_half approval trading trader seller pending trader_known seller_known
      pending_known refl (refl, refl, refl, refl) refl (λ e. cc) no_eth
