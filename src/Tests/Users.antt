-- ===== src/Tests/Users.antt =====
-- Requests of users.
use Prim.Native.String.{len}
use hexstody.Signed.{SignatureError}
use hexstody.Domain.Error.{ApiError, no_user_found}
use hexstody.Prelude.{String, Option}
use hexstody.Prelude.Fallible.{Fallible, err}
use hexstody.Prelude.{
  ◌⊎◌, ℕ, ◌≤◌, ◌≡◌, ◌≢◌, refl, [], ◌∷◌, none, some, arith, nat_eq, string_eq, ◌==◌,
}
use hexstody.Prelude.Int.{◌+ℤ◌, ◌-ℤ◌}
use hexstody.Prelude.Words.{wrap, sum_u64, sum_i64, add_i64, sub_i64, add_u64}
use hexstody.Prelude.Dict.{lookup, remove, contains_key, values}
use hexstody.Prelude.Fallible.{ok}
use hexstody.Domain.Types.{SignatureData}
use hexstody.Domain.Currency.{
  Currency, currency_eq, CurrencyAddress, BtcAddress, symbol_eq, default_tokens,
}
use hexstody.Update.Signup.{SignupAuth}
use hexstody.Update.Body.{UpdateBody}
use hexstody.State.Core
use hexstody.State.Core.{State}
use hexstody.State.Accounts
use hexstody.State.Withdrawals.{with_new_withdrawal_request, UpdateResult}
use hexstody.State.User.{
  UserInfo, UserCurrencyInfo, finalized_balance, settle, incoming, outgoing, pending_withdrawals,
}
use hexstody.State.Transaction
use hexstody.Public.{World, push, send_unwrap}
use hexstody.Public.Auth.{
  EthClient, Bcrypt, SignupEmail, ChallengeResponse, signup_email, redeem_challenge,
}
use hexstody.Public.Wallet.{
  UserWithdrawRequest, post_withdraw, withdrawal_info, request_type_for, required_amount,
}
use hexstody.Public.Accepted.{
  post_withdraw-accepted, signup_email-accepted, redeem_challenge_any_key, MayRedeem,
}
use hexstody.Tests.Data.{state, user, account, btc_tx}
use hexstody.Tests.Services.{service, channel, invited}

-- A limit of 600 of which 100 are spent, on the account with a deposit of 500.
abbrev rich_account : UserCurrencyInfo
rich_account = record account {
  transactions = Transaction.btc (record (btc_tx 1) { confirmations = 6 }) ∷ [];
  limit_info = record { limit = record account.limit_info.limit { amount = 600 }; spent = 100 };
}

abbrev rich_user : UserInfo
rich_user = record user { currencies = (Currency.btc, rich_account) ∷ [] }

abbrev rich_state : State
rich_state = record state { users = ("alice", rich_user) ∷ [] }

abbrev pub world : World ℕ
world = record { channel = channel; eth = 0; cookie = none; challenges = ("alice", "abc") ∷ [] }

abbrev address : BtcAddress
address = record { addr = "bc1q" }

abbrev wanted : UserWithdrawRequest
wanted = record { address = CurrencyAddress.btc address; amount = 100 }

rich_known : lookup "alice" rich_state.users ≡ some rich_user
unfolding lookup
rich_known = refl

rich_has : lookup Currency.btc rich_user.currencies ≡ some rich_account
unfolding lookup
rich_has = refl

rich_balance : finalized_balance rich_account ≡ 500
unfolding finalized_balance settle incoming outgoing pending_withdrawals Transaction.is_finalized
    Transaction.amount wrap sum_u64 sum_i64 add_i64 sub_i64 add_u64 ◌+ℤ◌ ◌-ℤ◌ values
rich_balance = refl

rich_enough : 100 ≤ finalized_balance rich_account
rich_enough = omega (arith, rich_balance)

post_withdraw-accepted_example :
    let upd =
      withdrawal_info 7 rich_user wanted (request_type_for rich_account (required_amount 100 0)) in
    let session = record world { cookie = some "alice" } in
    (post_withdraw 8 (ok 0) 7 rich_state wanted session
      ≡ (some (ok tt), (push 8 (UpdateBody.create_withdrawal_request upd) session).1))
    × ((r : Option UpdateResult) × ((with_new_withdrawal_request 8 upd rich_state).0 ≡ Core.ok r))
post_withdraw-accepted_example =
    post_withdraw-accepted 8 7 rich_state world rich_user rich_account address 100 0 rich_known
      rich_has refl (omega arith) (omega arith) (omega arith) rich_enough

abbrev pub eth : EthClient ℕ
eth = record {
  createuser = λ u n. (ok tt, n);
  post_tokens = λ u ts n. (ok tt, n);
  remove_user = λ u n. (ok tt, n);
  allocate_address = λ u n. (ok "0xa1", 1);
}

abbrev bcrypt : Bcrypt
bcrypt = record { hash = λ p. ok "hash"; verify = λ p h. p == h }

abbrev form : SignupEmail
form = record { user = "robert"; invite = record { invite = 1 }; password = "correct horse" }

signed_up : (signup_email eth bcrypt 8 invited form world).0 ≡ some (ok tt)
unfolding signup_email send_unwrap contains_key lookup default_tokens
signed_up = refl

signup_email-accepted_example :
    ((3 ≤ len "robert") × (len "robert" ≤ 320))
    × ((6 ≤ len "correct horse") × (len "correct horse" ≤ 1024))
    × (form.user ≢ "hexstody-exchange")
    × ((Accounts.with_signup 8
          (record {
            username = "robert";
            invite = record { invite = 1 };
            auth = SignupAuth.password "hash";
          })
          invited).0
        ≡ Core.ok tt)
signup_email-accepted_example =
    signup_email-accepted eth bcrypt 8 invited form world "hash" signed_up

abbrev response : ChallengeResponse
response = record { user = "alice"; challenge = "abc" }

-- The key 99 is nobody's.
abbrev stranger : SignatureData
stranger = record { signature = 5; nonce = 1; public_key = 99 }

abbrev debug : SignatureError → String
debug e = "bad"

abbrev to_json : ChallengeResponse → String
to_json r = "{}"

abbrev redeemed : World ℕ → Option (Fallible ApiError (Unit {0})) × World ℕ
redeemed =
    redeem_challenge eth bcrypt 8 service.check debug to_json service.config state response stranger

abbrev signed_in : World ℕ
signed_in = record world { challenges = remove "alice" world.challenges; cookie = some "alice" }

abbrev MayEnter : Type 0
MayEnter =
    MayRedeem eth bcrypt 8 service.check debug to_json service.config state response stranger world

redeem_challenge_any_key_example :
    (MayEnter
      × (redeemed world ≡ (some (ok tt), signed_in))
      × ((redeemed signed_in).0 ≡ some (err no_user_found)))
    ⊎ ((¬ MayEnter) × ((e : ApiError) × (redeemed world ≡ (some (err e), world))))
redeem_challenge_any_key_example =
    redeem_challenge_any_key eth bcrypt 8 service.check debug to_json service.config state response
      stranger world
