-- ===== src/State/Apply/Kept/Spending.antt =====
-- What the limit of an account lets through.
use hexstody.Prelude.{◌≡◌, ◌≤◌, ◌<◌, arith, some, string_eq, nat_eq}
use hexstody.Prelude.Words.{u64_mod, add_u64_id}
use hexstody.Prelude.Dict.{lookup}
use hexstody.Prelude.Dict.Entries.{AllEntries-lookup, AllEntries-insert}
use hexstody.Domain.Types.{NaiveDateTime}
use hexstody.Domain.Currency.{currency_eq, currency}
use hexstody.Update.Withdrawal.{WithdrawalRequestInfo, under_limit}
use hexstody.State.Withdraw.{request_from}
use hexstody.State.User.{UserInfo, UserCurrencyInfo, put_request}
use hexstody.State.Core.{State, ok, set_currency}
use hexstody.State.Withdrawals.{with_new_withdrawal_request, insert_by_type, withdrawal_underlimit}
use hexstody.State.Apply.Kept.{AllAccounts, AllOfUser}
use hexstody.State.Apply.Kept.Accounts.{IsSound}

-- If every account has an amount spent of 0, no output twice and its own currency, then a
-- withdrawal below the limit, of a known user with an account in its currency and of an amount that
-- fits into a `u64` and is at most the limit, is accepted and stored, and every account has these
-- properties again: what was withdrawn before is not counted.
pub under_limit_repeats :
    (t : NaiveDateTime) (r : WithdrawalRequestInfo) (s : State) (user : UserInfo)
    (info : UserCurrencyInfo)
    → AllAccounts IsSound s
    → lookup r.user s.users ≡ some user
    → lookup (currency r.address) user.currencies ≡ some info
    → r.request_type ≡ under_limit
    → r.amount ≤ info.limit_info.limit.amount
    → r.amount < u64_mod
    → let req = request_from t r in
      let s' = set_currency r.user user (currency r.address) (put_request r.id req info) s in
      (with_new_withdrawal_request t r s ≡ (ok (some (withdrawal_underlimit req)), s'))
      × AllAccounts IsSound s'
unfolding with_new_withdrawal_request insert_by_type
under_limit_repeats t r s user info sound eu ec kind within bound =
    let account = AllEntries-lookup (AllOfUser IsSound) r.user s.users sound eu in
    let p = AllEntries-lookup IsSound (currency r.address) user.currencies account ec in
    let unspent : info.limit_info.spent ≡ 0 = p.2 in
    (
      ground (arith, add_u64_id 0 r.amount),
      AllEntries-insert (AllOfUser IsSound) r.user _ s.users sound
          (AllEntries-insert IsSound (currency r.address) _ user.currencies account p),
    )
