-- ===== src/State/Apply/Kept/Chain.antt =====
-- Transactions of the bitcoin chain keep the properties of accounts.
use hexstody.Prelude.Dict.{lookup}
use hexstody.Prelude.{Option-cases, string_eq, nat_eq, inl, inr, Bool-cases, ◌&&◌}
use hexstody.Domain.Currency.{Currency, currency_eq, CurrencyAddress, address_eq}
use hexstody.State.User.{UserCurrencyInfo, cancel_btc_tx}
use hexstody.State.Apply.Kept.{KeepsUser, IsUpdate, AllUsers, user_cases, set_currency-Keeps}
use hexstody.Update.Signup.{UserId}
use hexstody.State.User.{UserInfo}
use hexstody.State.Core.{
  invite_eq, State, Bitcoin, with_user, with_currency, find_user_address, is_exchange_address,
}
use hexstody.Update.Btc.{BtcTxCancel}
use hexstody.State.Transaction.{BtcTransaction}
use hexstody.State.Withdrawals.{set_withdrawal_request_node_rejected}
use hexstody.State.Chain.{
  deposit_key, on_account, paid_by, with_btc_tx_update, reject_withdrawal, is_err,
  with_btc_tx_cancel,
}
use hexstody.State.Apply.Kept.Withdrawals.{set_request_status-Keeps}

module _ (U : UserId → UserInfo → Type 0) (kept : KeepsUser U) where
  on_account-Keeps :
      (key : CurrencyAddress) (f : UserCurrencyInfo → UserCurrencyInfo) (s : State)
      → ((info : UserCurrencyInfo) → IsUpdate Currency.btc info (f info))
      → AllUsers U s
      → AllUsers U (on_account key f s).1
  on_account-Keeps key f s h a = elim (Option-cases (find_user_address s key)) [
    | inl unknown ↦ rw (unknown, on_account) a
    | inr (uid, known) ↦
        rw (known, on_account)
          ((elim (user_cases U uid s a) [
            | inl no_user ↦ rw (no_user, on_account, with_user) a
            | inr (user, user_known, au) ↦
                rw (user_known, on_account, with_user)
                  ((elim (Option-cases (lookup Currency.btc user.currencies)) [
                    | inl no_account ↦ rw (no_account, with_currency) a
                    | inr (info, held) ↦
                        rw (held, with_currency)
                          (set_currency-Keeps U kept uid user Currency.btc _ s a au held (h info))
                  ]))
          ]))
  ]

  pub with_btc_tx_update-Keeps :
      (b : Bitcoin) (tx : BtcTransaction) (s : State)
      → AllUsers U s
      → AllUsers U (with_btc_tx_update b tx s).1
  unfolding with_btc_tx_update
  with_btc_tx_update-Keeps b tx s a =
      elim (Bool-cases (is_exchange_address s (deposit_key b tx.address))) [
        | inl wallet ↦ rw (wallet, with_btc_tx_update) a
        | inr account ↦
            rw (account, with_btc_tx_update)
              (on_account-Keeps (deposit_key b tx.address) _ s (λ info P k p. k.seen tx p) a)
      ]

  reject_withdrawal-Keeps :
      (b : Bitcoin) (tx : BtcTxCancel) (s : State)
      → AllUsers U s
      → AllUsers U (reject_withdrawal b tx s).1
  unfolding set_withdrawal_request_node_rejected
  reject_withdrawal-Keeps b tx s a = elim (Option-cases (paid_by b tx s)) [
    | inl unpaid ↦ rw (unpaid, reject_withdrawal) a
    | inr (rid, paid) ↦ rw (paid, reject_withdrawal) (set_request_status-Keeps U kept rid _ s a)
  ]

  pub with_btc_tx_cancel-Keeps :
      (b : Bitcoin) (tx : BtcTxCancel) (s : State)
      → AllUsers U s
      → AllUsers U (with_btc_tx_cancel b tx s).1
  unfolding with_btc_tx_cancel
  with_btc_tx_cancel-Keeps b tx s a =
      let key = deposit_key b tx.address in
      let res1 = on_account key (cancel_btc_tx tx) s in
      let res2 = reject_withdrawal b tx res1.1 in
      let both =
        reject_withdrawal-Keeps b tx res1.1
          (on_account-Keeps key _ s (λ info P k p. k.canceled tx p) a) in
      elim (Bool-cases (is_exchange_address s key)) [
        | inl wallet ↦ rw (wallet, with_btc_tx_cancel) a
        | inr account ↦ elim (Bool-cases (is_err res1 && is_err res2)) [
          | inl failed ↦ rw (account, failed, with_btc_tx_cancel) both
          | inr done ↦ rw (account, done, with_btc_tx_cancel) both
        ]
      ]
