-- ===== src/State/Apply/Kept/Orders.antt =====
-- Exchange orders keep the properties of accounts.
use hexstody.Prelude.{
  ◌≡◌, some, Option-cases, Bool, true, false, string_eq, nat_eq, inl, inr, Bool-cases, ltb,
}
use hexstody.Prelude.Dict.{lookup}
use hexstody.Domain.Currency.{currency_eq, address_eq}
use hexstody.State.User.{UserInfo, UserCurrencyInfo, balance}
use hexstody.State.Apply.Kept.{KeepsUser, AllUsers, user_cases, set_currency-Keeps}
use hexstody.Update.Signup.{UserId}
use hexstody.State.Core.{invite_eq, State, Result, ok, err, with_user, with_currency}
use hexstody.State.Exchange.{ExchangeOrder, ExchangeOrderUpd, ExchangeDecision}
use hexstody.State.Orders.{
  add_exchange_request, decide_order, store_order, apply_exchange_decision, add_incoming_exchange,
}

module _ (U : UserId → UserInfo → Type 0) (kept : KeepsUser U) where
  pub add_exchange_request-Keeps :
      (req : ExchangeOrderUpd) (s : State)
      → AllUsers U s
      → AllUsers U (add_exchange_request req s).1
  unfolding add_exchange_request
  add_exchange_request-Keeps req s a = (elim (user_cases U req.user s a) [
    | inl no_user ↦ rw (no_user, add_exchange_request, with_user) a
    | inr (user, user_known, au) ↦
        rw (user_known, add_exchange_request, with_user)
          ((elim (Option-cases (lookup req.currency_from user.currencies)) [
            | inl no_account ↦ rw (no_account, with_currency) a
            | inr (info, held) ↦
                rw (held, with_currency)
                  (elim (Bool-cases (ltb (balance info) req.amount_from)) [
                    | inl short ↦ rw short a
                    | inr enough ↦ rw enough (
                        set_currency-Keeps U kept req.user user req.currency_from _ s a au held
                          (λ P k p. k.orders _ p))
                  ])
          ]))
  ])

  pub apply_exchange_decision-Keeps :
      (req : ExchangeDecision) (s : State)
      → AllUsers U s
      → AllUsers U (apply_exchange_decision req s).1
  unfolding apply_exchange_decision
  apply_exchange_decision-Keeps req s a = (elim (user_cases U req.user s a) [
    | inl no_user ↦ rw (no_user, apply_exchange_decision, with_user) a
    | inr (user, user_known, au) ↦
        rw (user_known, apply_exchange_decision, with_user)
          ((elim (Option-cases (lookup req.currency_from user.currencies)) [
            | inl no_account ↦ rw (no_account, with_currency) a
            | inr (info, held) ↦
                rw (held, with_currency)
                  (elim (Option-cases (lookup req.id info.exchange_requests)) [
                    | inl unknown ↦ rw unknown a
                    | inr (order, known) ↦ rw known (go user au info held (decide_order req order))
                  ])
          ]))
  ])
    where
      go :
          (user : UserInfo)
          → U req.user user
          → (info : UserCurrencyInfo) → lookup req.currency_from user.currencies ≡ some info
          → (r : Result (Bool × ExchangeOrder)) → AllUsers U (store_order req user info r s).1
      go user au info held (err e) = a
      go user au info held (ok (true, order')) =
          set_currency-Keeps U kept req.user user req.currency_from _ s a au held
            (λ P k p. k.orders _ p)
      go user au info held (ok (false, order')) =
          set_currency-Keeps U kept req.user user req.currency_from _ s a au held
            (λ P k p. k.orders _ p)

  pub add_incoming_exchange-Keeps :
      (req : ExchangeDecision) (s : State)
      → AllUsers U s
      → AllUsers U (add_incoming_exchange req s).1
  unfolding add_incoming_exchange
  add_incoming_exchange-Keeps req s a = (elim (user_cases U req.user s a) [
    | inl no_user ↦ rw (no_user, add_incoming_exchange, with_user) a
    | inr (user, user_known, au) ↦
        rw (user_known, add_incoming_exchange, with_user)
          ((elim (Option-cases (lookup req.currency_to user.currencies)) [
            | inl no_account ↦ rw (no_account, with_currency) a
            | inr (info, held) ↦
                rw (held, with_currency)
                  (set_currency-Keeps U kept req.user user req.currency_to _ s a au held
                    (λ P k p. k.purchases _ p))
          ]))
  ])
