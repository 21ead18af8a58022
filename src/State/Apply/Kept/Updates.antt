-- ===== src/State/Apply/Kept/Updates.antt =====
-- Every update keeps the properties of accounts, and so does every chain of updates.
use mathlib.Core.Path.{subst}
use hexstody.Prelude.{◌≡◌, All, List, [], ◌∷◌, Option, Bool, true, false, arith}
use hexstody.Domain.Types.{NaiveDateTime}
use hexstody.Update.Body.{UpdateBody, StateUpdate}
use hexstody.State.User.{user_from}
use hexstody.State.Exchange.{ExchangeDecision}
use hexstody.State.Withdrawals.{
  UpdateResult, withdraw_confirmed, with_withdrawal_request_decision, with_new_withdrawal_request,
}
use hexstody.State.Orders
use hexstody.State.Accounts
use hexstody.State.Limits
use hexstody.State.Chain
use hexstody.State.Withdrawals
use mathlib.Core.Option
use hexstody.State.Orders.{set_exchange_address}
use hexstody.State.Chain.{with_best_btc_block}
use hexstody.Update.Signup.{UserId}
use hexstody.State.User.{UserInfo}
use hexstody.State.Core.{State, Bitcoin, Draw, Network, Result, ok, err, Handler, new, ◌>>=◌}
use hexstody.State.Apply.{
  apply_body, apply_update, exchange_decision, credit_if, collect_from, collect, continue, touch,
}
use hexstody.State.Apply.Kept.{KeepsUser, AllUsers, quiet-Keeps}
use hexstody.State.Apply.Kept.Settings
use hexstody.State.Apply.Kept.Withdrawals as KeptWithdrawals
use hexstody.State.Apply.Kept.Orders as KeptOrders
use hexstody.State.Apply.Kept.Chain as KeptChain
use hexstody.State.Apply.Kept.Limits as KeptLimits

-- The rest of a chain, after a result.
abbrev resume : {A B : Type 0} → (A → Handler B) → Result A × State → Result B × State
resume f r = elim r.0 [ ok x ↦ f x r.1 | err e ↦ (err e, r.1) ]

-- A snapshot brings users of its own, and a sign-up a new one.
abbrev pub BringsUsers : (UserId → UserInfo → Type 0) → NaiveDateTime → UpdateBody → Type 0
BringsUsers U t (UpdateBody.snapshot s) = AllUsers U s
BringsUsers U t (UpdateBody.signup info) = U info.username (user_from t info)
BringsUsers U t _ = Unit

module _ (U : UserId → UserInfo → Type 0) where
  -- What follows a handler keeps the property, if it keeps it after a success.
  after-Keeps :
      {A B : Type 0} (m : Handler A) (f : A → Handler B) (s : State)
      → AllUsers U (m s).1
      → ((x : A) (s' : State) → AllUsers U s' → AllUsers U (f x s').1)
      → AllUsers U ((m >>= f) s).1
  after-Keeps {A} {B} m f s a h = go (m s) a
    where
      go : (r : Result A × State) → AllUsers U r.1 → AllUsers U (resume f r).1
      go (ok x, s') a' = h x s' a'
      go (err e, s') a' = a'

module _ (U : UserId → UserInfo → Type 0) (kept : KeepsUser U) where
  exchange_decision-Keeps :
      (req : ExchangeDecision) (s : State) → AllUsers U s → AllUsers U (exchange_decision req s).1
  unfolding exchange_decision
  exchange_decision-Keeps req s a =
      after-Keeps U (Orders.apply_exchange_decision req) (λ b. credit_if b req) s
        (KeptOrders.apply_exchange_decision-Keeps U kept req s a) credit
    where
      credit : (b : Bool) (s' : State) → AllUsers U s' → AllUsers U (credit_if b req s').1
      credit true s' a' = KeptOrders.add_incoming_exchange-Keeps U kept req s' a'
      credit false s' a' = a'

  apply_body-Keeps :
      (b : Bitcoin) (d : Draw) (t : NaiveDateTime) (body : UpdateBody) (s : State)
      → BringsUsers U t body
      → AllUsers U s
      → AllUsers U (apply_body b d t body s).1
  unfolding apply_body
  apply_body-Keeps b d t (UpdateBody.signup req) s h a =
      quiet-Keeps U t (Accounts.with_signup t req) s (Settings.with_signup-Keeps U kept t req s h a)
  apply_body-Keeps b d t (UpdateBody.snapshot s') s h a = h
  apply_body-Keeps b d t (UpdateBody.create_withdrawal_request req) s h a =
      after-Keeps U (with_new_withdrawal_request t req) (touch t) s
        (KeptWithdrawals.with_new_withdrawal_request-Keeps U kept t req s a) (λ x s' a'. a')
  apply_body-Keeps b d t (UpdateBody.withdrawal_request_decision req) s h a =
      after-Keeps U (with_withdrawal_request_decision req)
        (λ res. touch t (Option.map withdraw_confirmed res)) s
        (KeptWithdrawals.with_withdrawal_request_decision-Keeps U kept req s a) (λ x s' a'. a')
  apply_body-Keeps b d t (UpdateBody.withdrawal_request_complete req) s h a =
      quiet-Keeps U t (Withdrawals.set_withdrawal_request_completed req) s
        (KeptWithdrawals.set_withdrawal_request_completed-Keeps U kept req s a)
  apply_body-Keeps b d t (UpdateBody.withdrawal_request_node_rejected req) s h a =
      quiet-Keeps U t (Withdrawals.set_withdrawal_request_node_rejected req) s
        (KeptWithdrawals.set_withdrawal_request_node_rejected-Keeps U kept req s a)
  apply_body-Keeps b d t (UpdateBody.deposit_address req) s h a =
      quiet-Keeps U t (Accounts.with_deposit_address req) s
        (Settings.with_deposit_address-Keeps U kept req s a)
  apply_body-Keeps b d t (UpdateBody.update_btc_tx req) s h a =
      quiet-Keeps U t (Chain.with_btc_tx_update b req) s
        (KeptChain.with_btc_tx_update-Keeps U kept b req s a)
  apply_body-Keeps b d t (UpdateBody.cancel_btc_tx req) s h a =
      quiet-Keeps U t (Chain.with_btc_tx_cancel b req) s
        (KeptChain.with_btc_tx_cancel-Keeps U kept b req s a)
  apply_body-Keeps b d t (UpdateBody.update_tokens req) s h a =
      quiet-Keeps U t (Accounts.update_tokens req) s (Settings.update_tokens-Keeps U kept req s a)
  apply_body-Keeps b d t (UpdateBody.gen_invite req) s h a =
      quiet-Keeps U t (Accounts.gen_invite req) s (Settings.gen_invite-Keeps U kept req s a)
  apply_body-Keeps b d t (UpdateBody.limits_change_request req) s h a =
      quiet-Keeps U t (Limits.insert_limits_req d req) s
        (KeptLimits.insert_limits_req-Keeps U kept d req s a)
  apply_body-Keeps b d t (UpdateBody.cancel_limit_change req) s h a =
      quiet-Keeps U t (Limits.cancel_limit_change req) s
        (KeptLimits.cancel_limit_change-Keeps U kept req s a)
  apply_body-Keeps b d t (UpdateBody.limit_change_decision req) s h a =
      quiet-Keeps U t (Limits.with_limit_change_decision req) s
        (KeptLimits.with_limit_change_decision-Keeps U kept req s a)
  apply_body-Keeps b d t (UpdateBody.clear_limits req) s h a =
      quiet-Keeps U t (Limits.clear_limits req) s (KeptLimits.clear_limits-Keeps U kept req s a)
  apply_body-Keeps b d t (UpdateBody.set_language req) s h a =
      quiet-Keeps U t (Accounts.set_language req) s (Settings.set_language-Keeps U kept req s a)
  apply_body-Keeps b d t (UpdateBody.config_update req) s h a =
      quiet-Keeps U t (Accounts.update_user_config req) s
        (Settings.update_user_config-Keeps U kept req s a)
  apply_body-Keeps b d t (UpdateBody.password_change req) s h a =
      quiet-Keeps U t (Accounts.change_password req) s
        (Settings.change_password-Keeps U kept req s a)
  apply_body-Keeps b d t (UpdateBody.set_public_key req) s h a =
      quiet-Keeps U t (Accounts.set_user_public_key req) s
        (Settings.set_user_public_key-Keeps U kept req s a)
  apply_body-Keeps b d t (UpdateBody.exchange_request req) s h a =
      quiet-Keeps U t (Orders.add_exchange_request req) s
        (KeptOrders.add_exchange_request-Keeps U kept req s a)
  apply_body-Keeps b d t (UpdateBody.exchange_decision req) s h a =
      quiet-Keeps U t (exchange_decision req) s (exchange_decision-Keeps req s a)
  apply_body-Keeps b d t (UpdateBody.best_btc_block req) s h a = unfold with_best_btc_block in a
  apply_body-Keeps b d t (UpdateBody.exchange_address req) s h a = unfold set_exchange_address in a

  -- An update keeps the property, whether it succeeds or fails.
  pub apply_update-Keeps :
      (b : Bitcoin) (d : Draw) (u : StateUpdate) (s : State)
      → BringsUsers U u.created u.body
      → AllUsers U s
      → AllUsers U (apply_update b d u s).1
  unfolding apply_update
  apply_update-Keeps b d u s h a = apply_body-Keeps b d u.created u.body s h a

  pub collect_from-Keeps :
      (b : Bitcoin) (s : State) (us : List (Draw × StateUpdate)) {s' : State}
      → All (λ u. BringsUsers U u.1.created u.1.body) us
      → AllUsers U s
      → collect_from b s us ≡ ok s'
      → AllUsers U s'
  unfolding collect_from
  collect_from-Keeps b s [] {s'} h a e =
      let same : s ≡ s' = ground arith in subst (AllUsers U) same a
  collect_from-Keeps b s ((d, u) ∷ us) {s'} h a e =
      go (apply_update b d u s) (apply_update-Keeps b d u s h.0 a) e
        (λ t a' e'. collect_from-Keeps b t us {s' = s'} h.1 a' e')
    where
      go :
          (r : Result (Option UpdateResult) × State)
          → AllUsers U r.1
          → continue r (λ t. collect_from b t us) ≡ ok s'
          → ((t : State) → AllUsers U t → collect_from b t us ≡ ok s' → AllUsers U s')
          → AllUsers U s'
      go (ok x, t) a' e' rest = rest t a' e'
      go (err x, t) a' e' rest = cc

  -- So it holds of all users after any chain of updates.
  pub collect-Keeps :
      (b : Bitcoin) (network : Network) (now : NaiveDateTime) (us : List (Draw × StateUpdate))
      {s : State}
      → All (λ u. BringsUsers U u.1.created u.1.body) us
      → collect b network now us ≡ ok s
      → AllUsers U s
  unfolding collect new
  collect-Keeps b network now us {s} h e =
      collect_from-Keeps b (new b network now) us {s' = s} h tt e
