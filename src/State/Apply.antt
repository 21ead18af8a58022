-- ===== src/State/Apply.antt =====
-- `State::apply_update` and `State::collect` of hexstody-db/src/state/mod.rs.
pub mod Replay
pub mod Atomic
pub mod Kept
pub mod Halves
use hexstody.Prelude.{List, [], ◌∷◌, Option, none, some, Bool, true, false}
use mathlib.Core.Option
use hexstody.Domain.Types.{NaiveDateTime}
use hexstody.Update.Body.{UpdateBody, StateUpdate}
use hexstody.State.Core.{
  State, Bitcoin, Draw, Network, new, Handler, Result, ok, err, ◌>>=◌, ◌>>◌, pure,
}
use hexstody.State.Exchange.{ExchangeDecision}
use hexstody.State.Accounts
use hexstody.State.Withdrawals
use hexstody.State.Withdrawals.{UpdateResult, withdraw_confirmed}
use hexstody.State.Limits
use hexstody.State.Orders
use hexstody.State.Chain

-- `self.last_changed = update.created`, with the result of the handler
abbrev touch : {A : Type 0} → NaiveDateTime → A → Handler A
touch created a s = (ok a, record s { last_changed = created })

abbrev settled : NaiveDateTime → Result (Unit {0}) × State → Result (Option UpdateResult) × State
settled created (ok x, s) = touch created none s
settled created (err e, s) = (err e, s)

abbrev quiet : NaiveDateTime → Handler (Unit {0}) → Handler (Option UpdateResult)
quiet created m s = settled created (m s)

abbrev replace_state : State → Handler (Unit {0})
replace_state s' s = (ok tt, s')

-- The balance of the target currency is a second step, which may fail after the first has been
-- made.
abbrev credit_if : Bool → ExchangeDecision → Handler (Unit {0})
credit_if true req = Orders.add_incoming_exchange req
credit_if false req = pure tt

unfoldable pub exchange_decision : ExchangeDecision → Handler (Unit {0})
exchange_decision req = do b ← Orders.apply_exchange_decision req; credit_if b req

unfoldable pub apply_body :
    Bitcoin → Draw → NaiveDateTime → UpdateBody → Handler (Option UpdateResult)
apply_body b draw t (UpdateBody.signup info) = quiet t (Accounts.with_signup t info)
apply_body b draw t (UpdateBody.snapshot s) = quiet t (replace_state s)
apply_body b draw t (UpdateBody.create_withdrawal_request req) = do
  res ← Withdrawals.with_new_withdrawal_request t req
  touch t res
apply_body b draw t (UpdateBody.withdrawal_request_decision d) = do
  res ← Withdrawals.with_withdrawal_request_decision d
  touch t (Option.map withdraw_confirmed res)
apply_body b draw t (UpdateBody.withdrawal_request_complete info) =
    quiet t (Withdrawals.set_withdrawal_request_completed info)
apply_body b draw t (UpdateBody.withdrawal_request_node_rejected info) =
    quiet t (Withdrawals.set_withdrawal_request_node_rejected info)
apply_body b draw t (UpdateBody.deposit_address dep) = quiet t (Accounts.with_deposit_address dep)
apply_body b draw t (UpdateBody.best_btc_block btc) = quiet t (Chain.with_best_btc_block btc)
apply_body b draw t (UpdateBody.update_btc_tx tx) = quiet t (Chain.with_btc_tx_update b tx)
apply_body b draw t (UpdateBody.cancel_btc_tx tx) = quiet t (Chain.with_btc_tx_cancel b tx)
apply_body b draw t (UpdateBody.update_tokens upd) = quiet t (Accounts.update_tokens upd)
apply_body b draw t (UpdateBody.gen_invite req) = quiet t (Accounts.gen_invite req)
apply_body b draw t (UpdateBody.limits_change_request req) =
    quiet t (Limits.insert_limits_req draw req)
apply_body b draw t (UpdateBody.cancel_limit_change req) = quiet t (Limits.cancel_limit_change req)
apply_body b draw t (UpdateBody.limit_change_decision lcd) =
    quiet t (Limits.with_limit_change_decision lcd)
apply_body b draw t (UpdateBody.clear_limits span) = quiet t (Limits.clear_limits span)
apply_body b draw t (UpdateBody.set_language req) = quiet t (Accounts.set_language req)
apply_body b draw t (UpdateBody.config_update req) = quiet t (Accounts.update_user_config req)
apply_body b draw t (UpdateBody.password_change req) = quiet t (Accounts.change_password req)
apply_body b draw t (UpdateBody.set_public_key req) = quiet t (Accounts.set_user_public_key req)
apply_body b draw t (UpdateBody.exchange_request req) = quiet t (Orders.add_exchange_request req)
apply_body b draw t (UpdateBody.exchange_decision req) = quiet t (exchange_decision req)
apply_body b draw t (UpdateBody.exchange_address req) = quiet t (Orders.set_exchange_address req)

unfoldable pub apply_update : Bitcoin → Draw → StateUpdate → Handler (Option UpdateResult)
unfolding apply_body
apply_update b draw update = apply_body b draw update.created update.body

-- One round of a loop over updates: an error ends it.
abbrev pub continue : Result (Option UpdateResult) × State → (State → Result State) → Result State
continue (ok res, s') k = k s'
continue (err e, s') k = err e

-- The loop of `collect` from a state; each update is replayed with a draw of its own.
unfoldable pub collect_from : Bitcoin → State → List (Draw × StateUpdate) → Result State
collect_from b s [] = ok s
collect_from b s ((draw, upd) ∷ rest) =
    continue (apply_update b draw upd s) (λ s'. collect_from b s' rest)

unfoldable pub collect :
    Bitcoin → Network → NaiveDateTime → List (Draw × StateUpdate) → Result State
collect b network now updates = collect_from b (new b network now) updates
