-- ===== src/State/Apply/Atomic.antt =====
-- What an update leaves behind when it fails.
use hexstody.Prelude.{Bool, true, false, ◌≡◌, arith}
use hexstody.Domain.Types.{NaiveDateTime}
use hexstody.Update.Body.{UpdateBody, StateUpdate}
use hexstody.State.Core.{State, Bitcoin, Draw, Result, ok, err}
use hexstody.State.Accounts.{
  with_signup, gen_invite, with_deposit_address, update_tokens, set_language, update_user_config,
  change_password, set_user_public_key,
}
use hexstody.State.Withdrawals.{
  with_new_withdrawal_request, with_request, with_withdrawal_request_decision,
  set_withdrawal_request_completed, set_withdrawal_request_node_rejected,
}
use hexstody.State.Limits.{
  insert_limits_req, cancel_limit_change, with_limit_change_decision, clear_limits,
}
use hexstody.State.Orders.{add_exchange_request, apply_exchange_decision, set_exchange_address}
use hexstody.State.Chain.{with_btc_tx_update, with_btc_tx_cancel, with_best_btc_block}
use hexstody.State.Apply.{apply_body, apply_update}

-- A failure of the handler leaves the state as it was.
abbrev pub IsAtomic : {A : Type 0} → Result A × State → State → Type 0
IsAtomic (ok a, s') s = Unit
IsAtomic (err e, s') s = s' ≡ s

with_signup-IsAtomic :
    (t : NaiveDateTime) (info : _) (s : State) → IsAtomic (with_signup t info s) s
unfolding with_signup
with_signup-IsAtomic t info s = ground arith

with_deposit_address-IsAtomic : (dep : _) (s : State) → IsAtomic (with_deposit_address dep s) s
unfolding with_deposit_address
with_deposit_address-IsAtomic dep s = ground arith

update_tokens-IsAtomic : (upd : _) (s : State) → IsAtomic (update_tokens upd s) s
unfolding update_tokens
update_tokens-IsAtomic upd s = ground arith

decision-IsAtomic : (d : _) (s : State) → IsAtomic (with_withdrawal_request_decision d s) s
unfolding with_request with_withdrawal_request_decision
decision-IsAtomic d s = ground arith

new_request-IsAtomic :
    (t : NaiveDateTime) (info : _) (s : State) → IsAtomic (with_new_withdrawal_request t info s) s
unfolding with_new_withdrawal_request
new_request-IsAtomic t info s = ground arith

limit_decision-IsAtomic : (lcd : _) (s : State) → IsAtomic (with_limit_change_decision lcd s) s
unfolding with_limit_change_decision
limit_decision-IsAtomic lcd s = ground arith

apply_exchange_decision-IsAtomic :
    (req : _) (s : State) → IsAtomic (apply_exchange_decision req s) s
unfolding apply_exchange_decision
apply_exchange_decision-IsAtomic req s = ground arith

with_btc_tx_update-IsAtomic :
    (b : Bitcoin) (tx : _) (s : State) → IsAtomic (with_btc_tx_update b tx s) s
unfolding with_btc_tx_update
with_btc_tx_update-IsAtomic b tx s = ground arith

with_btc_tx_cancel-IsAtomic :
    (b : Bitcoin) (tx : _) (s : State) → IsAtomic (with_btc_tx_cancel b tx s) s
unfolding with_btc_tx_cancel
with_btc_tx_cancel-IsAtomic b tx s = ground arith

-- Updates that are made in one step.
abbrev pub one_step : UpdateBody → Bool
one_step (UpdateBody.exchange_decision req) = false
one_step _ = true

apply_body-IsAtomic :
    (b : Bitcoin) (d : Draw) (t : NaiveDateTime) (body : UpdateBody) (s : State)
    → one_step body ≡ true
    → IsAtomic (apply_body b d t body s) s
unfolding apply_body
apply_body-IsAtomic b d t (UpdateBody.signup info) s h =
    ground (arith, with_signup-IsAtomic t info s)
apply_body-IsAtomic b d t (UpdateBody.create_withdrawal_request req) s h =
    ground (arith, new_request-IsAtomic t req s)
apply_body-IsAtomic b d t (UpdateBody.withdrawal_request_decision req) s h =
    ground (arith, decision-IsAtomic req s)
apply_body-IsAtomic b d t (UpdateBody.deposit_address req) s h =
    ground (arith, with_deposit_address-IsAtomic req s)
apply_body-IsAtomic b d t (UpdateBody.update_btc_tx req) s h =
    ground (arith, with_btc_tx_update-IsAtomic b req s)
apply_body-IsAtomic b d t (UpdateBody.cancel_btc_tx req) s h =
    ground (arith, with_btc_tx_cancel-IsAtomic b req s)
apply_body-IsAtomic b d t (UpdateBody.update_tokens req) s h =
    ground (arith, update_tokens-IsAtomic req s)
apply_body-IsAtomic b d t (UpdateBody.limit_change_decision req) s h =
    ground (arith, limit_decision-IsAtomic req s)
apply_body-IsAtomic b d t (UpdateBody.gen_invite req) s h = unfold gen_invite in ground arith
apply_body-IsAtomic b d t (UpdateBody.limits_change_request req) s h =
    unfold insert_limits_req in ground arith
apply_body-IsAtomic b d t (UpdateBody.cancel_limit_change req) s h =
    unfold cancel_limit_change in ground arith
apply_body-IsAtomic b d t (UpdateBody.set_language req) s h = unfold set_language in ground arith
apply_body-IsAtomic b d t (UpdateBody.config_update req) s h =
    unfold update_user_config in ground arith
apply_body-IsAtomic b d t (UpdateBody.password_change req) s h =
    unfold change_password in ground arith
apply_body-IsAtomic b d t (UpdateBody.set_public_key req) s h =
    unfold set_user_public_key in ground arith
apply_body-IsAtomic b d t (UpdateBody.exchange_request req) s h =
    unfold add_exchange_request in ground arith
apply_body-IsAtomic b d t body s h =
    unfold set_withdrawal_request_completed set_withdrawal_request_node_rejected with_best_btc_block
      clear_limits set_exchange_address in
    ground arith

-- An update that fails leaves the state exactly as it was, unless it is a decision on an exchange
-- order.
pub apply_update-IsAtomic :
    (b : Bitcoin) (d : Draw) (u : StateUpdate) (s : State)
    → one_step u.body ≡ true
    → IsAtomic (apply_update b d u s) s
unfolding apply_update
apply_update-IsAtomic b d u s h = apply_body-IsAtomic b d u.created u.body s h
