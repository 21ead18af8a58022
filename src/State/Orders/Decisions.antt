-- ===== src/State/Orders/Decisions.antt =====
-- What operators decide about exchange orders.
use hexstody.Prelude.{◌≡◌, refl, Bool, true, false, [], ◌∷◌, arith, nat_eq}
use hexstody.Prelude.Int.{pos, ◌+ℤ◌, ◌-ℤ◌}
use hexstody.Prelude.Words.{add_i16, sub_i16, wrap}
use hexstody.Domain.Types.{DecisionType, confirm, reject, ExchangeStatus}
use hexstody.State.Exchange.{ExchangeOrder, ExchangeDecision, status_pending}
use hexstody.State.Core.{ok}
use hexstody.State.Orders.{confirm_order, reject_order, decide_order, order_signature}

-- A pending order has no signatures yet.
abbrev pub Untouched : ExchangeStatus → ExchangeOrder → Type 0
Untouched (ExchangeStatus.in_progress c r) order =
    (c ≡ pos 0) × (r ≡ pos 0) × (order.confirmations ≡ []) × (order.rejections ≡ [])
Untouched _ order = Unit

abbrev pub IsUntouched : ExchangeOrder → Type 0
IsUntouched order = Untouched order.status order

-- The status that one decision leads to.
abbrev pub verdict : DecisionType → ExchangeStatus
verdict confirm = ExchangeStatus.completed
verdict reject = ExchangeStatus.rejected

abbrev pub completes : DecisionType → Bool
completes confirm = true
completes reject = false

module _ (req : ExchangeDecision) (order : ExchangeOrder) where
  -- A pending order without signatures is settled by the first decision: a confirmation completes
  -- it and a rejection rejects it, its amounts stay, and the signature of either decision is kept
  -- among the confirmations, never among the rejections.
  pub decide_order_settles :
      status_pending order.status ≡ true
      → IsUntouched order
      → (order' : ExchangeOrder) × (decide_order req order ≡ ok (completes req.decision, order'))
        × (order'.status ≡ verdict req.decision)
        × (order'.confirmations ≡ order_signature req ∷ [])
        × (order'.rejections ≡ [])
        × (order'.amount_from ≡ order.amount_from)
        × (order'.amount_to ≡ order.amount_to)
  unfolding decide_order confirm_order reject_order add_i16 sub_i16 wrap ◌+ℤ◌ ◌-ℤ◌
  decide_order_settles pending untouched = (
    record order {
      status = verdict req.decision;
      confirmations = order_signature req ∷ [];
      rejections = [];
    },
    ground arith,
    refl,
    refl,
    refl,
    refl,
    refl,
  )
