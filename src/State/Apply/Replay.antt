-- ===== src/State/Apply/Replay.antt =====
-- Replaying updates: chains, snapshots, and what depends on the draws.
use hexstody.Prelude.{List, [], ◌∷◌, ◌++◌, ◌≡◌, refl, Bool, true, false, Option, sym, ◌∙◌}
use hexstody.Update.Body.{UpdateBody, StateUpdate, body_is_snapshot}
use hexstody.State.Core.{State, Bitcoin, Draw, Result, ok, err}
use hexstody.State.Withdrawals.{UpdateResult}
use hexstody.State.Apply.{apply_body, apply_update, collect_from, continue}

-- The state after a chain, handed on.
abbrev pub and_then : Result State → (State → Result State) → Result State
and_then (ok s) k = k s
and_then (err e) k = err e

continue-and_then :
    (r : Result (Option UpdateResult) × State) (k h : State → Result State)
    → continue r (λ s. and_then (k s) h) ≡ and_then (continue r k) h
continue-and_then (ok res, s) k h = refl
continue-and_then (err e, s) k h = refl

-- Collecting two chains of updates one after the other is collecting the first and then, from the
-- state that it gives, the second, with the first error of either.
pub collect_from-append :
    (b : Bitcoin) (s : State) (xs ys : List (Draw × StateUpdate))
    → collect_from b s (xs ++ ys) ≡ and_then (collect_from b s xs) (λ s'. collect_from b s' ys)
unfolding collect_from
collect_from-append b s [] ys = refl
collect_from-append b s ((d, u) ∷ xs) ys =
    simp (λ (s' : State). collect_from-append b s' xs ys)
      (continue-and_then (apply_update b d u s) (λ s'. collect_from b s' xs)
        (λ s'. collect_from b s' ys))

-- The kind of update that draws a fresh id and the time while it is applied.
abbrev pub draws : UpdateBody → Bool
draws (UpdateBody.limits_change_request req) = true
draws _ = false

-- The result of an update that is not a request for a limit change depends on neither the fresh id
-- nor the time that may be drawn while it is applied.
pub apply_update-draw :
    (b : Bitcoin) (d e : Draw) (u : StateUpdate) (s : State)
    → draws u.body ≡ false
    → apply_update b d u s ≡ apply_update b e u s
unfolding apply_update
apply_update-draw b d e u s h = go u.body h
  where
    go :
        (body : UpdateBody)
        → draws body ≡ false
        → apply_body b d u.created body s ≡ apply_body b e u.created body s
    go (UpdateBody.limits_change_request req) p = cc
    go _ p = refl

-- A snapshot gives the same state whatever was there before.
pub apply_update-snapshot :
    (b : Bitcoin) (d : Draw) (u : StateUpdate) (s t : State)
    → body_is_snapshot u.body ≡ true
    → apply_update b d u s ≡ apply_update b d u t
unfolding apply_update
apply_update-snapshot b d u s t h = go u.body h
  where
    go :
        (body : UpdateBody)
        → body_is_snapshot body ≡ true
        → apply_body b d u.created body s ≡ apply_body b d u.created body t
    go (UpdateBody.snapshot s') p = refl
    go _ p = cc

pub and_then-eq-ok :
    (r : Result State) (k : State → Result State) {s : State}
    → and_then r k ≡ ok s
    → (s' : State) × (r ≡ ok s') × (k s' ≡ ok s)
and_then-eq-ok (ok s') k h = (s', refl, h)
and_then-eq-ok (err e) k h = cc

-- If a chain of updates with a snapshot in it can be collected from one state, then collecting from
-- any other state, beginning with that snapshot, gives the same result.
pub collect_from-snapshot :
    (b : Bitcoin) (s t : State) (d : Draw) (u : StateUpdate) (xs ys : List (Draw × StateUpdate))
    {r : State}
    → body_is_snapshot u.body ≡ true
    → collect_from b s (xs ++ (d, u) ∷ ys) ≡ ok r
    → collect_from b t ((d, u) ∷ ys) ≡ ok r
unfolding collect_from
collect_from-snapshot b s t d u xs ys {r} snap h =
    let (s', _, e) =
      and_then-eq-ok (collect_from b s xs) (λ s'. collect_from b s' ((d, u) ∷ ys))
        (sym (collect_from-append b s xs ((d, u) ∷ ys)) ∙ h) in
    rw (apply_update-snapshot b d u t s' snap) e
