-- ===== src/Db/Worker.antt =====
-- `update_worker` of hexstody-db/src/lib.rs.
pub mod Recovery
use hexstody.Prelude.{ℕ, suc, Bool, true, false, List, [], ◌∷◌, ◌++◌, Option, none, some}
use hexstody.Update.Body.{StateUpdate}
use hexstody.State.Core.{State, Bitcoin, Draw, Result, ok, err}
use hexstody.State.Withdrawals.{UpdateResult}
use hexstody.State.Apply.{apply_update}

-- The shared state, the rows that the worker has inserted (oldest first), the results that it has
-- sent, and how often it has notified.
pub record Worker : Type 0 where
  pub state : State
  pub rows : List StateUpdate
  pub sent : List UpdateResult
  pub notified : ℕ

-- An update from the channel, with what the step draws and whether the insertion succeeds.
pub record Received : Type 0 where
  pub update : StateUpdate
  pub draw : Draw
  pub stored : Bool

abbrev with_result : Option UpdateResult → List UpdateResult → List UpdateResult
with_result none sent = sent
with_result (some r) sent = sent ++ r ∷ []

abbrev commit : Bool → StateUpdate → Result (Option UpdateResult) × State → Worker → Worker
commit stored update (err e, copy) w = w
commit false update (ok res, copy) w = w
commit true update (ok res, copy) w = record {
  state = copy;
  rows = w.rows ++ update ∷ [];
  sent = with_result res w.sent;
  notified = suc w.notified;
}

-- One round: the update is applied to a copy, which replaces the state once the row is stored.
unfoldable pub receive : Bitcoin → Received → Worker → Worker
receive b i w = commit i.stored i.update (apply_update b i.draw i.update w.state) w

unfoldable pub run : Bitcoin → List Received → Worker → Worker
unfolding receive
run b [] w = w
run b (i ∷ rest) w = run b rest (receive b i w)
