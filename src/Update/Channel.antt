-- ===== src/Update/Channel.antt =====
-- The `mpsc` channel by which the services hand updates to the worker of hexstody-db/src/lib.rs.
use hexstody.Prelude.{Bool, List}
use hexstody.Update.Body.{StateUpdate}

-- The channel to the worker that applies updates: whether it still listens, and what it was sent.
pub record Channel : Type 0 where
  pub listens : Bool
  pub sent : List StateUpdate
