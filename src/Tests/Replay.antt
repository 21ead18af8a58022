-- ===== src/Tests/Replay.antt =====
-- Histories of updates, with a failing one, one that is not stored, and a snapshot.
use mathlib.Core.List.{reverse}
use hexstody.Prelude.{◌≡◌, refl, true, false, List, [], ◌∷◌}
use hexstody.Prelude.Dict.{lookup, insert}
use hexstody.Update.Body.{StateUpdate}
use hexstody.State.Core.{State, Draw, ok, new, mainnet}
use hexstody.State.Accounts.{gen_invite}
use hexstody.State.Chain.{with_best_btc_block}
use hexstody.State.Apply.{apply_update, apply_body, collect_from, collect}
use hexstody.State.Apply.Replay.{apply_update-snapshot, collect_from-snapshot}
use hexstody.State.Apply.Atomic.{IsAtomic, apply_update-IsAtomic}
use hexstody.Db.Query.{query_state}
use hexstody.Db.Query.Sound.{query_state-collect}
use hexstody.Db.Worker.{Received}
use hexstody.Tests.Data.{
  bitcoin, draw, state, invite_update, signup_update, block_update, snapshot_update,
}

abbrev later_draw : Draw
later_draw = record { new_v4 = 78; now = "tomorrow" }

-- The second sign-up fails, and the row of the first block is lost.
abbrev arrivals : List Received
arrivals =
    record { update = invite_update; draw = draw; stored = true }
    ∷ record { update = signup_update; draw = draw; stored = true }
    ∷ record { update = record signup_update { created = 3 }; draw = draw; stored = true }
    ∷ record { update = block_update; draw = draw; stored = false }
    ∷ record { update = record snapshot_update { created = 5 }; draw = draw; stored = true }
    ∷ record { update = record block_update { created = 6 }; draw = draw; stored = true }
    ∷ []

-- Newest first.
abbrev rows : List (Draw × StateUpdate)
rows = (draw, block_update) ∷ (draw, snapshot_update) ∷ (draw, invite_update) ∷ []

abbrev after : State
after = record state { last_changed = 4; btc_state = record { height = 8; block_hash = "8" } }

whole_history : collect bitcoin mainnet 0 (reverse rows) ≡ ok after
unfolding collect collect_from apply_update apply_body new gen_invite with_best_btc_block lookup
    insert
whole_history = refl

query_state-collect_example : query_state bitcoin mainnet 0 rows ≡ ok after
query_state-collect_example = query_state-collect bitcoin mainnet 0 rows {r = after} whole_history

from_snapshot :
    collect_from bitcoin state
      ((draw, invite_update) ∷ (draw, snapshot_update) ∷ (draw, block_update) ∷ [])
    ≡ ok after
unfolding collect_from apply_update apply_body gen_invite with_best_btc_block lookup insert
from_snapshot = refl

collect_from-snapshot_example :
    collect_from bitcoin after ((draw, snapshot_update) ∷ (draw, block_update) ∷ []) ≡ ok after
collect_from-snapshot_example =
    collect_from-snapshot bitcoin state after draw snapshot_update ((draw, invite_update) ∷ [])
      ((draw, block_update) ∷ []) {r = after} refl from_snapshot

apply_update-snapshot_example :
    apply_update bitcoin draw snapshot_update state
    ≡ apply_update bitcoin draw snapshot_update after
apply_update-snapshot_example = apply_update-snapshot bitcoin draw snapshot_update state after refl

apply_update-IsAtomic_example : IsAtomic (apply_update bitcoin draw signup_update state) state
apply_update-IsAtomic_example = apply_update-IsAtomic bitcoin draw signup_update state refl
