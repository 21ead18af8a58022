-- ===== src/Db/Query.antt =====
-- `query_updates` and `query_state` of hexstody-db/src/queries.rs.
pub mod Order
pub mod Sound
use mathlib.Core.List.{reverse}
use hexstody.Prelude.{Bool, true, false, List, [], ◌∷◌, ltb, if◌then◌else◌}
use hexstody.Domain.Types.{NaiveDateTime}
use hexstody.Update.Body.{StateUpdate, body_is_snapshot}
use hexstody.State.Core.{State, Bitcoin, Draw, Network, Result}
use hexstody.State.Apply.{collect}

-- The loop over the rows, newest first: it stops behind a snapshot.
unfoldable pub query_updates : List (Draw × StateUpdate) → List (Draw × StateUpdate)
query_updates [] = []
query_updates ((draw, upd) ∷ rest) =
    let older = query_updates rest in
    if body_is_snapshot upd.body then (draw, upd) ∷ [] else (draw, upd) ∷ older

-- The state from the rows that `order by created desc` gives.
unfoldable pub query_state :
    Bitcoin → Network → NaiveDateTime → List (Draw × StateUpdate) → Result State
unfolding query_updates
query_state b network now rows = collect b network now (reverse (query_updates rows))

-- `order by created desc`; of rows with the same time, whose order is the database's choice, the one
-- inserted first comes first.
abbrev pub insert_by_created :
    Draw × StateUpdate → List (Draw × StateUpdate) → List (Draw × StateUpdate)
insert_by_created row [] = row ∷ []
insert_by_created row (next ∷ rest) =
    let later = insert_by_created row rest in
    if ltb row.1.created next.1.created then next ∷ later else row ∷ next ∷ rest

unfoldable pub order_by_created : List (Draw × StateUpdate) → List (Draw × StateUpdate)
order_by_created [] = []
order_by_created (row ∷ rest) = insert_by_created row (order_by_created rest)

-- The state from the table, whose rows are given in the order of their insertion.
unfoldable pub query_table :
    Bitcoin → Network → NaiveDateTime → List (Draw × StateUpdate) → Result State
unfolding query_state order_by_created
query_table b network now table = query_state b network now (order_by_created table)
