-- ===== src/Db/Query/Order.antt =====
-- The order of rows by their times, against the order of their insertion.
use mathlib.Core.List.{reverse, reverse-cons}
use hexstody.Prelude.{◌<◌, ◌≡◌, refl, sym, ◌∙◌, List, [], ◌∷◌, ◌++◌, All, All-append, arith}
use hexstody.Update.Body.{StateUpdate}
use hexstody.State.Core.{Draw}
use hexstody.Db.Query.{insert_by_created, order_by_created}

-- Each row is older than all that follow it.
abbrev pub IsChronological : List (Draw × StateUpdate) → Type 0
IsChronological [] = Unit
IsChronological (row ∷ rest) =
    All (λ next. row.1.created < next.1.created) rest × IsChronological rest

insert_by_created-oldest :
    (row : Draw × StateUpdate) (rows : List (Draw × StateUpdate))
    → All (λ next. row.1.created < next.1.created) rows
    → insert_by_created row rows ≡ rows ++ row ∷ []
insert_by_created-oldest row [] h = refl
insert_by_created-oldest row (next ∷ rest) h =
    ground (arith, h.0, insert_by_created-oldest row rest h.1)

All-reverse :
    (P : Draw × StateUpdate → Type 0) (rows : List (Draw × StateUpdate))
    → All P rows
    → All P (reverse rows)
All-reverse P [] h = tt
All-reverse P (row ∷ rest) h =
    rw (reverse-cons row rest) (All-append P (reverse rest) row (All-reverse P rest h.1) h.0)

pub order_by_created-reverse :
    (table : List (Draw × StateUpdate))
    → IsChronological table
    → order_by_created table ≡ reverse table
unfolding order_by_created
order_by_created-reverse [] h = refl
order_by_created-reverse (row ∷ rest) h =
    rw (order_by_created, order_by_created-reverse rest h.1)
      (insert_by_created-oldest row (reverse rest)
          (All-reverse (λ next. row.1.created < next.1.created) rest h.0)
        ∙ sym (reverse-cons row rest))
