-- ===== src/Db/Query/Sound.antt =====
-- Reading back to the last snapshot gives the state of the whole history.
use mathlib.Core.List.{reverse, reverse-cons}
use hexstody.Prelude.{
  List, [], ◌∷◌, ◌++◌, ◌≡◌, ◌∙◌, ap, Bool-cases, inl, inr, append_assoc, append-nil,
}
use hexstody.Domain.Types.{NaiveDateTime}
use hexstody.Update.Body.{StateUpdate, body_is_snapshot}
use hexstody.State.Core.{State, Bitcoin, Draw, Network, ok, new}
use hexstody.State.Apply.{collect_from, collect}
use hexstody.State.Apply.Replay.{collect_from-snapshot}
use hexstody.Db.Query.{query_updates, query_state}

reverse_onto {ℓ} :
    {A : Type ℓ} (x : A) (xs ys : List A) → reverse (x ∷ xs) ++ ys ≡ reverse xs ++ x ∷ ys
reverse_onto x xs ys =
    ap (λ zs. zs ++ ys) (reverse-cons x xs) ∙ append_assoc (reverse xs) (x ∷ []) ys

module _ (b : Bitcoin) (s : State) where
  query_updates-collect :
      (rows later : List (Draw × StateUpdate)) {r : State}
      → collect_from b s (reverse rows ++ later) ≡ ok r
      → collect_from b s (reverse (query_updates rows) ++ later) ≡ ok r
  unfolding query_updates
  query_updates-collect [] later h = h
  query_updates-collect ((d, u) ∷ rest) later {r} h = elim (Bool-cases (body_is_snapshot u.body)) [
    | inl snap ↦
        rw (query_updates, snap) (collect_from-snapshot b s s d u (reverse rest) later snap whole)
    | inr plain ↦
        rw (query_updates, plain, reverse_onto (d, u) (query_updates rest) later)
          (query_updates-collect rest ((d, u) ∷ later) whole)
  ]
    where
      whole : collect_from b s (reverse rest ++ (d, u) ∷ later) ≡ ok r
      whole = rw (reverse_onto (d, u) rest later) at h

-- If the rows of the whole history, oldest first, can be collected to a state, then `query_state`,
-- which reads the rows newest first and stops behind the first snapshot, gives that state too.
pub query_state-collect :
    (b : Bitcoin) (network : Network) (now : NaiveDateTime) (rows : List (Draw × StateUpdate))
    {r : State}
    → collect b network now (reverse rows) ≡ ok r
    → query_state b network now rows ≡ ok r
unfolding query_state collect
query_state-collect b network now rows {r} h =
    rw append-nil at (query_updates-collect b (new b network now) rows [] {r = r} (rw append-nil h))
