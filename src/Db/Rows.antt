-- ===== src/Db/Rows.antt =====
-- `query_updates` of hexstody-db/src/queries.rs on the rows of the table: each row is parsed as it is
-- reached, and the first that does not parse ends the query.
use hexstody.Prelude.{◌≡◌, refl, sym, List, [], ◌∷◌, some, String, arith, if◌then◌else◌, inl, inr}
use hexstody.Prelude.Fallible.{Fallible, ok, ◌>>=◌, Fallible-cases, ok_injective}
use hexstody.Domain.Types.{NaiveDateTime}
use hexstody.Update.Body.{StateUpdate, UpdateBody, body_is_snapshot}
use hexstody.Update.Tag.{UpdateTag, UpdateBodyError, to_string, tag}
use hexstody.Update.Row.{Serde, Row, from_tag, insert_update, from_tag-insert_update}
use hexstody.State.Core.{Draw}
use hexstody.Db.Query.{query_updates}

module _ {Value Error : Type 0} (s : Serde Value Error) where
  -- One turn of the loop, up to the item.
  unfoldable parse_row :
      (String → String) → Row Value → Fallible (UpdateBodyError Value Error) StateUpdate
  unfolding from_tag
  parse_row lower r = do
    body ← from_tag s lower r.tag r.version r.body
    ok (record { created = r.created; body = body })

  unfoldable pub query_rows :
      (String → String)
      → List (Draw × Row Value)
      → Fallible (UpdateBodyError Value Error) (List (Draw × StateUpdate))
  unfolding parse_row
  query_rows lower [] = ok []
  query_rows lower ((draw, r) ∷ rest) =
      let older = query_rows lower rest in
      do
        item ← parse_row lower r
        if body_is_snapshot item.body
            then ok ((draw, item) ∷ [])
            else do parsed ← older; ok ((draw, item) ∷ parsed)

  -- The rows that `insert_update` wrote for a history, each update at its own time.
  unfoldable pub insert_all :
      NaiveDateTime → List (Draw × StateUpdate) → Fallible Error (List (Draw × Row Value))
  unfolding insert_update
  insert_all clock [] = ok []
  insert_all clock ((draw, upd) ∷ rest) =
      let older = insert_all clock rest in
      do
        row ← insert_update s upd.body (some upd.created) clock
        rows ← older
        ok ((draw, row) ∷ rows)

  created-insert_update :
      (u : UpdateBody) (at clock : NaiveDateTime) (row : Row Value)
      → insert_update s u (some at) clock ≡ ok row
      → row.created ≡ at
  unfolding insert_update
  created-insert_update u at clock row h = ground arith

  parse_row-insert_update :
      (lower : String → String) (upd : StateUpdate) (clock : NaiveDateTime)
      → lower (to_string (tag upd.body)) ≡ to_string (tag upd.body)
      → (row : Row Value) → insert_update s upd.body (some upd.created) clock ≡ ok row
      → parse_row lower row ≡ ok upd
  unfolding parse_row
  parse_row-insert_update lower upd clock small row h =
      rw
        (
          parse_row,
          from_tag-insert_update s lower upd.body (some upd.created) clock small row h,
          created-insert_update upd.body upd.created clock row h,
        )
        refl

  -- If every tag is its own text in lower case, then the rows that are inserted for any updates,
  -- newest first, are read back as those updates, up to and with the first snapshot among them.
  pub query_rows-insert_all :
      (lower : String → String) (clock : NaiveDateTime) (history : List (Draw × StateUpdate))
      → ((t : UpdateTag) → lower (to_string t) ≡ to_string t)
      → (rows : List (Draw × Row Value)) → insert_all clock history ≡ ok rows
      → query_rows lower rows ≡ ok (query_updates history)
  unfolding query_rows insert_all query_updates
  query_rows-insert_all lower clock [] small rows h = rw (sym (ok_injective h)) refl
  query_rows-insert_all lower clock ((draw, upd) ∷ rest) small rows h =
      elim (Fallible-cases (insert_update s upd.body (some upd.created) clock)) [
        | inl (row, written) ↦ elim (Fallible-cases (insert_all clock rest)) [
          | inl (older, all) ↦
              let here =
                parse_row-insert_update lower upd clock (small (tag upd.body)) row written in
              let there = query_rows-insert_all lower clock rest small older all in
              let same : ((draw, row) ∷ older) ≡ rows =
                ok_injective (rw (insert_all, written, all) at h) in
              rw (sym same, query_rows, here, there, query_updates) (ground arith)
          | inr (e, failed) ↦ ground arith
        ]
        | inr (e, failed) ↦ ground arith
      ]
