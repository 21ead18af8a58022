-- ===== src/Db/Worker/Recovery.antt =====
-- The state that the worker has in memory, and the one that a restart reads from the database.
use hexstody.Prelude.{List, [], ◌∷◌, map, ◌<◌, ◌≡◌, arith, ==_refl, string_eq, some, true, All}
use hexstody.Domain.Types.{NaiveDateTime}
use hexstody.Update.Body.{StateUpdate}
use hexstody.State.Core.{State, Bitcoin, Draw, Network, ok, err, new}
use hexstody.State.Apply.{apply_update, collect_from, collect}
use hexstody.Prelude.Dict.{lookup, insert, remove, contains_key}
use hexstody.Update.Body.{UpdateBody}
use hexstody.Update.Misc.{InviteRec}
use hexstody.Update.Signup.{SignupInfo}
use hexstody.State.Core.{invite_eq, invite_not_found}
use hexstody.State.User.{user_from}
use hexstody.State.Accounts.{gen_invite, with_signup}
use hexstody.State.Apply.{apply_body}
use hexstody.Db.Query.{query_state, query_table, query_updates, order_by_created}
use hexstody.Db.Worker.{Worker, Received, receive, run}

-- The rows as they are replayed later, with a draw of that later time.
abbrev pub replayed : Draw → List StateUpdate → List (Draw × StateUpdate)
replayed d = map (λ u. (d, u))

abbrev pub IsRecoverable : Bitcoin → State → Draw → Worker → Type 0
IsRecoverable b s d w = collect_from b s (replayed d w.rows) ≡ ok w.state

-- The worker at the start of the program.
abbrev pub start : Bitcoin → Network → NaiveDateTime → Worker
start b network now = record { state = new b network now; rows = []; sent = []; notified = 0 }

-- The updates are received in the order of their times.
abbrev pub IsInOrder : List Received → Type 0
IsInOrder [] = Unit
IsInOrder (i ∷ rest) = All (λ j. i.update.created < j.update.created) rest × IsInOrder rest

abbrev PrecedesAll : List Received → StateUpdate → Type 0
PrecedesAll is u = All (λ i. u.created < i.update.created) is

module _ (created : NaiveDateTime) (draw : Draw) where
  abbrev invited : InviteRec → Received
  invited inv = record {
    update = record { created = created; body = UpdateBody.gen_invite inv };
    draw = draw;
    stored = true;
  }

  abbrev signed_up : SignupInfo → Received
  signed_up info = record {
    update = record { created = created; body = UpdateBody.signup info };
    draw = draw;
    stored = true;
  }

-- An invite that is received before a sign-up with an earlier time is read back behind it: the
-- worker accepts both, but the table gives an error.
query_table_reorders :
    (b : Bitcoin) (network : Network) (now sent later : NaiveDateTime) (d : Draw) (inv : InviteRec)
    (info : SignupInfo)
    → sent < later
    → info.invite ≡ inv.invite
    → let w = run b (invited later d inv ∷ signed_up sent d info ∷ []) (start b network now) in
      (lookup info.username w.state.users ≡ some (user_from sent info))
      × (query_table b network now (replayed d w.rows) ≡ err invite_not_found)
unfolding query_table query_state query_updates order_by_created collect collect_from run receive
    apply_update apply_body gen_invite with_signup new lookup insert remove contains_key
query_table_reorders b network now sent later d inv info before same =
    ground (arith, ==_refl inv.invite, ==_refl info.username)
