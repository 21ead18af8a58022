-- ===== src/Tests/Rows.antt =====
-- Rows of the table of updates.
use mathlib.Core.Path.{subst}
use hexstody.Prelude.{◌≡◌, refl, ◌⊎◌, inl, inr, List, [], ◌∷◌, String}
use hexstody.Prelude.Fallible.{Fallible, ok, err, ok_injective}
use hexstody.Update.Body.{UpdateBody, StateUpdate}
use hexstody.Update.Misc.{InviteRec}
use hexstody.Update.Tag.{to_string, tag}
use hexstody.Update.Row.{Codec, Serde, Row, insert_update, json}
use hexstody.State.Core.{State, Draw}
use hexstody.Db.Query.{query_updates}
use hexstody.Db.Rows.{query_rows, insert_all, query_rows-insert_all}
use hexstody.Tests.Data.{state}

-- A serializer for invites and snapshots only.
abbrev Value : Type 0
Value = InviteRec ⊎ State

abbrev no_codec : {A : Type 0} → Codec Value String A
no_codec = record {
  to_value = λ a. err "unsupported";
  from_value = λ v. err "unsupported";
  round_trip = λ a v h. cc;
}

abbrev read_invite : Value → Fallible String InviteRec
read_invite (inl r) = ok r
read_invite (inr s) = err "not an invite"

abbrev read_state : Value → Fallible String State
read_state (inl r) = err "not a state"
read_state (inr s) = ok s

abbrev invite_codec : Codec Value String InviteRec
invite_codec = record {
  to_value = λ a. ok (inl a);
  from_value = read_invite;
  round_trip = λ a v h. subst (λ x. read_invite x ≡ ok a) (ok_injective h) refl;
}

abbrev snapshot_codec : Codec Value String State
snapshot_codec = record {
  to_value = λ a. ok (inr a);
  from_value = read_state;
  round_trip = λ a v h. subst (λ x. read_state x ≡ ok a) (ok_injective h) refl;
}

abbrev serde : Serde Value String
serde = record {
  signup = no_codec;
  snapshot = snapshot_codec;
  create_withdrawal_request = no_codec;
  withdrawal_request_decision = no_codec;
  withdrawal_request_complete = no_codec;
  withdrawal_request_node_rejected = no_codec;
  deposit_address = no_codec;
  best_btc_block = no_codec;
  update_btc_tx = no_codec;
  cancel_btc_tx = no_codec;
  update_tokens = no_codec;
  gen_invite = invite_codec;
  limits_change_request = no_codec;
  cancel_limit_change = no_codec;
  limit_change_decision = no_codec;
  clear_limits = no_codec;
  set_language = no_codec;
  config_update = no_codec;
  password_change = no_codec;
  set_public_key = no_codec;
  exchange_request = no_codec;
  exchange_decision = no_codec;
  exchange_address = no_codec;
}

abbrev draw : Draw
draw = record { new_v4 = 1; now = "now" }

abbrev invite_rec : InviteRec
invite_rec = record { invite = record { invite = 5 }; invitor = "operator"; label = "friend" }

abbrev history : List (Draw × StateUpdate)
history =
    (draw, record { created = 3; body = UpdateBody.gen_invite invite_rec })
    ∷ (draw, record { created = 2; body = UpdateBody.snapshot state })
    ∷ (draw, record { created = 1; body = UpdateBody.gen_invite invite_rec })
    ∷ []

abbrev rows : List (Draw × Row Value)
rows =
    (draw, record { created = 3; version = 0; tag = "gen invite"; body = inl invite_rec })
    ∷ (draw, record { created = 2; version = 0; tag = "snapshot"; body = inr state })
    ∷ (draw, record { created = 1; version = 0; tag = "gen invite"; body = inl invite_rec })
    ∷ []

written : insert_all serde 9 history ≡ ok rows
unfolding insert_all insert_update json tag to_string
written = refl

query_rows-insert_all_example : query_rows serde (λ text. text) rows ≡ ok (query_updates history)
query_rows-insert_all_example =
    query_rows-insert_all serde (λ text. text) 9 history (λ t. refl) rows written
