-- ===== src/Update/Row.antt =====
-- hexstody-db/src/update/mod.rs: the body of an update as the JSON of a row, and the row of
-- `insert_update` of hexstody-db/src/queries.rs. The JSON values and the derived conversions of the
-- payloads are serde's, and a parameter: a payload that is written is read back.
use hexstody.Prelude.{
  ℕ, ◌≡◌, refl, inl, inr, Option, none, some, String, arith, if◌then◌else◌, ◌==◌, nat_eq,
}
use hexstody.Prelude.Fallible.{Fallible, ok, err, map_err, map_ok, ◌>>=◌, Fallible-cases}
use hexstody.Domain.Types.{NaiveDateTime, LimitSpan}
use hexstody.Domain.Currency.{CurrencyAddress}
use hexstody.Update.Signup.{SignupInfo, DepositAddress}
use hexstody.Update.Withdrawal.{
  WithdrawalRequestInfo, WithdrawalRequestDecisionInfo, WithdrawCompleteInfo, WithdrawalRejectInfo,
}
use hexstody.Update.Limit.{LimitChangeUpd, LimitCancelData, LimitChangeDecision}
use hexstody.Update.Misc.{
  TokenUpdate, InviteRec, SetLanguage, ConfigUpdateData, PasswordChangeUpd, SetPublicKey,
}
use hexstody.Update.Btc.{BestBtcBlock, BtcTxCancel}
use hexstody.State.Transaction.{BtcTransaction}
use hexstody.State.Exchange.{ExchangeOrderUpd, ExchangeDecision}
use hexstody.State.Core.{State}
use hexstody.Update.Body.{UpdateBody}
use hexstody.Update.Tag.{UpdateTag, UpdateBodyError, tag, to_string, from_str, from_str-accepts}

-- `Serialize` and `Deserialize` of a payload, with the round trip that deriving both gives.
pub record Codec (Value Error A : Type 0) : Type 0 where
  pub to_value : A → Fallible Error Value
  pub from_value : Value → Fallible Error A
  pub round_trip : (a : A) (v : Value) → to_value a ≡ ok v → from_value v ≡ ok a

-- What serde_json has for the payloads.
pub record Serde (Value Error : Type 0) : Type 0 where
  pub signup : Codec Value Error SignupInfo
  pub snapshot : Codec Value Error State
  pub create_withdrawal_request : Codec Value Error WithdrawalRequestInfo
  pub withdrawal_request_decision : Codec Value Error WithdrawalRequestDecisionInfo
  pub withdrawal_request_complete : Codec Value Error WithdrawCompleteInfo
  pub withdrawal_request_node_rejected : Codec Value Error WithdrawalRejectInfo
  pub deposit_address : Codec Value Error DepositAddress
  pub best_btc_block : Codec Value Error BestBtcBlock
  pub update_btc_tx : Codec Value Error BtcTransaction
  pub cancel_btc_tx : Codec Value Error BtcTxCancel
  pub update_tokens : Codec Value Error TokenUpdate
  pub gen_invite : Codec Value Error InviteRec
  pub limits_change_request : Codec Value Error LimitChangeUpd
  pub cancel_limit_change : Codec Value Error LimitCancelData
  pub limit_change_decision : Codec Value Error LimitChangeDecision
  pub clear_limits : Codec Value Error LimitSpan
  pub set_language : Codec Value Error SetLanguage
  pub config_update : Codec Value Error ConfigUpdateData
  pub password_change : Codec Value Error PasswordChangeUpd
  pub set_public_key : Codec Value Error SetPublicKey
  pub exchange_request : Codec Value Error ExchangeOrderUpd
  pub exchange_decision : Codec Value Error ExchangeDecision
  pub exchange_address : Codec Value Error CurrencyAddress

abbrev pub current_body_version : ℕ
current_body_version = 0

-- A row of the table of updates.
pub record Row (Value : Type 0) : Type 0 where
  pub created : NaiveDateTime
  pub version : ℕ
  pub tag : String
  pub body : Value

module _ {Value Error : Type 0} (s : Serde Value Error) where
  unfoldable pub json : UpdateBody → Fallible Error Value
  json (UpdateBody.signup v) = s.signup.to_value v
  json (UpdateBody.snapshot v) = s.snapshot.to_value v
  json (UpdateBody.create_withdrawal_request v) = s.create_withdrawal_request.to_value v
  json (UpdateBody.withdrawal_request_decision v) = s.withdrawal_request_decision.to_value v
  json (UpdateBody.withdrawal_request_complete v) = s.withdrawal_request_complete.to_value v
  json (UpdateBody.withdrawal_request_node_rejected v) =
      s.withdrawal_request_node_rejected.to_value v
  json (UpdateBody.deposit_address v) = s.deposit_address.to_value v
  json (UpdateBody.best_btc_block v) = s.best_btc_block.to_value v
  json (UpdateBody.update_btc_tx v) = s.update_btc_tx.to_value v
  json (UpdateBody.cancel_btc_tx v) = s.cancel_btc_tx.to_value v
  json (UpdateBody.update_tokens v) = s.update_tokens.to_value v
  json (UpdateBody.gen_invite v) = s.gen_invite.to_value v
  json (UpdateBody.limits_change_request v) = s.limits_change_request.to_value v
  json (UpdateBody.cancel_limit_change v) = s.cancel_limit_change.to_value v
  json (UpdateBody.limit_change_decision v) = s.limit_change_decision.to_value v
  json (UpdateBody.clear_limits v) = s.clear_limits.to_value v
  json (UpdateBody.set_language v) = s.set_language.to_value v
  json (UpdateBody.config_update v) = s.config_update.to_value v
  json (UpdateBody.password_change v) = s.password_change.to_value v
  json (UpdateBody.set_public_key v) = s.set_public_key.to_value v
  json (UpdateBody.exchange_request v) = s.exchange_request.to_value v
  json (UpdateBody.exchange_decision v) = s.exchange_decision.to_value v
  json (UpdateBody.exchange_address v) = s.exchange_address.to_value v

  unfoldable pub deserialize : UpdateTag → Value → Fallible Error UpdateBody
  deserialize UpdateTag.signup v = map_ok UpdateBody.signup (s.signup.from_value v)
  deserialize UpdateTag.snapshot v = map_ok UpdateBody.snapshot (s.snapshot.from_value v)
  deserialize UpdateTag.create_withdrawal_request v =
      map_ok UpdateBody.create_withdrawal_request (s.create_withdrawal_request.from_value v)
  deserialize UpdateTag.withdrawal_request_decision v =
      map_ok UpdateBody.withdrawal_request_decision (s.withdrawal_request_decision.from_value v)
  deserialize UpdateTag.withdrawal_request_confirm v =
      map_ok UpdateBody.withdrawal_request_complete (s.withdrawal_request_complete.from_value v)
  deserialize UpdateTag.withdrawal_request_node_rejected v =
      map_ok UpdateBody.withdrawal_request_node_rejected
        (s.withdrawal_request_node_rejected.from_value v)
  deserialize UpdateTag.deposit_address v =
      map_ok UpdateBody.deposit_address (s.deposit_address.from_value v)
  deserialize UpdateTag.best_btc_block v =
      map_ok UpdateBody.best_btc_block (s.best_btc_block.from_value v)
  deserialize UpdateTag.update_btc_tx v =
      map_ok UpdateBody.update_btc_tx (s.update_btc_tx.from_value v)
  deserialize UpdateTag.cancel_btc_tx v =
      map_ok UpdateBody.cancel_btc_tx (s.cancel_btc_tx.from_value v)
  deserialize UpdateTag.update_tokens v =
      map_ok UpdateBody.update_tokens (s.update_tokens.from_value v)
  deserialize UpdateTag.gen_invite v = map_ok UpdateBody.gen_invite (s.gen_invite.from_value v)
  deserialize UpdateTag.limits_change_request v =
      map_ok UpdateBody.limits_change_request (s.limits_change_request.from_value v)
  deserialize UpdateTag.cancel_limit_change v =
      map_ok UpdateBody.cancel_limit_change (s.cancel_limit_change.from_value v)
  deserialize UpdateTag.limit_change_decision v =
      map_ok UpdateBody.limit_change_decision (s.limit_change_decision.from_value v)
  deserialize UpdateTag.clear_limits v =
      map_ok UpdateBody.clear_limits (s.clear_limits.from_value v)
  deserialize UpdateTag.set_language v =
      map_ok UpdateBody.set_language (s.set_language.from_value v)
  deserialize UpdateTag.config_update v =
      map_ok UpdateBody.config_update (s.config_update.from_value v)
  deserialize UpdateTag.password_change v =
      map_ok UpdateBody.password_change (s.password_change.from_value v)
  deserialize UpdateTag.set_public_key v =
      map_ok UpdateBody.set_public_key (s.set_public_key.from_value v)
  deserialize UpdateTag.exchange_request v =
      map_ok UpdateBody.exchange_request (s.exchange_request.from_value v)
  deserialize UpdateTag.exchange_decision v =
      map_ok UpdateBody.exchange_decision (s.exchange_decision.from_value v)
  deserialize UpdateTag.exchange_address v =
      map_ok UpdateBody.exchange_address (s.exchange_address.from_value v)

  unfoldable pub from_tag :
      (String → String) → String → ℕ → Value → Fallible (UpdateBodyError Value Error) UpdateBody
  unfolding from_str deserialize
  from_tag lower text version value = do
    t ← map_err UpdateBodyError.unknown_tag (from_str lower text)
    if version == current_body_version
        then map_err (λ e. UpdateBodyError.deserialize version t e value) (deserialize t value)
        else err (UpdateBodyError.unexpected_version version)

  -- The row that `insert_update` writes, at the time given or else now.
  unfoldable pub insert_update :
      UpdateBody → Option NaiveDateTime → NaiveDateTime → Fallible Error (Row Value)
  unfolding json tag to_string
  insert_update update timestamp clock = do
    let now : NaiveDateTime = elim timestamp [ none ↦ clock | some t ↦ t ]
    body ← json update
    ok (record {
      created = now;
      version = current_body_version;
      tag = to_string (tag update);
      body = body;
    })

  deserialize-json : (u : UpdateBody) (v : Value) → json u ≡ ok v → deserialize (tag u) v ≡ ok u
  unfolding json deserialize tag
  deserialize-json (UpdateBody.signup x) v h = rw (s.signup.round_trip x v h) refl
  deserialize-json (UpdateBody.snapshot x) v h = rw (s.snapshot.round_trip x v h) refl
  deserialize-json (UpdateBody.create_withdrawal_request x) v h =
      rw (s.create_withdrawal_request.round_trip x v h) refl
  deserialize-json (UpdateBody.withdrawal_request_decision x) v h =
      rw (s.withdrawal_request_decision.round_trip x v h) refl
  deserialize-json (UpdateBody.withdrawal_request_complete x) v h =
      rw (s.withdrawal_request_complete.round_trip x v h) refl
  deserialize-json (UpdateBody.withdrawal_request_node_rejected x) v h =
      rw (s.withdrawal_request_node_rejected.round_trip x v h) refl
  deserialize-json (UpdateBody.deposit_address x) v h = rw (s.deposit_address.round_trip x v h) refl
  deserialize-json (UpdateBody.best_btc_block x) v h = rw (s.best_btc_block.round_trip x v h) refl
  deserialize-json (UpdateBody.update_btc_tx x) v h = rw (s.update_btc_tx.round_trip x v h) refl
  deserialize-json (UpdateBody.cancel_btc_tx x) v h = rw (s.cancel_btc_tx.round_trip x v h) refl
  deserialize-json (UpdateBody.update_tokens x) v h = rw (s.update_tokens.round_trip x v h) refl
  deserialize-json (UpdateBody.gen_invite x) v h = rw (s.gen_invite.round_trip x v h) refl
  deserialize-json (UpdateBody.limits_change_request x) v h =
      rw (s.limits_change_request.round_trip x v h) refl
  deserialize-json (UpdateBody.cancel_limit_change x) v h =
      rw (s.cancel_limit_change.round_trip x v h) refl
  deserialize-json (UpdateBody.limit_change_decision x) v h =
      rw (s.limit_change_decision.round_trip x v h) refl
  deserialize-json (UpdateBody.clear_limits x) v h = rw (s.clear_limits.round_trip x v h) refl
  deserialize-json (UpdateBody.set_language x) v h = rw (s.set_language.round_trip x v h) refl
  deserialize-json (UpdateBody.config_update x) v h = rw (s.config_update.round_trip x v h) refl
  deserialize-json (UpdateBody.password_change x) v h = rw (s.password_change.round_trip x v h) refl
  deserialize-json (UpdateBody.set_public_key x) v h = rw (s.set_public_key.round_trip x v h) refl
  deserialize-json (UpdateBody.exchange_request x) v h =
      rw (s.exchange_request.round_trip x v h) refl
  deserialize-json (UpdateBody.exchange_decision x) v h =
      rw (s.exchange_decision.round_trip x v h) refl
  deserialize-json (UpdateBody.exchange_address x) v h =
      rw (s.exchange_address.round_trip x v h) refl

  from_tag-row :
      (lower : String → String) (u : UpdateBody) (v : Value)
      → lower (to_string (tag u)) ≡ to_string (tag u)
      → json u ≡ ok v
      → from_tag lower (to_string (tag u)) current_body_version v ≡ ok u
  unfolding from_tag
  from_tag-row lower u v small h =
      rw
        (
          from_tag,
          (from_str-accepts lower (to_string (tag u)) (tag u)).1 small,
          deserialize-json u v h,
        )
        refl

  -- If the tag of an update is its own text in lower case, the row inserted for the update decodes to it.
  pub from_tag-insert_update :
      (lower : String → String) (u : UpdateBody) (at : Option NaiveDateTime) (clock : NaiveDateTime)
      → lower (to_string (tag u)) ≡ to_string (tag u)
      → (row : Row Value) → insert_update u at clock ≡ ok row
      → from_tag lower row.tag row.version row.body ≡ ok u
  unfolding insert_update
  from_tag-insert_update lower u at clock small row h = elim (Fallible-cases (json u)) [
    | inl (v, written) ↦ ground (arith, from_tag-row lower u v small written)
    | inr (e, failed) ↦ ground arith
  ]
