-- ===== src/Update/Limit.antt =====
-- hexstody-db/src/update/limit.rs: requests to change a spending limit.
use hexstody.Prelude.{ℕ, List, Bool, true, false, String, any, ◌==◌, nat_eq, if◌then◌else◌}
use hexstody.Domain.Types.{
  Uuid, PublicKey, Signature, SignatureData, DecisionType, Limit, LimitChangeStatus,
  LimitChangeFilter,
}
use hexstody.Domain.Currency.{Currency}

pub record LimitCancelData : Type 0 where
  pub id : Uuid
  pub user : String
  pub currency : Currency

pub record LimitChangeUpd : Type 0 where
  pub user : String
  pub currency : Currency
  pub limit : Limit

pub record LimitChangeData : Type 0 where
  pub id : Uuid
  pub user : String
  pub created_at : String
  pub status : LimitChangeStatus
  pub currency : Currency
  pub limit : Limit
  pub confirmations : List SignatureData
  pub rejections : List SignatureData

-- A signature by the key is among those given.
abbrev pub signed_by : PublicKey → List SignatureData → Bool
signed_by pubkey = any (λ sd. sd.public_key == pubkey)

unfoldable pub has_confirmed : LimitChangeData → PublicKey → Bool
has_confirmed req pubkey = signed_by pubkey req.confirmations

unfoldable pub has_rejected : LimitChangeData → PublicKey → Bool
has_rejected req pubkey = signed_by pubkey req.rejections

unfoldable pub has_already_signed : LimitChangeData → PublicKey → Bool
has_already_signed req pubkey =
    let confirmed = signed_by pubkey req.confirmations in
    if confirmed then confirmed else signed_by pubkey req.rejections

abbrev status_matches : LimitChangeFilter → LimitChangeStatus → Bool
status_matches LimitChangeFilter.all _ = true
status_matches LimitChangeFilter.pending (LimitChangeStatus.in_progress c r) = true
status_matches LimitChangeFilter.completed LimitChangeStatus.completed = true
status_matches LimitChangeFilter.rejected LimitChangeStatus.rejected = true
status_matches _ _ = false

unfoldable pub matches_filter : LimitChangeData → LimitChangeFilter → Bool
matches_filter req filter = status_matches filter req.status

pub record LimitChangeDecision : Type 0 where
  pub id : Uuid
  pub user : String
  pub currency : Currency
  pub created_at : String
  pub requested_limit : Limit
  pub url : String
  pub signature : Signature
  pub nonce : ℕ
  pub public_key : PublicKey
  pub decision_type : DecisionType
