-- ===== src/Domain/Types.antt =====
-- The types of hexstody-api/src/types.rs that the state of the custody is made of. Ids, keys,
-- signatures and times are only stored and compared here, so they are numbers.
use hexstody.Prelude.{ℕ, Bool, true, false}
use hexstody.Prelude.Int.{ℤ}

-- A UUID of 128 bits.
abbrev pub Uuid : Type 0
Uuid = ℕ

-- `p256::PublicKey` and `p256::ecdsa::Signature`
abbrev pub PublicKey : Type 0
PublicKey = ℕ

abbrev pub Signature : Type 0
Signature = ℕ

-- `chrono::NaiveDateTime`
abbrev pub NaiveDateTime : Type 0
NaiveDateTime = ℕ

pub record Invite : Type 0 where
  pub invite : Uuid

pub record SignatureData : Type 0 where
  pub signature : Signature
  pub nonce : ℕ
  pub public_key : PublicKey

pub data LimitSpan : Type 0 where
  day week month : LimitSpan

abbrev pub span_beq : LimitSpan → LimitSpan → Bool
span_beq day day = true
span_beq week week = true
span_beq month month = true
span_beq _ _ = false

pub record Limit : Type 0 where
  pub amount : ℕ
  pub span : LimitSpan

pub record LimitInfo : Type 0 where
  pub limit : Limit
  pub spent : ℕ

-- `LimitInfo::default`
abbrev pub default_limit_info : LimitInfo
default_limit_info = record { limit = record { amount = 0; span = day }; spent = 0 }

pub data LimitChangeStatus : Type 0 where
  in_progress : ℤ → ℤ → LimitChangeStatus
  completed rejected : LimitChangeStatus

pub data LimitChangeFilter : Type 0 where
  all pending completed rejected : LimitChangeFilter

-- The number of confirmations and of rejections, in that order, while in progress.
pub data ExchangeStatus : Type 0 where
  completed rejected : ExchangeStatus
  in_progress : ℤ → ℤ → ExchangeStatus

pub data ExchangeFilter : Type 0 where
  all pending completed rejected : ExchangeFilter

pub data WithdrawalFilter : Type 0 where
  all pending confirmed completed op_rejected node_rejected : WithdrawalFilter

-- `WithdrawalRequestDecisionType`, `LimitChangeDecisionType` and `ExchangeDecisionType` are three
-- enums with these constructors.
pub data DecisionType : Type 0 where
  confirm reject : DecisionType
