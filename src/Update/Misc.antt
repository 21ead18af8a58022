-- ===== src/Update/Misc.antt =====
-- hexstody-db/src/update/misc.rs: tokens, invites, and the settings of a user.
use hexstody.Prelude.{String, Option}
use hexstody.Domain.Types.{PublicKey, Invite}
use hexstody.Domain.Currency.{Erc20Token}
use hexstody.Domain.Profile.{Language, Email, PhoneNumber, TgName}
use hexstody.Update.Signup.{UserId}

pub data TokenAction : Type 0 where
  enable disable : TokenAction

pub record TokenUpdate : Type 0 where
  pub user : UserId
  pub token : Erc20Token
  pub action : TokenAction

pub record InviteRec : Type 0 where
  pub invite : Invite
  pub invitor : String
  pub label : String

pub record SetLanguage : Type 0 where
  pub user : String
  pub language : Language

-- `none` keeps the setting, `some none` (an `Err` of the source) clears it.
pub record ConfigUpdateData : Type 0 where
  pub user : String
  pub email : Option (Option Email)
  pub phone : Option (Option PhoneNumber)
  pub tg_name : Option (Option TgName)

pub record PasswordChangeUpd : Type 0 where
  pub user : String
  pub new_password : String

pub record SetPublicKey : Type 0 where
  pub user : String
  pub public_key : Option PublicKey
