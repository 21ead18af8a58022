-- ===== src/Update/Signup.antt =====
-- hexstody-db/src/update/signup.rs and update/deposit.rs
use hexstody.Prelude.{String}
use hexstody.Domain.Types.{Invite}
use hexstody.Domain.Currency.{CurrencyAddress}

abbrev pub UserId : Type 0
UserId = String

pub data SignupAuth : Type 0 where
  password : String → SignupAuth
  lightning : SignupAuth

pub record SignupInfo : Type 0 where
  pub username : UserId
  pub invite : Invite
  pub auth : SignupAuth

pub record DepositAddress : Type 0 where
  pub user_id : UserId
  pub address : CurrencyAddress
