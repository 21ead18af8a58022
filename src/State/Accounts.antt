-- ===== src/State/Accounts.antt =====
-- The handlers of hexstody-db/src/state/mod.rs for sign-up, invites, tokens, deposit addresses and
-- the settings of a user.
pub mod Invites
use hexstody.Prelude.{
  [], ◌∷◌, ◌++◌, Option, none, some, ltb, any, ◌==◌, string_eq, nat_eq, if◌then◌else◌,
}
use hexstody.Prelude.Dict.{lookup, insert, remove, contains_key}
use hexstody.Domain.Types.{NaiveDateTime}
use hexstody.Domain.Currency.{Currency, currency_eq, address_eq, currency}
use hexstody.Update.Signup.{SignupInfo, SignupAuth, DepositAddress}
use hexstody.Update.Misc.{
  TokenUpdate, TokenAction, enable, disable, InviteRec, SetLanguage, ConfigUpdateData,
  PasswordChangeUpd, SetPublicKey,
}
use hexstody.State.User.{UserInfo, user_from, new_currency_info, balance}
use hexstody.State.Core.{
  Handler, fail, err, ok, with_user, with_currency, set_user, set_currency, invite_eq,
  user_already_exists, invite_not_found, invite_already_exist, token_already_enabled,
  token_already_disabled, token_non_zero_balance, deposit_address_already_allocated,
}

unfoldable pub with_signup : NaiveDateTime → SignupInfo → Handler (Unit {0})
with_signup timestamp signup s =
    if contains_key signup.username s.users
    then (err (user_already_exists signup.username), s)
    else if contains_key signup.invite s.invites
    then (
      ok tt,
      record s {
        users = insert signup.username (user_from timestamp signup) s.users;
        invites = remove signup.invite s.invites;
      },
    )
    else (err invite_not_found, s)

unfoldable pub gen_invite : InviteRec → Handler (Unit {0})
gen_invite req s = elim (lookup req.invite s.invites) [
  | some _ ↦ (err invite_already_exist, s)
  | none ↦ (ok tt, record s { invites = insert req.invite req s.invites })
]

unfoldable pub with_deposit_address : DepositAddress → Handler (Unit {0})
with_deposit_address dep =
    let c = currency dep.address in
    with_user dep.user_id λ user. with_currency dep.user_id user c λ info.
      if any (λ a. a == dep.address) info.deposit_info
      then fail (deposit_address_already_allocated dep.user_id dep.address)
      else λ s. (
        ok tt,
        set_currency dep.user_id user c
            (record info { deposit_info = info.deposit_info ++ dep.address ∷ [] }) s,
      )

unfoldable pub enable_token : TokenUpdate → UserInfo → Handler (Unit {0})
enable_token upd user =
    let cur = Currency.erc20 upd.token in
    if contains_key cur user.currencies then fail (token_already_enabled upd.token) else λ s.
    (ok tt, set_currency upd.user user cur (new_currency_info cur) s)

unfoldable pub disable_token : TokenUpdate → UserInfo → Handler (Unit {0})
disable_token upd user =
    let cur = Currency.erc20 upd.token in
    elim (lookup cur user.currencies) [
      | none ↦ fail (token_already_disabled upd.token)
      | some info ↦ if ltb 0 (balance info) then fail (token_non_zero_balance upd.token) else λ s. (
        ok tt,
        set_user upd.user
            (record user {
              currencies = remove cur user.currencies;
              limit_change_requests = remove cur user.limit_change_requests;
            })
            s,
      )
    ]

unfoldable pub by_action : TokenAction → TokenUpdate → UserInfo → Handler (Unit {0})
by_action enable = enable_token
by_action disable = disable_token

unfoldable pub update_tokens : TokenUpdate → Handler (Unit {0})
unfolding enable_token disable_token by_action
update_tokens upd = with_user upd.user (by_action upd.action upd)

unfoldable pub set_language : SetLanguage → Handler (Unit {0})
set_language req = with_user req.user λ user s. (
  ok tt,
  set_user req.user (record user { config = record user.config { language = req.language } }) s,
)

-- `if let Some(v) = v { field = v.ok() }`
abbrev pub overwrite : {A : Type 0} → Option (Option A) → Option A → Option A
overwrite none old = old
overwrite (some v) old = v

unfoldable pub update_user_config : ConfigUpdateData → Handler (Unit {0})
update_user_config req = with_user req.user λ user s. (
  ok tt,
  set_user req.user
      (record user {
        config = record user.config {
          email = overwrite req.email user.config.email;
          phone = overwrite req.phone user.config.phone;
          tg_name = overwrite req.tg_name user.config.tg_name;
        };
      })
      s,
)

unfoldable pub change_password : PasswordChangeUpd → Handler (Unit {0})
change_password req = with_user req.user λ user s.
    (ok tt, set_user req.user (record user { auth = SignupAuth.password req.new_password }) s)

unfoldable pub set_user_public_key : SetPublicKey → Handler (Unit {0})
set_user_public_key req =
    with_user req.user
      λ user s. (ok tt, set_user req.user (record user { public_key = req.public_key }) s)
