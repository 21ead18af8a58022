-- ===== src/State/Apply/Kept/Settings.antt =====
-- Sign-up, invites, tokens, addresses and settings keep the properties of accounts.
use hexstody.Prelude.{Option-cases, string_eq, nat_eq, inl, inr, Bool-cases, any, ◌==◌, ltb}
use hexstody.Prelude.Dict.{lookup, contains_key}
use hexstody.Prelude.Dict.Entries.{AllEntries-insert}
use hexstody.Domain.Types.{NaiveDateTime}
use hexstody.Domain.Currency.{Currency, currency_eq, currency, address_eq}
use hexstody.State.User.{UserInfo, new_user, user_from, balance}
use hexstody.State.Apply.Kept.{KeepsUser, AllUsers, user_cases, set_user-Keeps, set_currency-Keeps}
use hexstody.Update.Signup.{UserId}
use hexstody.State.Core.{invite_eq, State, with_user, with_currency}
use hexstody.Update.Signup.{SignupInfo, DepositAddress}
use hexstody.Update.Misc.{
  TokenUpdate, TokenAction, enable, disable, InviteRec, SetLanguage, ConfigUpdateData,
  PasswordChangeUpd, SetPublicKey,
}
use hexstody.State.Accounts.{
  with_signup, with_deposit_address, update_tokens, enable_token, disable_token, by_action,
  gen_invite, set_language, update_user_config, change_password, set_user_public_key,
}

module _ (U : UserId → UserInfo → Type 0) (kept : KeepsUser U) where
  pub with_signup-Keeps :
      (t : NaiveDateTime) (info : SignupInfo) (s : State)
      → U info.username (user_from t info)
      → AllUsers U s
      → AllUsers U (with_signup t info s).1
  unfolding with_signup new_user
  with_signup-Keeps t info s new a =
      let added = AllEntries-insert U info.username (user_from t info) s.users a new in
      elim (Bool-cases (contains_key info.username s.users)) [
        | inl taken ↦ rw taken a
        | inr free ↦ elim (Bool-cases (contains_key info.invite s.invites)) [
          | inl known ↦ rw (free, known) added
          | inr unknown ↦ rw (free, unknown) a
        ]
      ]

  pub with_deposit_address-Keeps :
      (dep : DepositAddress) (s : State) → AllUsers U s → AllUsers U (with_deposit_address dep s).1
  unfolding with_deposit_address
  with_deposit_address-Keeps dep s a =
      let c = currency dep.address in
      (elim (user_cases U dep.user_id s a) [
        | inl no_user ↦ rw (no_user, with_deposit_address, with_user) a
        | inr (user, user_known, au) ↦
            rw (user_known, with_deposit_address, with_user)
              ((elim (Option-cases (lookup c user.currencies)) [
                | inl no_account ↦ rw (no_account, with_currency) a
                | inr (info, held) ↦
                    rw (held, with_currency)
                      (elim (Bool-cases (any (λ x. x == dep.address) info.deposit_info)) [
                        | inl old ↦ rw old a
                        | inr new ↦ rw new (
                            set_currency-Keeps U kept dep.user_id user c _ s a au held
                              (λ P k p. k.addresses _ p))
                      ])
              ]))
      ])

  pub gen_invite-Keeps :
      (req : InviteRec) (s : State) → AllUsers U s → AllUsers U (gen_invite req s).1
  unfolding gen_invite
  gen_invite-Keeps req s a = elim (Option-cases (lookup req.invite s.invites)) [
    | inl new ↦ rw (new, gen_invite) a
    | inr (old, known) ↦ rw (known, gen_invite) a
  ]

  pub update_tokens-Keeps :
      (upd : TokenUpdate) (s : State) → AllUsers U s → AllUsers U (update_tokens upd s).1
  unfolding update_tokens by_action enable_token disable_token
  update_tokens-Keeps upd s a =
      let c = Currency.erc20 upd.token in
      (elim (user_cases U upd.user s a) [
        | inl no_user ↦
            rw (no_user, update_tokens, by_action, enable_token, disable_token, with_user) a
        | inr (user, user_known, au) ↦
            rw (user_known, update_tokens, by_action, enable_token, disable_token, with_user)
              (go upd.action user au)
      ])
    where
      go :
          (t : TokenAction) (user : UserInfo)
          → U upd.user user
          → AllUsers U (by_action t upd user s).1
      go enable user au =
          let c = Currency.erc20 upd.token in
          elim (Bool-cases (contains_key c user.currencies)) [
            | inl old ↦ rw (old, by_action, enable_token) a
            | inr new ↦ rw new (set_user-Keeps U upd.user _ s a (kept.opened c au))
          ]
      go disable user au =
          let c = Currency.erc20 upd.token in
          elim (Option-cases (lookup c user.currencies)) [
            | inl none_there ↦ rw (none_there, by_action, disable_token) a
            | inr (info, known) ↦ elim (Bool-cases (ltb 0 (balance info))) [
              | inl funded ↦ rw (known, by_action, disable_token, funded) a
              | inr empty ↦
                  rw (known, by_action, disable_token, empty)
                    (set_user-Keeps U upd.user _ s a (kept.closed c au))
            ]
          ]

  pub set_language-Keeps :
      (req : SetLanguage) (s : State) → AllUsers U s → AllUsers U (set_language req s).1
  unfolding set_language
  set_language-Keeps req s a = (elim (user_cases U req.user s a) [
    | inl no_user ↦ rw (no_user, set_language, with_user) a
    | inr (user, user_known, au) ↦
        rw (user_known, set_language, with_user)
          (set_user-Keeps U req.user _ s a (kept.settings user.auth _ user.public_key au))
  ])

  pub update_user_config-Keeps :
      (req : ConfigUpdateData) (s : State) → AllUsers U s → AllUsers U (update_user_config req s).1
  unfolding update_user_config
  update_user_config-Keeps req s a = (elim (user_cases U req.user s a) [
    | inl no_user ↦ rw (no_user, update_user_config, with_user) a
    | inr (user, user_known, au) ↦
        rw (user_known, update_user_config, with_user)
          (set_user-Keeps U req.user _ s a (kept.settings user.auth _ user.public_key au))
  ])

  pub change_password-Keeps :
      (req : PasswordChangeUpd) (s : State) → AllUsers U s → AllUsers U (change_password req s).1
  unfolding change_password
  change_password-Keeps req s a = (elim (user_cases U req.user s a) [
    | inl no_user ↦ rw (no_user, change_password, with_user) a
    | inr (user, user_known, au) ↦
        rw (user_known, change_password, with_user)
          (set_user-Keeps U req.user _ s a (kept.settings _ user.config user.public_key au))
  ])

  pub set_user_public_key-Keeps :
      (req : SetPublicKey) (s : State) → AllUsers U s → AllUsers U (set_user_public_key req s).1
  unfolding set_user_public_key
  set_user_public_key-Keeps req s a = (elim (user_cases U req.user s a) [
    | inl no_user ↦ rw (no_user, set_user_public_key, with_user) a
    | inr (user, user_known, au) ↦
        rw (user_known, set_user_public_key, with_user)
          (set_user-Keeps U req.user _ s a (kept.settings user.auth user.config _ au))
  ])
