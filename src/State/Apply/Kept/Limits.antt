-- ===== src/State/Apply/Kept/Limits.antt =====
-- Requests to change a limit, decisions on them and the clearing of limits keep the properties of
-- accounts.
use hexstody.Prelude.{◌≡◌, some, refl, Option-cases, string_eq, nat_eq, inl, inr, Bool-cases}
use hexstody.Prelude.Int.{pos, leb_ℤ}
use hexstody.Prelude.Words.{add_i16, sub_i16}
use hexstody.Prelude.Dict.{lookup}
use hexstody.Prelude.Dict.Entries.{AllEntries-update_all}
use hexstody.Domain.Types.{LimitSpan, span_beq, DecisionType, confirm, reject, LimitChangeStatus}
use hexstody.Domain.Currency.{Currency, currency_eq, address_eq}
use hexstody.State.User.{UserInfo, UserCurrencyInfo}
use hexstody.State.Apply.Kept.{KeepsUser, IsUpdate, AllUsers, user_cases, set_user-Keeps}
use hexstody.Update.Signup.{UserId}
use hexstody.State.Core.{invite_eq, State, Draw, with_user, with_currency}
use hexstody.Update.Limit.{
  LimitChangeUpd, LimitCancelData, LimitChangeDecision, LimitChangeData, has_confirmed,
  has_rejected,
}
use hexstody.State.Limits.{
  insert_limits_req, cancel_limit_change, with_limit_change_decision, confirm_limit, reject_limit,
  limit_by_status, clear_limits, clear_spent, grant_limit,
}

module _ (U : UserId → UserInfo → Type 0) (kept : KeepsUser U) where
  pub insert_limits_req-Keeps :
      (d : Draw) (req : LimitChangeUpd) (s : State)
      → AllUsers U s
      → AllUsers U (insert_limits_req d req s).1
  unfolding insert_limits_req
  insert_limits_req-Keeps d req s a = (elim (user_cases U req.user s a) [
    | inl no_user ↦ rw (no_user, insert_limits_req, with_user) a
    | inr (user, user_known, au) ↦
        rw (user_known, insert_limits_req, with_user)
          ((elim (Option-cases (lookup req.currency user.currencies)) [
            | inl no_account ↦ rw (no_account, with_currency) a
            | inr (info, held) ↦
                rw (held, with_currency) (set_user-Keeps U req.user _ s a (kept.asked _ held au))
          ]))
  ])

  pub cancel_limit_change-Keeps :
      (req : LimitCancelData) (s : State) → AllUsers U s → AllUsers U (cancel_limit_change req s).1
  unfolding cancel_limit_change
  cancel_limit_change-Keeps req s a = (elim (user_cases U req.user s a) [
    | inl no_user ↦ rw (no_user, cancel_limit_change, with_user) a
    | inr (user, user_known, au) ↦
        rw (user_known, cancel_limit_change, with_user)
          (set_user-Keeps U req.user _ s a (kept.dropped req.currency au))
  ])

  grant_limit-Keeps :
      (lcd : LimitChangeDecision) (user : UserInfo)
      → U lcd.user user
      → U lcd.user (grant_limit lcd user)
  grant_limit-Keeps lcd user au = elim (Option-cases (lookup lcd.currency user.currencies)) [
    | inl unknown ↦ rw (unknown, grant_limit) au
    | inr (info, held) ↦
        rw (held, grant_limit)
          (kept.account lcd.currency _ (λ P k p. k.limits lcd.requested_limit p) held au)
  ]

  limit_decision-Keeps :
      (lcd : LimitChangeDecision) (user : UserInfo) (req : LimitChangeData) (s : State)
      → AllUsers U s
      → U lcd.user user
      → lookup lcd.currency user.limit_change_requests ≡ some req
      → AllUsers U (limit_by_status req.status lcd user req s).1
  unfolding confirm_limit reject_limit
  limit_decision-Keeps lcd user req s a au pending = go req.status lcd.decision_type
    where
      go :
          (st : LimitChangeStatus) (t : DecisionType)
          → AllUsers U (limit_by_status st (record lcd { decision_type = t }) user req s).1
      go LimitChangeStatus.completed t = a
      go LimitChangeStatus.rejected t = a
      go (LimitChangeStatus.in_progress c r) confirm =
          elim (Bool-cases (has_confirmed req lcd.public_key)) [
            | inl twice ↦ rw twice a
            | inr first ↦ elim (Bool-cases (leb_ℤ (pos 2) (sub_i16 (add_i16 c (pos 1)) r))) [
              | inl done ↦
                  rw (first, done)
                    (set_user-Keeps U lcd.user _ s a
                      (kept.dropped lcd.currency (grant_limit-Keeps lcd user au)))
              | inr undecided ↦
                  rw (first, undecided)
                    (set_user-Keeps U lcd.user _ s a (kept.decided lcd.currency _ pending refl au))
            ]
          ]
      go (LimitChangeStatus.in_progress c r) reject =
          elim (Bool-cases (has_rejected req lcd.public_key)) [
            | inl twice ↦ rw twice a
            | inr first ↦ elim (Bool-cases (leb_ℤ (pos 2) (sub_i16 (add_i16 r (pos 1)) c))) [
              | inl done ↦
                  rw (first, done) (set_user-Keeps U lcd.user _ s a (kept.dropped lcd.currency au))
              | inr undecided ↦
                  rw (first, undecided)
                    (set_user-Keeps U lcd.user _ s a (kept.decided lcd.currency _ pending refl au))
            ]
          ]

  pub with_limit_change_decision-Keeps :
      (lcd : LimitChangeDecision) (s : State)
      → AllUsers U s
      → AllUsers U (with_limit_change_decision lcd s).1
  unfolding with_limit_change_decision
  with_limit_change_decision-Keeps lcd s a = (elim (user_cases U lcd.user s a) [
    | inl no_user ↦ rw (no_user, with_limit_change_decision, with_user) a
    | inr (user, user_known, au) ↦
        rw (user_known, with_limit_change_decision, with_user)
          (elim (Option-cases (lookup lcd.currency user.limit_change_requests)) [
            | inl unknown ↦ rw unknown a
            | inr (req, known) ↦ rw known (limit_decision-Keeps lcd user req s a au known)
          ])
  ])

  pub clear_limits-Keeps :
      (span : LimitSpan) (s : State) → AllUsers U s → AllUsers U (clear_limits span s).1
  unfolding clear_limits
  clear_limits-Keeps span s a =
      AllEntries-update_all U _ s.users (λ uid user au. kept.accounts _ clear au) a
    where
      clear : (c : Currency) (info : UserCurrencyInfo) → IsUpdate c info (clear_spent span info)
      clear c info P k p = elim (Bool-cases (span_beq info.limit_info.limit.span span)) [
        | inl due ↦ rw due (k.limits info.limit_info.limit p)
        | inr later ↦ rw later p
      ]
