-- ===== src/State/Limits.antt =====
-- The handlers of hexstody-db/src/state/mod.rs for spending limits.
use hexstody.Prelude.{[], ◌∷◌, ◌++◌, none, some, if◌then◌else◌, string_eq}
use hexstody.Prelude.Int.{ℤ, pos, leb_ℤ}
use hexstody.Prelude.Words.{add_i16, sub_i16}
use hexstody.Prelude.Dict.{lookup, insert, remove, update_all}
use hexstody.Domain.Types.{
  SignatureData, DecisionType, confirm, reject, LimitSpan, span_beq, LimitChangeStatus,
}
use hexstody.Domain.Currency.{currency_eq}
use hexstody.Update.Limit.{
  LimitChangeUpd, LimitChangeData, LimitCancelData, LimitChangeDecision, has_confirmed,
  has_rejected,
}
use hexstody.State.User.{UserInfo, UserCurrencyInfo}
use hexstody.State.Core.{
  Draw, Handler, fail, err, ok, with_user, with_currency, set_user, limit_change_not_found,
  limit_already_confirmed, limit_already_rejected,
}

-- The request gets a fresh id and the time of this very step.
unfoldable pub insert_limits_req : Draw → LimitChangeUpd → Handler (Unit {0})
insert_limits_req draw req = with_user req.user λ user.
    with_currency req.user user req.currency λ _ s. (
      ok tt,
      set_user req.user
          (record user {
            limit_change_requests =
                insert req.currency
                  (record {
                    id = draw.new_v4;
                    user = user.username;
                    created_at = draw.now;
                    status = LimitChangeStatus.in_progress (pos 0) (pos 0);
                    currency = req.currency;
                    limit = req.limit;
                    confirmations = [];
                    rejections = [];
                  })
                  user.limit_change_requests;
          })
          s,
    )

unfoldable pub cancel_limit_change : LimitCancelData → Handler (Unit {0})
cancel_limit_change req = with_user req.user λ user s. (
  ok tt,
  set_user req.user
      (record user { limit_change_requests = remove req.currency user.limit_change_requests }) s,
)

abbrev limit_signature : LimitChangeDecision → SignatureData
limit_signature lcd = record {
  signature = lcd.signature;
  nonce = lcd.nonce;
  public_key = lcd.public_key;
}

-- `if let Some(cinfo) = usr.currencies.get_mut(…)`: the new limit, with nothing spent.
abbrev pub grant_limit : LimitChangeDecision → UserInfo → UserInfo
grant_limit lcd user = elim (lookup lcd.currency user.currencies) [
  | none ↦ user
  | some info ↦ record user {
    currencies =
        insert lcd.currency
          (record info { limit_info = record { limit = lcd.requested_limit; spent = 0 } })
          user.currencies;
  }
]

abbrev drop_request : LimitChangeDecision → UserInfo → UserInfo
drop_request lcd user = record user {
  limit_change_requests = remove lcd.currency user.limit_change_requests;
}

abbrev keep_request : LimitChangeDecision → LimitChangeData → UserInfo → UserInfo
keep_request lcd req user = record user {
  limit_change_requests = insert lcd.currency req user.limit_change_requests;
}

unfoldable pub confirm_limit :
    ℤ → ℤ → LimitChangeDecision → UserInfo → LimitChangeData → Handler (Unit {0})
unfolding has_confirmed
confirm_limit confirmations rejections lcd user req =
    if has_confirmed req lcd.public_key
    then fail limit_already_confirmed
    else if leb_ℤ (pos 2) (sub_i16 (add_i16 confirmations (pos 1)) rejections)
    then (λ s. (ok tt, set_user lcd.user (drop_request lcd (grant_limit lcd user)) s))
    else λ s. (
      ok tt,
      set_user lcd.user
          (keep_request lcd
            (record req {
              confirmations = req.confirmations ++ limit_signature lcd ∷ [];
              status = LimitChangeStatus.in_progress (add_i16 confirmations (pos 1)) rejections;
            })
            user)
          s,
    )

unfoldable pub reject_limit :
    ℤ → ℤ → LimitChangeDecision → UserInfo → LimitChangeData → Handler (Unit {0})
unfolding has_rejected
reject_limit confirmations rejections lcd user req =
    if has_rejected req lcd.public_key
    then fail limit_already_confirmed
    else if leb_ℤ (pos 2) (sub_i16 (add_i16 rejections (pos 1)) confirmations)
    then (λ s. (ok tt, set_user lcd.user (drop_request lcd user) s))
    else λ s. (
      ok tt,
      set_user lcd.user
          (keep_request lcd
            (record req {
              rejections = req.rejections ++ limit_signature lcd ∷ [];
              status = LimitChangeStatus.in_progress confirmations (add_i16 rejections (pos 1));
            })
            user)
          s,
    )

abbrev limit_by_type :
    DecisionType → ℤ → ℤ → LimitChangeDecision → UserInfo → LimitChangeData → Handler (Unit {0})
limit_by_type confirm = confirm_limit
limit_by_type reject = reject_limit

abbrev pub limit_by_status :
    LimitChangeStatus → LimitChangeDecision → UserInfo → LimitChangeData → Handler (Unit {0})
limit_by_status LimitChangeStatus.completed lcd user req = fail limit_already_confirmed
limit_by_status LimitChangeStatus.rejected lcd user req = fail limit_already_rejected
limit_by_status (LimitChangeStatus.in_progress c r) lcd user req =
    limit_by_type lcd.decision_type c r lcd user req

unfoldable pub with_limit_change_decision : LimitChangeDecision → Handler (Unit {0})
unfolding confirm_limit reject_limit
with_limit_change_decision lcd = with_user lcd.user λ user s.
    elim (lookup lcd.currency user.limit_change_requests) [
      | none ↦ (err limit_change_not_found, s)
      | some req ↦ limit_by_status req.status lcd user req s
    ]

abbrev pub clear_spent : LimitSpan → UserCurrencyInfo → UserCurrencyInfo
clear_spent span info =
    if span_beq info.limit_info.limit.span span
    then record info { limit_info = record info.limit_info { spent = 0 } }
    else info

unfoldable pub clear_limits : LimitSpan → Handler (Unit {0})
clear_limits span s = (
  ok tt,
  record s {
    users =
        update_all
          (λ uid user. record user {
            currencies = update_all (λ c info. clear_spent span info) user.currencies;
          })
          s.users;
  },
)
