-- ===== src/Public/Profile.antt =====
-- hexstody-public/src/api/profile.rs: limits and settings. The tests of addresses and numbers are
-- regular expressions, and parameters, as is the decoding of a key.
use hexstody.Prelude.{
  Bool, true, false, not, ◌&&◌, ◌||◌, List, [], ◌∷◌, Option, none, some, String, string_eq, ◌==◌,
  nat_eq, if◌then◌else◌, filter_map,
}
use mathlib.Core.Option
use hexstody.Prelude.Dict.{lookup}
use hexstody.Prelude.Fallible.{Fallible, ok, err}
use hexstody.Domain.Types.{NaiveDateTime, Limit, PublicKey, span_beq}
use hexstody.Domain.Currency.{Currency, currency_eq}
use hexstody.Domain.Profile.{Language, Email, PhoneNumber, TgName}
use hexstody.Domain.Error.{
  ApiError, code, invite_not_found, lim_change_not_found, limits_no_changes, invalid_email,
  invalid_phone_number, generic_error,
}
use hexstody.Update.Limit.{LimitChangeUpd}
use hexstody.Update.Body.{UpdateBody}
use hexstody.State.Core.{State}
use hexstody.State.User.{UserInfo}
use hexstody.Public.{
  World, Handler, ◌>>=◌, ◌>>◌, answer, pure, fail, require, found, send_anyway, require_auth_user,
}

pub record LimitChangeReq : Type 0 where
  pub currency : Currency
  pub limit : Limit

pub record ConfigChangeRequest : Type 0 where
  pub email : Option String
  pub phone : Option String
  pub tg_name : Option String

-- An answer, or the redirection to the page for signing in.
pub data Page (A : Type 0) : Type 0 where
  shown : A → Page A
  goto_signin : Page A

-- The two errors of a session that is none.
abbrev or_signin : {A : Type 0} → Fallible ApiError A → Page (Fallible ApiError A)
or_signin (ok v) = shown (ok v)
or_signin (err e) = if code e == 8 || code e == 7 then goto_signin else shown (err e)

-- Derived equality of `Limit` and of `Language`.
abbrev same_limit : Limit → Limit → Bool
same_limit a b = a.amount == b.amount && span_beq a.span b.span

abbrev same_language : Language → Language → Bool
same_language Language.english Language.english = true
same_language Language.russian Language.russian = true
same_language _ _ = false

-- A limit that is new for a currency that the user has.
abbrev pub new_limit : UserInfo → LimitChangeReq → Option LimitChangeUpd
new_limit user l = elim (lookup l.currency user.currencies) [
  | none ↦ none
  | some ci ↦
      if same_limit ci.limit_info.limit l.limit
      then none
      else some (record { user = user.username; currency = l.currency; limit = l.limit })
]

abbrev is_empty : String → Bool
is_empty s = s == ""

-- What a user's text asks for: nothing, to clear the setting, or a new value.
abbrev setting :
    {A : Type 0}
    → (String → Option A)
    → ApiError
    → Option String
    → Fallible ApiError (Option (Option A))
setting read invalid none = ok none
setting read invalid (some text) =
    if is_empty text
    then ok (some none)
    else elim (read text) [ some a ↦ ok (some (some a)) | none ↦ err invalid ]

-- Reading a value that passes its test.
abbrev valid_email : (String → Bool) → String → Option Email
valid_email validate text = if validate text then some (record { email = text }) else none

abbrev valid_phone : (String → Bool) → String → Option PhoneNumber
valid_phone validate text = if validate text then some (record { number = text }) else none

abbrev any_name : String → Option TgName
any_name text = some (record { tg_name = text })

-- `decode` reads a key from base64 and DER, or tells why it cannot.
abbrev decoded :
    (String → Fallible String PublicKey) → Option String → Fallible ApiError (Option PublicKey)
decoded decode none = ok none
decoded decode (some text) = elim (decode text) [
  | ok key ↦ ok (some key)
  | err e ↦ err (generic_error e)
]

module _ {W : Type 0} (now : NaiveDateTime) where
  abbrev send_all : List LimitChangeUpd → Handler W (Unit {0})
  send_all [] = pure tt
  send_all (req ∷ rest) = send_anyway now (UpdateBody.limits_change_request req) >> send_all rest

  abbrev paged :
      Handler W (Unit {0}) → World W → Option (Page (Fallible ApiError (Unit {0}))) × World W
  paged handler w = let (r, w') = handler w in (Option.map or_signin r, w')

  unfoldable pub request_new_limits :
      State → List LimitChangeReq → World W → Option (Page (Fallible ApiError (Unit {0}))) × World W
  unfolding require_auth_user send_anyway code
  request_new_limits s new_limits = paged (
      require_auth_user s λ user. elim (filter_map (new_limit user) new_limits) [
        | [] ↦ fail invite_not_found
        | first ∷ rest ↦ send_all (first ∷ rest)
      ])

  unfoldable pub cancel_user_change :
      State → Currency → World W → Option (Page (Fallible ApiError (Unit {0}))) × World W
  unfolding require_auth_user send_anyway code
  cancel_user_change s currency = paged (
      require_auth_user s λ user. do
        v ← found (lookup currency user.limit_change_requests) lim_change_not_found
        send_anyway now (
            UpdateBody.cancel_limit_change
              (record { id = v.id; user = user.username; currency = currency })))

  unfoldable pub set_language : State → Language → Handler W (Unit {0})
  unfolding require_auth_user send_anyway
  set_language s lang = require_auth_user s λ user. do
    require (not (same_language user.config.language lang)) limits_no_changes
    send_anyway now (UpdateBody.set_language (record { user = user.username; language = lang }))

  unfoldable pub set_user_config :
      (String → Bool) → (String → Bool) → State → ConfigChangeRequest → Handler W (Unit {0})
  unfolding require_auth_user send_anyway
  set_user_config email_ok phone_ok s req = require_auth_user s λ user. do
    email ← answer (setting (valid_email email_ok) invalid_email req.email)
    phone ← answer (setting (valid_phone phone_ok) invalid_phone_number req.phone)
    tg_name ← answer (setting any_name invalid_email req.tg_name)
    send_anyway now (
        UpdateBody.config_update
          (record { user = user.username; email = email; phone = phone; tg_name = tg_name }))

  unfoldable pub set_user_public_key :
      (String → Fallible String PublicKey) → State → Option String → Handler W (Unit {0})
  unfolding require_auth_user send_anyway
  set_user_public_key decode s key_b64 = require_auth_user s λ user. do
    key ← answer (decoded decode key_b64)
    send_anyway now (UpdateBody.set_public_key (record { user = user.username; public_key = key }))
