-- ===== src/Public/Auth.antt =====
-- hexstody-public/src/api/auth.rs: accounts and sessions. The hashes of the pwhash crate and the
-- ethereum adapter are parameters.
use Prim.Native.String.{len}
use hexstody.Prelude.{
  Bool, true, false, not, ◌||◌, List, [], ◌∷◌, Option, none, some, String, string_eq, ltb, ◌==◌,
  if◌then◌else◌,
}
use hexstody.Prelude.Dict.{lookup, insert, remove, contains_key}
use hexstody.Prelude.Fallible.{Fallible, ok, err, map_err}
use hexstody.Prelude.Text.{join}
use hexstody.Domain.Types.{NaiveDateTime, Invite, SignatureData}
use hexstody.Domain.Currency.{Erc20Token, default_tokens}
use hexstody.Domain.Error.{
  ApiError, user_name_too_short, user_name_too_long, user_password_too_short,
  user_password_too_long, signup_existed_user, invite_not_found, failed_eth_connection, pwhash,
  signin_failed, no_user_found, signature_error, min_user_name_len, max_user_name_len,
  min_user_password_len, max_user_password_len,
}
use hexstody.Update.Signup.{UserId, SignupAuth}
use hexstody.Update.Body.{UpdateBody}
use hexstody.State.Core.{State, invite_eq}
use hexstody.State.User.{UserInfo}
use hexstody.Signed.{Verifier, SignatureVerificationConfig, SignatureError, verify_signature}
use hexstody.Public.{
  World, Handler, ◌>>=◌, ◌>>◌, answer, require, found, send_unwrap, ask, require_auth_user,
}

-- `SignupEmail`, `SigninEmail` and `PasswordChange`
pub record SignupEmail : Type 0 where
  pub user : UserId
  pub invite : Invite
  pub password : String

pub record SigninEmail : Type 0 where
  pub user : UserId
  pub password : String

pub record PasswordChange : Type 0 where
  pub old_password : String
  pub new_password : String

pub record ChallengeResponse : Type 0 where
  pub user : UserId
  pub challenge : String

-- `pwhash::bcrypt`
pub record Bcrypt : Type 0 where
  pub hash : String → Fallible String String
  pub verify : String → String → Bool

-- The calls of the ethereum adapter.
pub record EthClient (W : Type 0) : Type 0 where
  pub createuser : UserId → W → Fallible String (Unit {0}) × W
  pub post_tokens : UserId → List Erc20Token → W → Fallible String (Unit {0}) × W
  pub remove_user : UserId → W → Fallible String (Unit {0}) × W
  pub allocate_address : UserId → W → Fallible String String × W

-- Lengths in bytes, as `len` counts.
abbrev pub check_name : String → Fallible ApiError (Unit {0})
check_name user =
    if ltb (len user) min_user_name_len
    then err user_name_too_short
    else if ltb max_user_name_len (len user)
    then err user_name_too_long
    else ok tt

abbrev pub check_password : String → Fallible ApiError (Unit {0})
check_password password =
    if ltb (len password) min_user_password_len
    then err user_password_too_short
    else if ltb max_user_password_len (len password)
    then err user_password_too_long
    else ok tt

abbrev pub reserved_name : String
reserved_name = "hexstody-exchange"

-- What a user who signs in by a password is checked against.
abbrev password_hash : Option UserInfo → Option String
password_hash none = none
password_hash (some user) = elim user.auth [
  | SignupAuth.password pass_hash ↦ some pass_hash
  | SignupAuth.lightning ↦ none
]

module _ {W : Type 0} (eth : EthClient W) (bcrypt : Bcrypt) (now : NaiveDateTime) where
  unfoldable pub signup_email : State → SignupEmail → Handler W (Unit {0})
  unfolding send_unwrap default_tokens contains_key
  signup_email s form = do
    answer (check_name form.user)
    answer (check_password form.password)
    require (not (contains_key form.user s.users || form.user == reserved_name)) signup_existed_user
    require (contains_key form.invite s.invites) invite_not_found
    ask failed_eth_connection (eth.createuser form.user)
    ask failed_eth_connection (eth.post_tokens form.user default_tokens)
    pass_hash ← answer (map_err pwhash (bcrypt.hash form.password))
    send_unwrap now (
        UpdateBody.signup (record {
          username = form.user;
          invite = form.invite;
          auth = SignupAuth.password pass_hash;
        }))

  -- A user without a password is not asked for the old one.
  abbrev knows_password : String → UserInfo → Bool
  knows_password old_password user = elim user.auth [
    | SignupAuth.password pass_hash ↦ bcrypt.verify old_password pass_hash
    | SignupAuth.lightning ↦ true
  ]

  unfoldable pub change_password : State → PasswordChange → Handler W (Unit {0})
  unfolding require_auth_user send_unwrap
  change_password s form = require_auth_user s λ user. do
    require (knows_password form.old_password user) user_name_too_short
    answer (check_password form.new_password)
    new_pass_hash ← answer (map_err pwhash (bcrypt.hash form.new_password))
    send_unwrap now
        (UpdateBody.password_change (record { user = user.username; new_password = new_pass_hash }))

  -- `cookies.add_private`
  abbrev sign_in : UserId → Handler W (Unit {0})
  sign_in user w = (some (ok tt), record w { cookie = some user })

  unfoldable pub signin_email : State → SigninEmail → Handler W (Unit {0})
  signin_email s form = do
    answer (check_name form.user)
    answer (check_password form.password)
    pass_hash ← found (password_hash (lookup form.user s.users)) signin_failed
    require (bcrypt.verify form.password pass_hash) signin_failed
    sign_in form.user

  -- For tests only: the state is written past the worker. Otherwise the answer is a redirection.
  unfoldable pub remove_user : Bool → UserId → State → World W → Option State × World W
  remove_user false user s w = (none, w)
  remove_user true user s w = (
    some (record s { users = remove user s.users }),
    record w { eth = (eth.remove_user user w.eth).1 },
  )

  -- `challenge` is a fresh UUID as text.
  unfoldable pub get_challenge : State → String → UserId → Handler W String
  unfolding contains_key
  get_challenge s challenge user w =
      if contains_key user s.users
      then (some (ok challenge), record w { challenges = insert user challenge w.challenges })
      else (some (err no_user_found), w)

  abbrev redeem : ChallengeResponse → Handler W (Unit {0})
  redeem resp w = elim (lookup resp.user w.challenges) [
    | none ↦ (some (err no_user_found), w)
    | some stored_challenge ↦
        if stored_challenge == resp.challenge
        then (
          some (ok tt),
          record w { challenges = remove resp.user w.challenges; cookie = some resp.user },
        )
        else (some (err no_user_found), w)
  ]

  -- The signature is checked with the key that came with it.
  unfoldable pub redeem_challenge :
      Verifier
      → (SignatureError → String)
      → (ChallengeResponse → String)
      → SignatureVerificationConfig
      → State
      → ChallengeResponse
      → SignatureData
      → Handler W (Unit {0})
  unfolding verify_signature contains_key
  redeem_challenge check debug to_json config s resp sd =
      let url = join "" (config.domain ∷ "/signin/challenge/redeem" ∷ []) in
      let message = join ":" (url ∷ to_json resp ∷ []) in
      do
        require (contains_key resp.user s.users) no_user_found
        answer (
            map_err (λ e. signature_error (debug e))
              (verify_signature check none sd.public_key sd.nonce message sd.signature))
        redeem resp
