-- ===== src/Domain/Error.antt =====
-- hexstody-api/src/error.rs: the errors of the two HTTP interfaces, their codes and statuses. The error
-- of the pwhash crate is its text.
use hexstody.Prelude.{ℕ, String}
use hexstody.Domain.Currency.{Currency, Erc20Token}

abbrev pub min_user_name_len : ℕ
min_user_name_len = 3

abbrev pub max_user_name_len : ℕ
max_user_name_len = 320

abbrev pub min_user_password_len : ℕ
min_user_password_len = 6

abbrev pub max_user_password_len : ℕ
max_user_password_len = 1024

pub data ApiError : Type 0 where
  signup_existed_user : ApiError
  user_name_too_short : ApiError
  user_name_too_long : ApiError
  user_password_too_short : ApiError
  user_password_too_long : ApiError
  pwhash : String → ApiError
  signin_failed : ApiError
  auth_required : ApiError
  no_user_found : ApiError
  no_user_currency : Currency → ApiError
  failed_gen_address : Currency → ApiError
  failed_get_fee : Currency → ApiError
  insufficient_funds : Currency → ApiError
  failed_eth_connection : String → ApiError
  token_already_enabled : Erc20Token → ApiError
  token_already_disabled : Erc20Token → ApiError
  token_non_zero_balance : Erc20Token → ApiError
  token_action_failed : String → ApiError
  invite_not_found : ApiError
  limits_no_changes : ApiError
  lim_change_not_found : ApiError
  signature_error : String → ApiError
  internal_server_error : String → ApiError
  generic_error : String → ApiError
  unknown_currency : String → ApiError
  lang_not_changed : ApiError
  invalid_email : ApiError
  invalid_phone_number : ApiError
  exchange_rate_error : Currency → ApiError

unfoldable pub code : ApiError → ℕ
code signup_existed_user = 0
code user_name_too_short = 1
code user_name_too_long = 2
code user_password_too_short = 3
code user_password_too_long = 4
code (pwhash x) = 5
code signin_failed = 6
code auth_required = 7
code no_user_found = 8
code (no_user_currency x) = 9
code (failed_gen_address x) = 10
code (failed_get_fee x) = 11
code (insufficient_funds x) = 12
code (failed_eth_connection x) = 13
code (token_already_enabled x) = 14
code (token_already_disabled x) = 15
code (token_non_zero_balance x) = 16
code (token_action_failed x) = 17
code invite_not_found = 18
code limits_no_changes = 19
code lim_change_not_found = 20
code (signature_error x) = 21
code (internal_server_error x) = 23
code (generic_error x) = 24
code (unknown_currency x) = 22
code lang_not_changed = 25
code invalid_email = 26
code invalid_phone_number = 27
code (exchange_rate_error x) = 28

unfoldable pub status : ApiError → ℕ
status signup_existed_user = 400
status user_name_too_short = 400
status user_name_too_long = 400
status user_password_too_short = 400
status user_password_too_long = 400
status (pwhash x) = 500
status signin_failed = 401
status auth_required = 401
status no_user_found = 417
status (no_user_currency x) = 500
status (failed_gen_address x) = 500
status (failed_get_fee x) = 500
status (insufficient_funds x) = 417
status (failed_eth_connection x) = 500
status (token_already_enabled x) = 500
status (token_already_disabled x) = 500
status (token_non_zero_balance x) = 500
status (token_action_failed x) = 500
status invite_not_found = 400
status limits_no_changes = 500
status lim_change_not_found = 400
status (signature_error x) = 403
status (internal_server_error x) = 500
status (generic_error x) = 500
status (unknown_currency x) = 400
status lang_not_changed = 400
status invalid_email = 400
status invalid_phone_number = 400
status (exchange_rate_error x) = 404

-- `ErrorMessage`, with the status that it is sent with
pub record ErrorMessage : Type 0 where
  pub sent_as : ℕ
  pub message : String
  pub code : ℕ

-- `From<Error>`, with the text that the error is displayed as
unfoldable pub into_message : (ApiError → String) → ApiError → ErrorMessage
unfolding code status
into_message display e = record { sent_as = status e; message = display e; code = code e }
