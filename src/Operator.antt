-- ===== src/Operator.antt =====
-- hexstody-operator/src/api: the requests of the operators, each under a signature of one of them.
pub mod Decisions
pub mod Guarded
pub mod Invites
pub mod Deposit
pub mod Queries
use hexstody.Prelude.{
  ℕ, Bool, true, false, List, [], ◌∷◌, ◌++◌, Option, none, some, String, arith, if◌then◌else◌, ◌≡◌,
  ◌≢◌, refl, inl, inr,
}
use hexstody.Prelude.Fallible.{Fallible, ok, err, map_err, map_ok, Fallible-cases}
use hexstody.Prelude.Text.{join}
use hexstody.Domain.Types.{SignatureData, PublicKey, NaiveDateTime}
use hexstody.Domain.Error.{ApiError, signature_error, internal_server_error}
use hexstody.Signed.{
  Verifier, SignatureVerificationConfig, SignatureVerificationData, SignatureError, verify,
}
use hexstody.Update.Body.{StateUpdate, UpdateBody}
use hexstody.Update.Channel.{Channel}

-- What a request needs besides the state: the check of signatures, the clock and the text of a failed
-- send.
pub record Service : Type 0 where
  pub check : Verifier
  pub config : SignatureVerificationConfig
  pub now : NaiveDateTime
  pub send_error : StateUpdate → String

-- A request's outcome, and the channel that it leaves.
abbrev pub Call : Type 0 → Type 0
Call A = Channel → Fallible ApiError A × Channel

abbrev pub signature_error_name : SignatureError → String
signature_error_name SignatureError.invalid_public_key = "InvalidPublicKey"
signature_error_name SignatureError.invalid_signature = "InvalidSignature"
signature_error_name SignatureError.invalid_domain = "InvalidDomain"

module _ (service : Service) where
  abbrev pub url_of : String → String
  url_of uri = join "" (service.config.domain ∷ uri ∷ [])

  abbrev pub verification_data : String → SignatureData → Option String → SignatureVerificationData
  verification_data uri sd message = record {
    url = url_of uri;
    signature = sd.signature;
    nonce = sd.nonce;
    message = message;
    public_key = sd.public_key;
  }

  abbrev guard : String → SignatureData → Option String → Fallible ApiError (Unit {0})
  guard uri sd message =
      map_err (λ e. signature_error (signature_error_name e))
        (verify service.check (verification_data uri sd message)
          service.config.operator_public_keys)

  -- The body is signed as its JSON text.
  unfoldable pub guard_op_signature : String → SignatureData → String → Fallible ApiError (Unit {0})
  guard_op_signature uri sd body = guard uri sd (some body)

  unfoldable pub guard_op_signature_nomsg : String → SignatureData → Fallible ApiError (Unit {0})
  guard_op_signature_nomsg uri sd = guard uri sd none

  -- `update_sender.send(StateUpdate::new(body))`
  unfoldable pub send : UpdateBody → Call (Unit {0})
  send body channel =
      let update : StateUpdate = record { created = service.now; body = body } in
      if channel.listens
      then (ok tt, record channel { sent = channel.sent ++ update ∷ [] })
      else (err (internal_server_error (service.send_error update)), channel)

-- A handler goes on only after its guard.
abbrev pub after : {A : Type 0} → Fallible ApiError (Unit {0}) → Call A → Call A
after (ok u) call channel = call channel
after (err e) call channel = (err e, channel)
