-- ===== src/Operator/Guarded.antt =====
-- What the guard of the operators' requests gives, and that the adapter counts what it accepts.
use hexstody.Prelude.{
  ◌≡◌, ◌≢◌, ◌↔◌, refl, sym, ap, true, List, [], ◌∷◌, ◌++◌, some, String, arith, length,
  length-append,
}
use hexstody.Prelude.Fallible.{Fallible, ok, err, map_err}
use hexstody.Prelude.Text.{join, u64_to_string}
use hexstody.Domain.Types.{DecisionType, SignatureData}
use hexstody.Domain.Error.{ApiError, signature_error}
use hexstody.Domain.Requests.{LimitConfirmationData, ExchangeConfirmationData}
use hexstody.Signed.{
  SignatureError, verify-accepts, contains, verify, signed_text, verify-verify_signature,
}
use hexstody.Update.Body.{UpdateBody}
use hexstody.Update.Withdrawal.{decision_info_from, ConfirmationData}
use hexstody.Update.Channel.{Channel}
use hexstody.Operator.{
  Service, guard_op_signature, send, after, verification_data, url_of, signature_error_name,
}
use hexstody.Operator.Decisions.{
  confirm, reject, limit_decision_from, exchange_decision_from, confirm_limits, reject_limits,
  confirm_exchange, reject_exchange,
}
use hexstody.Btc.Withdraw.{
  is_ok, passes, withdrawal_confirm_uri, withdrawal_reject_uri, decision_message,
}

append-≢ : {A : Type 0} (xs : List A) (x : A) → xs ++ x ∷ [] ≢ xs
append-≢ xs x h = omega (arith, ap length h, length-append xs (x ∷ []))

-- The signature is an operator's, over the address, the body and the nonce.
abbrev pub IsAuthorised : Service → String → SignatureData → String → Type 0
IsAuthorised service uri sd body =
    (contains sd.public_key service.config.operator_public_keys ≡ true)
    × (service.check sd.public_key
          (join ":" (url_of service uri ∷ body ∷ u64_to_string sd.nonce ∷ [])) sd.signature
        ≡ true)

module _ (service : Service) (u : UpdateBody) (ch : Channel) where
  send-≢ : ch.listens ≡ true → (send service u ch).1 ≢ ch
  unfolding send
  send-≢ on h =
      append-≢ ch.sent (record { created = service.now; body = u }) (ap (λ c. c.sent) (rw on at h))

  after-is_ok :
      (f : SignatureError → ApiError) (r : Fallible SignatureError (Unit {0}))
      → ch.listens ≡ true
      → ((after (map_err f r) (send service u) ch).1 ≢ ch) ↔ (is_ok r ≡ true)
  after-is_ok f (ok tt) on = (λ sent. refl, λ good. send-≢ on)
  after-is_ok f (err e) on = (λ sent. absurd (sent refl), λ good. cc)

  after_changes :
      (f : SignatureError → ApiError) (r : Fallible SignatureError (Unit {0}))
      → (after (map_err f r) (send service u) ch).1 ≢ ch
      → r ≡ ok tt
  after_changes f (ok tt) sent = refl
  after_changes f (err e) sent = absurd (sent refl)

module _ (service : Service) (uri : String) (sd : SignatureData) (body : String) where
  -- The update is sent exactly when the adapter would count the signature under the same text.
  after-passes :
      (u : UpdateBody) (ch : Channel)
      → ch.listens ≡ true
      → ((after (guard_op_signature service uri sd body) (send service u) ch).1 ≢ ch) ↔ (
          passes service.check service.config.operator_public_keys
            (join ":" (url_of service uri ∷ body ∷ []))
            sd
          ≡ true)
  unfolding guard_op_signature
  after-passes u ch on =
      let keys = service.config.operator_public_keys in
      let same =
        verify-verify_signature service.check (url_of service uri) body sd.public_key sd.nonce
          sd.signature keys in
      rw (sym same) (
        after-is_ok service u ch (λ e. signature_error (signature_error_name e))
          (verify service.check (verification_data service uri sd (some body)) keys) on)

  after-IsAuthorised :
      (u : UpdateBody) (ch : Channel)
      → (after (guard_op_signature service uri sd body) (send service u) ch).1 ≢ ch
      → IsAuthorised service uri sd body
  unfolding guard_op_signature signed_text
  after-IsAuthorised u ch sent =
      let keys = service.config.operator_public_keys in
      let d = verification_data service uri sd (some body) in
      (verify-accepts service.check d keys).0 (
        after_changes service u ch (λ e. signature_error (signature_error_name e))
          (verify service.check d keys) sent)

-- While the worker listens, the operator interface sends an update for a confirmation, or for a
-- rejection, exactly when the bitcoin adapter counts the same signature as one for it, given that
-- both have the same operators' keys and the same domain.
pub confirm-passes :
    (service : Service) (to_json : ConfirmationData → String) (sd : SignatureData)
    (cd : ConfirmationData) (ch : Channel)
    → ch.listens ≡ true
    → (((confirm service to_json sd cd ch).1 ≢ ch) ↔ (
        passes service.check service.config.operator_public_keys
          (decision_message to_json service.config.domain withdrawal_confirm_uri cd)
          sd
        ≡ true))
      × (((reject service to_json sd cd ch).1 ≢ ch) ↔ (
          passes service.check service.config.operator_public_keys
            (decision_message to_json service.config.domain withdrawal_reject_uri cd)
            sd
          ≡ true))
unfolding confirm reject
confirm-passes service to_json sd cd ch on = (
  after-passes service "/confirm" sd (to_json cd)
      (UpdateBody.withdrawal_request_decision
        (decision_info_from cd sd DecisionType.confirm (url_of service "/confirm")))
      ch on,
  after-passes service "/reject" sd (to_json cd)
      (UpdateBody.withdrawal_request_decision
        (decision_info_from cd sd DecisionType.reject (url_of service "/reject")))
      ch on,
)

-- A decision on a limit or on an exchange changes what the worker is sent only if its key is an
-- operator's and its signature is one of this key over the address of the request, its body and the
-- nonce.
pub limits_and_exchange-IsAuthorised :
    (service : Service) (limit_json : LimitConfirmationData → String)
    (exchange_json : ExchangeConfirmationData → String) (sd : SignatureData)
    (limit : LimitConfirmationData) (exchange : ExchangeConfirmationData) (ch : Channel)
    → ((confirm_limits service limit_json sd limit ch).1 ≢ ch
        → IsAuthorised service "/limits/confirm" sd (limit_json limit))
      × ((reject_limits service limit_json sd limit ch).1 ≢ ch
          → IsAuthorised service "/limits/reject" sd (limit_json limit))
      × ((confirm_exchange service exchange_json sd exchange ch).1 ≢ ch
          → IsAuthorised service "/exchange/confirm" sd (exchange_json exchange))
      × ((reject_exchange service exchange_json sd exchange ch).1 ≢ ch
          → IsAuthorised service "/exchange/reject" sd (exchange_json exchange))
unfolding confirm_limits reject_limits confirm_exchange reject_exchange
limits_and_exchange-IsAuthorised service limit_json exchange_json sd limit exchange ch =
    let by_limit = λ (kind : DecisionType) (uri : String).
      after-IsAuthorised service uri sd (limit_json limit)
        (UpdateBody.limit_change_decision (limit_decision_from limit sd kind (url_of service uri)))
        ch in
    let by_exchange = λ (kind : DecisionType) (uri : String).
      after-IsAuthorised service uri sd (exchange_json exchange)
        (UpdateBody.exchange_decision
          (exchange_decision_from exchange sd kind (url_of service uri)))
        ch in
    (
      by_limit DecisionType.confirm "/limits/confirm",
      by_limit DecisionType.reject "/limits/reject",
      by_exchange DecisionType.confirm "/exchange/confirm",
      by_exchange DecisionType.reject "/exchange/reject",
    )
