-- ===== src/Public/Accepted.antt =====
-- What the users' requests check is what the state asks of the updates that they send.
use Prim.Native.String.{len}
use hexstody.Prelude.{
  ◌∙◌, ◌⊎◌, ap, Option-cases, ℕ, ◌+◌, ◌*◌, ◌≤◌, ◌<◌, ◌≡◌, refl, true, false, List, [], ◌∷◌, Option,
  none, some, String, string_eq, arith, All, filter_map, inl, inr, ◌==◌, ◌≢◌, ==_refl, ==_iff,
  Bool-cases, ltb, leb,
}
use hexstody.Prelude.Dict.{lookup, contains_key, remove, lookup-remove}
use hexstody.Prelude.Words.{u64_mod, add_u64, sub_u64, add_u64_id}
use hexstody.Prelude.Fallible.{Fallible, ok, err}
use hexstody.Prelude.Text.{join, u64_to_string}
use hexstody.Domain.Types.{NaiveDateTime, Uuid, SignatureData}
use hexstody.Domain.Currency.{
  Currency, currency_eq, CurrencyAddress, BtcAddress, Erc20Token, currency,
}
use hexstody.Update.Signup.{SignupAuth}
use hexstody.Domain.Error.{ApiError, no_user_found, signature_error}
use hexstody.Update.Body.{UpdateBody}
use hexstody.Update.Withdrawal.{WithdrawalRequestType, under_limit, over_limit}
use hexstody.State.Core.{State, ok, with_user, with_currency}
use hexstody.State.Accounts.{with_signup}
use hexstody.State.Withdrawals.{
  with_new_withdrawal_request, insert_by_type, UpdateResult, withdrawal_underlimit,
}
use hexstody.State.Withdraw.{WithdrawalRequest, request_from}
use hexstody.State.User.{UserInfo, UserCurrencyInfo, finalized_balance}
use hexstody.Signed.{Verifier, SignatureVerificationConfig, SignatureError, verify_signature}
use hexstody.Public.{World, push, require_auth_user, require_auth, send_or}
use hexstody.Public.Auth.{
  EthClient, Bcrypt, SignupEmail, signup_email, ChallengeResponse, redeem_challenge,
}
use hexstody.Public.Wallet.{
  UserWithdrawRequest, post_withdraw, withdraw_btc, withdrawal_info, request_type_for,
  required_amount, others,
}

-- Every token that is posted as still enabled is the disabled one.
pub others_same :
    (token : Erc20Token) (currencies : List Currency)
    → All (λ t. t ≡ token) (filter_map (others token) currencies)
others_same token [] = tt
others_same token (Currency.btc ∷ rest) = others_same token rest
others_same token (Currency.eth ∷ rest) = others_same token rest
others_same token (Currency.erc20 t ∷ rest) = elim (Bool-cases (t.ticker == token.ticker)) [
  | inl same ↦ rw (same, All, filter_map) (others_same token rest)
  | inr other ↦ rw (other, All, filter_map) (refl, others_same token rest)
]

sub_u64_id : (a b : ℕ) → b ≤ a → a < u64_mod → sub_u64 a b + b ≡ a
unfolding sub_u64
sub_u64_id a b h small = omega arith

required_amount_id :
    (amount rate : ℕ)
    → amount + rate * 1024 < u64_mod
    → required_amount amount rate ≡ amount + rate * 1024
unfolding required_amount add_u64
required_amount_id amount rate h = omega arith

under_limit_fits :
    (info : UserCurrencyInfo) (amount rate : ℕ)
    → info.limit_info.spent ≤ info.limit_info.limit.amount
    → info.limit_info.limit.amount < u64_mod
    → amount + rate * 1024 < u64_mod
    → request_type_for info (required_amount amount rate) ≡ under_limit
    → ltb info.limit_info.limit.amount (add_u64 info.limit_info.spent amount) ≡ false
unfolding request_type_for
under_limit_fits info amount rate hs hl ha h = ground (
  arith,
  required_amount_id amount rate ha,
  sub_u64_id info.limit_info.limit.amount info.limit_info.spent hs hl,
  add_u64_id info.limit_info.spent amount,
)

insert_fits :
    (t : WithdrawalRequestType) (req : WithdrawalRequest) (user : UserInfo)
    (info : UserCurrencyInfo) (s : State)
    → (t ≡ under_limit
        → ltb info.limit_info.limit.amount (add_u64 info.limit_info.spent req.amount) ≡ false)
    → (r : Option UpdateResult) × ((insert_by_type t req user info s).0 ≡ ok r)
unfolding insert_by_type
insert_fits under_limit req user info s fits =
    (some (withdrawal_underlimit req), rw (insert_by_type, fits refl) refl)
insert_fits over_limit req user info s fits = (none, refl)

module _ {W : Type 0} (now : NaiveDateTime) where
  -- Take a user who is signed in, has a bitcoin account whose amount spent is at most its limit,
  -- and wants to withdraw an amount that fits with the fee into a `u64` and into his finalized
  -- balance. While the worker listens, the request is answered with success and sends the creation
  -- of a withdrawal request, below or above the limit as the code decides, and the state as it is
  -- accepts this update.
  pub post_withdraw-accepted :
      (id : Uuid) (s : State) (w : World W) (user : UserInfo) (info : UserCurrencyInfo)
      (a : BtcAddress) (amount rate : ℕ)
      → lookup user.username s.users ≡ some user
      → lookup Currency.btc user.currencies ≡ some info
      → w.channel.listens ≡ true
      → info.limit_info.spent ≤ info.limit_info.limit.amount
      → info.limit_info.limit.amount < u64_mod
      → amount + rate * 1024 < u64_mod
      → amount + rate * 1024 ≤ finalized_balance info
      → let req : UserWithdrawRequest = record {
        address = CurrencyAddress.btc a;
        amount = amount;
      } in
        let upd =
          withdrawal_info id user req (request_type_for info (required_amount amount rate)) in
        let session = record w { cookie = some user.username } in
        (post_withdraw now (ok rate) id s req session
          ≡ (some (ok tt), (push now (UpdateBody.create_withdrawal_request upd) session).1))
        × ((r : Option UpdateResult) × ((with_new_withdrawal_request now upd s).0 ≡ ok r))
  unfolding post_withdraw withdraw_btc with_new_withdrawal_request currency require_auth_user
      require_auth send_or
  post_withdraw-accepted id s w user info a amount rate hu hi hl hs hm hr hb =
      let req : UserWithdrawRequest = record { address = CurrencyAddress.btc a; amount = amount } in
      let required = required_amount amount rate in
      let enough : leb required (finalized_balance info) ≡ true =
        ground (arith, required_amount_id amount rate hr) in
      let upd = withdrawal_info id user req (request_type_for info required) in
      (
        rw (hu, hi, enough, hl) refl,
        rw (with_new_withdrawal_request, with_user, hu, with_currency, hi)
            (insert_fits (request_type_for info required) (request_from now upd) user info s
              (under_limit_fits info amount rate hs hm hr)),
      )

-- If a sign-up is answered with success, then the name has 3 to 320 bytes and is not the reserved
-- one, the password has 6 to 1024 bytes, and the state as it is accepts the sign-up with any hash.
pub signup_email-accepted :
    {W : Type 0} (eth : EthClient W) (bcrypt : Bcrypt) (now : NaiveDateTime) (s : State)
    (form : SignupEmail) (w : World W) (hash : String)
    → (signup_email eth bcrypt now s form w).0 ≡ some (ok tt)
    → ((3 ≤ len form.user) × (len form.user ≤ 320))
      × ((6 ≤ len form.password) × (len form.password ≤ 1024))
      × (form.user ≢ "hexstody-exchange")
      × ((with_signup now
            (record { username = form.user; invite = form.invite; auth = SignupAuth.password hash })
            s).0
          ≡ ok tt)
unfolding signup_email with_signup contains_key
signup_email-accepted eth bcrypt now s form w hash h =
    ground (arith, ==_iff form.user "hexstody-exchange")

module _ {W : Type 0} (eth : EthClient W) (bcrypt : Bcrypt) (now : NaiveDateTime) (check : Verifier)
    (debug : SignatureError → String) (to_json : ChallengeResponse → String)
    (config : SignatureVerificationConfig) (s : State) (resp : ChallengeResponse)
    (sd : SignatureData) where
  abbrev signed_message : String
  signed_message = join ":" (
      join ":" (join "" (config.domain ∷ "/signin/challenge/redeem" ∷ []) ∷ to_json resp ∷ [])
      ∷ u64_to_string sd.nonce
      ∷ [])

  -- The response is signed under the key that it brings.
  abbrev pub IsSignedByItsKey : Type 0
  IsSignedByItsKey = check sd.public_key signed_message sd.signature ≡ true

  abbrev redeemed : World W → Option (Fallible ApiError (Unit {0})) × World W
  redeemed w = redeem_challenge eth bcrypt now check debug to_json config s resp sd w

  redeems :
      (w : World W)
      → contains_key resp.user s.users ≡ true
      → lookup resp.user w.challenges ≡ some resp.challenge
      → IsSignedByItsKey
      → redeemed w ≡ (
        some (ok tt),
        record w { challenges = remove resp.user w.challenges; cookie = some resp.user },
      )
  unfolding redeem_challenge
  redeems w known issued valid =
      rw (redeem_challenge, known, verify_signature, valid, issued, ==_refl resp.challenge) refl

  redeemed_unissued :
      (w : World W)
      → contains_key resp.user s.users ≡ true
      → IsSignedByItsKey
      → lookup resp.user w.challenges ≡ none
      → redeemed w ≡ (some (err no_user_found), w)
  unfolding redeem_challenge
  redeemed_unissued w known valid gone =
      rw (redeem_challenge, known, verify_signature, valid, gone) refl

  -- The user is known, was issued this challenge, and a key has signed the response.
  abbrev pub MayRedeem : World W → Type 0
  MayRedeem w =
      (contains_key resp.user s.users ≡ true)
      × (lookup resp.user w.challenges ≡ some resp.challenge)
      × IsSignedByItsKey

  -- A response to a challenge does one of two things. If the user is known, has been issued this
  -- challenge, and the response is signed under the key that it brings, whichever key that is, then
  -- it signs in as this user and uses the challenge up, so that the same response then fails with
  -- `NoUserFound`. If one of these does not hold, it fails and changes nothing.
  pub redeem_challenge_any_key :
      (w : World W)
      → let after : World W = record w {
        challenges = remove resp.user w.challenges;
        cookie = some resp.user;
      } in
        (MayRedeem w
          × (redeemed w ≡ (some (ok tt), after))
          × ((redeemed after).0 ≡ some (err no_user_found)))
        ⊎ ((¬ MayRedeem w) × ((e : ApiError) × (redeemed w ≡ (some (err e), w))))
  unfolding redeem_challenge
  redeem_challenge_any_key w = elim (Bool-cases (contains_key resp.user s.users)) [
    | inr unknown ↦
        inr (λ h. ground (arith, h.0), (no_user_found, rw (redeem_challenge, unknown) refl))
    | inl known ↦ elim (Bool-cases (check sd.public_key signed_message sd.signature)) [
      | inr invalid ↦ inr (
        λ h. ground (arith, h.2),
        (
          signature_error (debug SignatureError.invalid_signature),
          rw (redeem_challenge, known, verify_signature, invalid) refl,
        ),
      )
      | inl valid ↦ elim (Option-cases (lookup resp.user w.challenges)) [
        | inl unissued ↦
            inr
              (λ h. ground (arith, h.1), (no_user_found, redeemed_unissued w known valid unissued))
        | inr (stored, issued) ↦ elim (Bool-cases (stored == resp.challenge)) [
          | inr other ↦ inr (
            λ h. ground (arith, h.1, ==_iff stored resp.challenge),
            (
              no_user_found,
              rw (redeem_challenge, known, verify_signature, valid, issued, other) refl,
            ),
          )
          | inl same ↦
              let named : stored ≡ resp.challenge = (==_iff stored resp.challenge).0 same in
              let given = issued ∙ ap some named in
              let after : World W = record w {
                challenges = remove resp.user w.challenges;
                cookie = some resp.user;
              } in
              let gone : lookup resp.user after.challenges ≡ none =
                rw (lookup-remove resp.user resp.user w.challenges, ==_refl resp.user) refl in
              inl (
                (known, given, valid),
                redeems w known given valid,
                ap (λ p. p.0) (redeemed_unissued after known valid gone),
              )
        ]
      ]
    ]
  ]
