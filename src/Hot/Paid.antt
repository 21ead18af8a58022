-- ===== src/Hot/Paid.antt =====
-- From the operators' decisions to the payment: the stored decisions carry the signatures that the
-- adapter counts.
use mathlib.Core.Path.{subst}
use Prim.Native.String.{◌++◌ as ◌+++◌}
use hexstody.Prelude.{
  All-append, All-map, ◌==◌, nat_eq, suc, ◌+◌, ◌<◌, ◌≡◌, refl, ap, Bool, true, List, [], ◌∷◌, ◌++◌,
  Option, none, some, String, arith, map, length, retain, All, inl, inr, Bool-cases, not,
}
use hexstody.Prelude.Int.{pos, ◌≤ℤ◌}
use hexstody.Prelude.Words.{i16_half}
use hexstody.Prelude.Fallible.{ok, err, map_err}
use hexstody.Domain.Types.{SignatureData, confirm, reject}
use hexstody.Domain.Currency.{CurrencyAddress, BtcAddress}
use hexstody.Update.Btc.{Address, Txid}
use hexstody.Update.Body.{UpdateBody}
use hexstody.Domain.Requests.{ConfirmedWithdrawal}
use hexstody.Update.Withdrawal.{
  over_limit, ConfirmationData, WithdrawalRequestDecision, WithdrawalRequestDecisionInfo,
  WithdrawalRequestId, decision_from, signature_data_from,
}
use hexstody.State.Core.{ok}
use hexstody.State.Withdraw.{WithdrawalRequest, confirmed}
use hexstody.State.Withdrawals.{decide, without_key}
use hexstody.State.Withdrawals.Counting.{IsCounted, Tallies}
use hexstody.State.Withdrawals.Lists.{SameRequest, decide-lists}
use hexstody.Signed.{Verifier}
use hexstody.Btc.{Node}
use hexstody.Btc.Withdraw.{
  Failure, passes, decision_message, withdrawal_confirm_uri, withdrawal_reject_uri,
  confirmation_data, WithdrawCfg, is_confirmed, withdraw_btc, withdraw_btc_under_limit,
}
use hexstody.Btc.Withdraw.Tally.{is_confirmed-votes}
use hexstody.Hot.{btc_outcome, Format, confirmed_withdrawal}

All-retain :
    {A : Type 0} (P : A → Type 0) (keep : A → Bool) (xs : List A)
    → All P xs
    → All P (retain keep xs)
All-retain P keep [] all = tt
All-retain P keep (y ∷ ys) all = elim (Bool-cases (keep y)) [
  | inl kept ↦ rw kept (all.0, All-retain P keep ys all.1)
  | inr gone ↦ rw gone (All-retain P keep ys all.1)
]

-- Nothing is lost where every element passes.
length-retain-All :
    {A B : Type 0} (p : B → Bool) (g : A → B) (xs : List A)
    → All (λ x. p (g x) ≡ true) xs
    → length (retain p (map g xs)) ≡ length xs
length-retain-All p g [] all = refl
length-retain-All p g (x ∷ xs) all = rw all.0 (ap suc (length-retain-All p g xs all.1))

length-map : {A B : Type 0} (g : A → B) (xs : List A) → length (map g xs) ≡ length xs
length-map g [] = refl
length-map g (x ∷ xs) = ap suc (length-map g xs)

module _ (check : Verifier) (to_json : ConfirmationData → String) (cfg : WithdrawCfg)
    (f : Format) where
  -- The signature of a decision is one that the adapter counts.
  abbrev pub Counts : String → WithdrawalRequest → SignatureData → Type 0
  Counts uri req sd =
      passes check cfg.op_public_keys
        (decision_message to_json cfg.hot_domain uri
          (confirmation_data (confirmed_withdrawal f req.id req)))
        sd
      ≡ true

  pub record IsSigned (req : WithdrawalRequest) : Type 0 where
    pub confirmed_by :
        All (λ d. Counts withdrawal_confirm_uri req (signature_data_from d)) req.confirmations
    pub rejected_by :
        All (λ d. Counts withdrawal_reject_uri req (signature_data_from d)) req.rejections

  Counts-same :
      (uri : String) (req req' : WithdrawalRequest) (sd : SignatureData)
      → SameRequest req req'
      → Counts uri req sd ≡ Counts uri req' sd
  unfolding confirmed_withdrawal
  Counts-same uri req req' sd same = rw (same.0, same.1, same.2, same.3, same.4) refl

  -- If all decisions of a withdrawal request carry signatures that the bitcoin adapter counts for
  -- it, and so does a new decision for its side, then a decision that is taken leaves all of them
  -- so.
  pub decide-IsSigned :
      (d : WithdrawalRequestDecisionInfo) (req : WithdrawalRequest)
      {res : Option WithdrawalRequestId} {req' : WithdrawalRequest}
      → (d.decision_type ≡ confirm
          → Counts withdrawal_confirm_uri req (signature_data_from (decision_from d)))
      → (d.decision_type ≡ reject
          → Counts withdrawal_reject_uri req (signature_data_from (decision_from d)))
      → IsSigned req
      → decide d req ≡ ok (res, req')
      → IsSigned req'
  unfolding without_key confirmed_withdrawal
  decide-IsSigned d req {res} {req'} confirms rejects signed h =
      let lists = decide-lists d req {res = res} {req' = req'} h in
      let now = λ (uri : String) (c : WithdrawalRequestDecision).
        subst (λ T. T) (Counts-same uri req req' (signature_data_from c) lists.0) in
      let side = λ (uri : String) (xs : List WithdrawalRequestDecision).
        All-map (λ c. Counts uri req (signature_data_from c))
          (λ c. Counts uri req' (signature_data_from c)) xs (now uri) in
      elim lists.1 [
        | inl c ↦ record {
          confirmed_by = rw c.1 (
              side withdrawal_confirm_uri (req.confirmations ++ decision_from d ∷ []) (
                All-append (λ x. Counts withdrawal_confirm_uri req (signature_data_from x))
                  req.confirmations (decision_from d) signed.confirmed_by (confirms c.0)));
          rejected_by = rw c.2 (
              side withdrawal_reject_uri (without_key d.public_key req.rejections) (
                All-retain (λ x. Counts withdrawal_reject_uri req (signature_data_from x))
                  (λ x. not (x.public_key == d.public_key)) req.rejections signed.rejected_by));
        }
        | inr c ↦ record {
          rejected_by = rw c.1 (
              side withdrawal_reject_uri (req.rejections ++ decision_from d ∷ []) (
                All-append (λ x. Counts withdrawal_reject_uri req (signature_data_from x))
                  req.rejections (decision_from d) signed.rejected_by (rejects c.0)));
          confirmed_by = rw c.2 (
              side withdrawal_confirm_uri (without_key d.public_key req.confirmations) (
                All-retain (λ x. Counts withdrawal_confirm_uri req (signature_data_from x))
                  (λ x. not (x.public_key == d.public_key)) req.confirmations signed.confirmed_by));
        }
      ]

  is_confirmed-IsSigned :
      (req : WithdrawalRequest)
      → IsSigned req
      → IsCounted req
      → req.status ≡ confirmed
      → cfg.min_confirmations ≤ℤ pos 2
      → length req.confirmations + length req.rejections < i16_half
      → is_confirmed check to_json cfg (confirmed_withdrawal f req.id req) ≡ true
  unfolding confirmed_withdrawal
  is_confirmed-IsSigned req signed counted status few room =
      let cd = confirmation_data (confirmed_withdrawal f req.id req) in
      let counts = λ (uri : String).
        passes check cfg.op_public_keys (decision_message to_json cfg.hot_domain uri cd) in
      let all_confirm =
        length-retain-All (counts withdrawal_confirm_uri) signature_data_from req.confirmations
          signed.confirmed_by in
      let all_reject =
        length-retain-All (counts withdrawal_reject_uri) signature_data_from req.rejections
          signed.rejected_by in
      let two : length req.confirmations ≡ length req.rejections + 2 =
        subst (λ s. Tallies s (length req.confirmations) (length req.rejections)) status
          counted.tallied in
      (is_confirmed-votes check to_json cfg (confirmed_withdrawal f req.id req)
          (omega (arith, length-map signature_data_from req.confirmations))
          (omega (arith, length-map signature_data_from req.rejections))).1
        (omega arith)

  -- Take a withdrawal request that is confirmed and counted, whose decisions all carry signatures
  -- that the bitcoin adapter counts for it, and has fewer decisions than an `i16` can count. If the
  -- adapter requires at most 2 confirmations, it treats the request that the hot wallet sends
  -- exactly as a request that needs no signatures: with the same answer and the same payment.
  pub withdraw_btc-IsSigned :
      {N E : Type 0} (node : Node N E) (req : WithdrawalRequest) (n : N)
      → IsSigned req
      → IsCounted req
      → req.status ≡ confirmed
      → cfg.min_confirmations ≤ℤ pos 2
      → length req.confirmations + length req.rejections < i16_half
      → withdraw_btc node check to_json cfg (confirmed_withdrawal f req.id req) n
        ≡ withdraw_btc_under_limit node cfg (confirmed_withdrawal f req.id req) n
  unfolding withdraw_btc
  withdraw_btc-IsSigned node req n signed counted status few room =
      rw (withdraw_btc, is_confirmed-IsSigned req signed counted status few room) refl

  -- If the bitcoin adapter is asked for a confirmed withdrawal to an address in bitcoin, and the
  -- node sends the payment but does not find its transaction, then the node has paid and the hot
  -- wallet reports the withdrawal as rejected by the node.
  pub paid_but_rejected :
      {N E : Type 0} (node : Node N E) (show : Failure → String) (cw : ConfirmedWithdrawal)
      (a : BtcAddress) (addr : Address) (txid : Txid) (n n' : N) (e : E)
      → is_confirmed check to_json cfg cw ≡ true
      → cw.address ≡ CurrencyAddress.btc a
      → node.parse_address a.addr ≡ some addr
      → node.send_to_address addr cw.amount (some (node.uuid_to_string cw.id)) none n
        ≡ (ok txid, n')
      → node.get_transaction txid n' ≡ err e
      → let answered = withdraw_btc node check to_json cfg cw n in
        (answered.1 ≡ n')
        × ((reason : String) × (btc_outcome f over_limit cw.id (map_err show answered.0)
              ≡ UpdateBody.withdrawal_request_node_rejected
                  (record { id = cw.id; reason = reason })))
  unfolding withdraw_btc withdraw_btc_under_limit btc_outcome
  paid_but_rejected node show cw a addr txid n n' e quorum is_btc parsed sent lost =
      let failure : Failure = record {
        status = 500;
        message = "Tx not found: " +++ node.debug e;
        code = 500;
      } in
      let answered : withdraw_btc node check to_json cfg cw n ≡ (err failure, n') =
        rw (withdraw_btc, quorum, withdraw_btc_under_limit, is_btc, parsed, sent, lost) refl in
      rw answered (refl, (show failure, refl))
