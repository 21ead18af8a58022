-- ===== src/Btc/Withdraw/Tally.antt =====
-- The tally of the signatures under a withdrawal, against the numbers of valid signatures.
use hexstody.Prelude.{
  ℕ, suc, ◌+◌, ◌≤◌, ◌<◌, ◌≡◌, ◌≢◌, ◌↔◌, refl, ap, ◌∙◌, Bool, true, List, [], ◌∷◌, arith, length,
  retain, Bool-cases, inl, inr, String,
}
use hexstody.Prelude.Int.{pos, ◌+ℤ◌, ◌-ℤ◌, pos_part, neg_part, -ℤ_parts, +ℤ_parts, one_part}
use hexstody.Prelude.Words.{i16_half, add_i16, add_i16_id, sub_i16_id}
use hexstody.Domain.Types.{PublicKey, SignatureData}
use hexstody.Domain.Requests.{ConfirmedWithdrawal}
use hexstody.Update.Withdrawal.{ConfirmationData}
use hexstody.Signed.{Verifier}
use hexstody.Btc.{Node}
use hexstody.Btc.Withdraw.{
  passes, count_valid, is_confirmed, WithdrawCfg, decision_message, withdrawal_confirm_uri,
  withdrawal_reject_uri, confirmation_data, withdraw_btc,
}

length-retain : {A : Type 0} (p : A → Bool) (xs : List A) → length (retain p xs) ≤ length xs
length-retain p [] = omega arith
length-retain p (x ∷ xs) = ground (arith, length-retain p xs)

module _ (check : Verifier) where
  count_from :
      (keys : List PublicKey) (msg : String) (k : ℕ) (sigs : List SignatureData)
      → k + length sigs < i16_half
      → count_valid check keys msg (pos k) sigs
        ≡ pos (k + length (retain (passes check keys msg) sigs))
  unfolding count_valid
  count_from keys msg k [] h = ground arith
  count_from keys msg k (sd ∷ rest) h = elim (Bool-cases (passes check keys msg sd)) [
    | inl good ↦
        let one : add_i16 (pos k) (pos 1) ≡ pos (suc k) = ground (
          arith,
          add_i16_id (pos k) (pos 1),
          +ℤ_parts (pos k) (pos 1),
          one_part (pos k +ℤ pos 1),
        ) in
        rw (good, one) (count_from keys msg (suc k) rest (omega arith) ∙ ap pos (omega arith))
    | inr bad ↦ rw bad (count_from keys msg k rest (omega arith))
  ]

  -- The number of the valid signatures.
  abbrev pub votes :
      (ConfirmationData → String)
      → WithdrawCfg
      → String
      → ConfirmedWithdrawal
      → List SignatureData
      → ℕ
  votes to_json cfg uri cw sigs = length (
      retain
        (passes check cfg.op_public_keys
          (decision_message to_json cfg.hot_domain uri (confirmation_data cw)))
        sigs)

  abbrev pub HasQuorum : (ConfirmationData → String) → WithdrawCfg → ConfirmedWithdrawal → Type 0
  HasQuorum to_json cfg cw =
      let c = votes to_json cfg withdrawal_confirm_uri cw cw.confirmations in
      let r = votes to_json cfg withdrawal_reject_uri cw cw.rejections in
      (r < c) × (pos_part cfg.min_confirmations + r ≤ neg_part cfg.min_confirmations + c)

  -- With fewer signatures on either side than an `i16` can count, the check is the quorum.
  pub is_confirmed-votes :
      (to_json : ConfirmationData → String) (cfg : WithdrawCfg) (cw : ConfirmedWithdrawal)
      → length cw.confirmations < i16_half
      → length cw.rejections < i16_half
      → (is_confirmed check to_json cfg cw ≡ true) ↔ HasQuorum to_json cfg cw
  unfolding is_confirmed
  is_confirmed-votes to_json cfg cw hc hr =
      let keys = cfg.op_public_keys in
      let cd = confirmation_data cw in
      let cm = decision_message to_json cfg.hot_domain withdrawal_confirm_uri cd in
      let rm = decision_message to_json cfg.hot_domain withdrawal_reject_uri cd in
      let c = length (retain (passes check keys cm) cw.confirmations) in
      let r = length (retain (passes check keys rm) cw.rejections) in
      let fewer = length-retain (passes check keys cm) cw.confirmations in
      let fewer_r = length-retain (passes check keys rm) cw.rejections in
      ground (
        arith,
        count_from keys cm 0 cw.confirmations,
        count_from keys rm 0 cw.rejections,
        sub_i16_id (pos c) (pos r),
        -ℤ_parts (pos c) (pos r),
        one_part (pos c -ℤ pos r),
      )

  -- If the bitcoin adapter leaves its node in another state after a withdrawal with fewer
  -- confirmations and rejections than an `i16` can count, then more of the confirmations than of
  -- the rejections are valid signatures of operators, by at least the required number.
  pub withdraw_btc-HasQuorum :
      {N E : Type 0} (node : Node N E) (to_json : ConfirmationData → String) (cfg : WithdrawCfg)
      (cw : ConfirmedWithdrawal) (n : N)
      → length cw.confirmations < i16_half
      → length cw.rejections < i16_half
      → (withdraw_btc node check to_json cfg cw n).1 ≢ n
      → HasQuorum to_json cfg cw
  unfolding withdraw_btc
  withdraw_btc-HasQuorum node to_json cfg cw n hc hr paid =
      elim (Bool-cases (is_confirmed check to_json cfg cw)) [
        | inl quorum ↦ (is_confirmed-votes to_json cfg cw hc hr).0 quorum
        | inr refused ↦ absurd (paid (rw (withdraw_btc, refused) refl))
      ]

  -- A withdrawal whose confirmations are one valid signature twice, without rejections, passes the
  -- check of an adapter that requires 2 confirmations.
  pub is_confirmed_repeats :
      (to_json : ConfirmationData → String) (cfg : WithdrawCfg) (cw : ConfirmedWithdrawal)
      (sd : SignatureData)
      → cfg.min_confirmations ≡ pos 2
      → cw.confirmations ≡ sd ∷ sd ∷ []
      → cw.rejections ≡ []
      → passes check cfg.op_public_keys
          (decision_message to_json cfg.hot_domain withdrawal_confirm_uri (confirmation_data cw))
          sd
        ≡ true
      → is_confirmed check to_json cfg cw ≡ true
  is_confirmed_repeats to_json cfg cw sd hm hc hr valid =
      (is_confirmed-votes to_json cfg cw (rw hc (omega arith)) (rw hr (omega arith))).1
        (rw (hc, hr, hm, valid) (omega arith))
