-- ===== src/Btc/Withdraw.antt =====
-- The withdrawals of hexstody-btc/src/api/public.rs.
pub mod Tally
use Prim.Native.String.{◌++◌}
use hexstody.Prelude.{
  ℕ, ◌+◌, Bool, true, false, ◌&&◌, List, [], ◌∷◌, Option, none, some, String, arith, if◌then◌else◌,
  map, ◌≡◌,
}
use mathlib.Core.Option
use hexstody.Prelude.Int.{ℤ, pos, pos_part, neg_part, ltb_ℤ, leb_ℤ}
use hexstody.Prelude.Words.{add_i16, sub_i16}
use hexstody.Prelude.{filter_map}
use hexstody.Prelude.Fallible.{Fallible, ok, err, map_err, ◌>>=◌}
use hexstody.Prelude.Text.{join}
use hexstody.Domain.Types.{PublicKey, SignatureData, Uuid}
use hexstody.Domain.Currency.{CurrencyAddress, BtcAddress}
use hexstody.Domain.Requests.{ConfirmedWithdrawal, WithdrawalResponse}
use hexstody.Update.Btc.{Address, Txid}
use hexstody.Update.Withdrawal.{ConfirmationData}
use hexstody.State.Core.{BtcNetwork}
use hexstody.Signed.{Verifier, SignatureError, verify_signature}
use hexstody.Btc.{Node, GetTransaction, Detail, Category}

pub record WithdrawCfg : Type 0 where
  pub min_confirmations : ℤ
  pub op_public_keys : List PublicKey
  pub hot_domain : String
  pub network : BtcNetwork

-- A status with an `ErrorMessage`.
pub record Failure : Type 0 where
  pub status : ℕ
  pub message : String
  pub code : ℕ

abbrev pub withdrawal_confirm_uri : String
withdrawal_confirm_uri = "/confirm"

abbrev pub withdrawal_reject_uri : String
withdrawal_reject_uri = "/reject"

abbrev pub is_ok : {E A : Type 0} → Fallible E A → Bool
is_ok (ok a) = true
is_ok (err e) = false

abbrev pub confirmation_data : ConfirmedWithdrawal → ConfirmationData
confirmation_data cw = record {
  id = cw.id;
  user = cw.user;
  address = cw.address;
  created_at = cw.created_at;
  amount = cw.amount;
}

-- The text under an operator's decision: the address that took it, and the request as JSON.
abbrev pub decision_message :
    (ConfirmationData → String) → String → String → ConfirmationData → String
decision_message to_json domain uri cd = join ":" (join "" (domain ∷ uri ∷ []) ∷ to_json cd ∷ [])

module _ (check : Verifier) where
  abbrev pub passes : List PublicKey → String → SignatureData → Bool
  passes keys msg sd =
      is_ok (verify_signature check (some keys) sd.public_key sd.nonce msg sd.signature)

  -- One more for each signature that is valid.
  unfoldable pub count_valid : List PublicKey → String → ℤ → List SignatureData → ℤ
  count_valid keys msg valid [] = valid
  count_valid keys msg valid (sd ∷ rest) =
      count_valid keys msg (if passes keys msg sd then add_i16 valid (pos 1) else valid) rest

  -- The condition under which the node is asked to pay.
  unfoldable pub is_confirmed :
      (ConfirmationData → String) → WithdrawCfg → ConfirmedWithdrawal → Bool
  unfolding count_valid
  is_confirmed to_json cfg cw =
      let cd = confirmation_data cw in
      let confirm_msg = decision_message to_json cfg.hot_domain withdrawal_confirm_uri cd in
      let reject_msg = decision_message to_json cfg.hot_domain withdrawal_reject_uri cd in
      let confirms = count_valid cfg.op_public_keys confirm_msg (pos 0) cw.confirmations in
      let rejections = count_valid cfg.op_public_keys reject_msg (pos 0) cw.rejections in
      ltb_ℤ rejections confirms && leb_ℤ cfg.min_confirmations (sub_i16 confirms rejections)

module _ {N E : Type 0} (node : Node N E) where
  abbrev internal : String → E → Failure
  internal what e = record { status = 500; message = what ++ node.debug e; code = 500 }

  abbrev pub not_btc : Failure
  not_btc = record { status = 400; message = "Not BTC??"; code = 500 }

  abbrev from_address : Address → CurrencyAddress
  from_address a = CurrencyAddress.btc (record { addr = node.address_to_string a })

  abbrev input_address : Detail → Option CurrencyAddress
  input_address d = elim d.category [
    | Category.receive ↦ Option.map from_address d.address
    | Category.generate ↦ Option.map from_address d.address
    | Category.immature ↦ Option.map from_address d.address
    | _ ↦ none
  ]

  abbrev magnitude : ℤ → ℕ
  magnitude x = pos_part x + neg_part x

  -- The answer about a transaction that the node has sent.
  abbrev response : BtcNetwork → Uuid → Txid → N → Fallible Failure WithdrawalResponse
  response network id txid n = do
    tx ← map_err (internal "Tx not found: ") (node.get_transaction txid n)
    outputs ← map_err (internal "Failed to deserialize tx: ") (node.output_addresses network tx.hex)
    ok (record {
      id = id;
      txid = txid;
      fee = Option.map magnitude tx.fee;
      input_addresses = filter_map input_address tx.details;
      output_addresses = filter_map (Option.map from_address) outputs;
    })

  abbrev answer : BtcNetwork → Uuid → Fallible E Txid → N → Fallible Failure WithdrawalResponse
  answer network id (ok txid) n = response network id txid n
  answer network id (err e) n = err (internal "Failed to post the tx: " e)

  abbrev pub pay :
      WithdrawCfg → ConfirmedWithdrawal → Address → N → Fallible Failure WithdrawalResponse × N
  pay cfg cw addr n =
      let (sent, n') =
        node.send_to_address addr cw.amount (some (node.uuid_to_string cw.id)) none n in
      (answer cfg.network cw.id sent n', n')

  -- A request without signatures, which the caller vouches for.
  unfoldable pub withdraw_btc_under_limit :
      WithdrawCfg → ConfirmedWithdrawal → N → Fallible Failure WithdrawalResponse × N
  withdraw_btc_under_limit cfg cw n = elim cw.address [
    | CurrencyAddress.btc a ↦ elim (node.parse_address a.addr) [
      | some addr ↦ pay cfg cw addr n
      | none ↦ (err not_btc, n)
    ]
    | _ ↦ (err not_btc, n)
  ]

  abbrev pub forbidden : Failure
  forbidden = record { status = 403; message = "Signature verification failed"; code = 403 }

  -- Below the check of the signatures, the handler has the code of the other.
  unfoldable pub withdraw_btc :
      Verifier
      → (ConfirmationData → String)
      → WithdrawCfg
      → ConfirmedWithdrawal
      → N
      → Fallible Failure WithdrawalResponse × N
  unfolding is_confirmed withdraw_btc_under_limit
  withdraw_btc check to_json cfg cw n =
      if is_confirmed check to_json cfg cw
      then withdraw_btc_under_limit cfg cw n
      else (err forbidden, n)
