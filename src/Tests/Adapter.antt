-- ===== src/Tests/Adapter.antt =====
-- Payments and events of the bitcoin adapter, and what the hot wallet makes of them.
use hexstody.Prelude.{
  ◌<◌, ℕ, suc, ◌+◌, ◌≤◌, ◌≡◌, ◌≢◌, refl, true, List, [], ◌∷◌, ◌++◌, none, some, String, arith,
  nat_eq, ◌==◌, ◌⊎◌,
}
use hexstody.Prelude.Int.{pos, negsuc, ◌-ℤ◌, ◌+ℤ◌}
use hexstody.Prelude.Words.{wrap, add_i16, sub_i16}
use hexstody.Prelude.Text.{decimal}
use hexstody.Prelude.Fallible.{ok, err, map_err}
use hexstody.Domain.Types.{SignatureData, confirm}
use hexstody.Domain.Currency.{CurrencyAddress, BtcAddress}
use hexstody.Domain.Requests.{ConfirmedWithdrawal}
use hexstody.Update.Body.{UpdateBody}
use hexstody.Update.Withdrawal.{ConfirmationData, over_limit}
use hexstody.State.Core
use hexstody.State.Core.{BtcNetwork}
use hexstody.State.Withdraw.{WithdrawalRequest, confirmed}
use hexstody.State.Withdrawals.{decide, decided_by, confirm_request}
use hexstody.State.Withdrawals.Counting.{IsCounted}
use hexstody.State.Transaction.{from_tx_update}
use hexstody.Signed.{Verifier, verify_signature}
use hexstody.Btc.{Node, ListTransaction, Category, SinceBlock, GetTransaction}
use hexstody.Btc.Withdraw.{
  WithdrawCfg, Failure, withdraw_btc, withdraw_btc_under_limit, is_confirmed, count_valid, passes,
  decision_message, withdrawal_confirm_uri, confirmation_data,
}
use hexstody.Btc.Withdraw.Tally.{HasQuorum, withdraw_btc-HasQuorum, is_confirmed_repeats}
use hexstody.Btc.Scan.{ScanState, new, poll_events, node_round}
use hexstody.Btc.Scan.Delivery.{Step, scan, poll, delivered, found, delivered-found}
use hexstody.Btc.Scan.Cold.{cold_round, cold_round-bounds}
use hexstody.Hot.{Format, confirmed_withdrawal, process_btc_events, btc_outcome}
use hexstody.Hot.Paid.{IsSigned, decide-IsSigned, withdraw_btc-IsSigned, paid_but_rejected}
use hexstody.Hot.Seen.{Holds, deposit_of, process_btc_events-node_round}
use hexstody.Tests.Data.{decision, request, by_key, state}

-- A signature is good if it is 5.
abbrev check : Verifier
check key text signature = signature == 5

abbrev to_json : ConfirmationData → String
to_json cd = "{}"

abbrev cfg : WithdrawCfg
cfg = record {
  min_confirmations = pos 2;
  op_public_keys = 1 ∷ 2 ∷ [];
  hot_domain = "https://hot";
  network = BtcNetwork.regtest;
}

abbrev listed : ListTransaction
listed = record {
  category = Category.receive;
  address = some 3;
  amount = pos 500;
  vout = 0;
  fee = none;
  txid = 9;
  confirmations = pos 1;
  timereceived = 0;
  wallet_conflicts = [];
}

abbrev since : SinceBlock
since = record { transactions = listed ∷ []; removed = []; lastblock = 4 }

abbrev found_tx : ℕ → GetTransaction
found_tx n = record { fee = some (negsuc 9); details = []; hex = [] }

-- A node that counts the payments; a lossy one does not find them again.
abbrev node : Node ℕ String
node = record {
  send_to_address = λ addr amount comment fee n. (ok 7, suc n);
  get_transaction = λ txid n. ok (found_tx n);
  list_since_block = λ hash n. ok since;
  get_block_count = λ n. ok 11;
  get_balance = λ confs n. ok 0;
  estimate_smart_fee = λ n. ok (none, pos 2);
  get_new_address = λ n. (ok 3, n);
  parse_address = λ text. some 3;
  output_addresses = λ network hex. ok [];
  address_to_string = λ addr. "bc1q";
  uuid_to_string = λ id. "id";
  debug = λ e. e;
}

abbrev lossy : Node ℕ String
lossy = record node { get_transaction = λ txid n. err "not found" }

abbrev signature_of : ℕ → SignatureData
signature_of key = record { signature = 5; nonce = 1; public_key = key }

abbrev cw : ConfirmedWithdrawal
cw = record {
  id = 7;
  user = "alice";
  address = CurrencyAddress.btc (record { addr = "bc1q" });
  created_at = "then";
  amount = 1000;
  confirmations = signature_of 1 ∷ signature_of 2 ∷ [];
  rejections = [];
}

cw-is_confirmed : is_confirmed check to_json cfg cw ≡ true
unfolding is_confirmed count_valid verify_signature add_i16 sub_i16 wrap ◌+ℤ◌ ◌-ℤ◌ decimal
cw-is_confirmed = refl

cw_paid : (withdraw_btc node check to_json cfg cw 0).1 ≢ 0
unfolding withdraw_btc withdraw_btc_under_limit
cw_paid h = absurd (ground (arith, h, cw-is_confirmed))

withdraw_btc-HasQuorum_example : HasQuorum check to_json cfg cw
withdraw_btc-HasQuorum_example =
    withdraw_btc-HasQuorum check node to_json cfg cw 0 (omega arith) (omega arith) cw_paid

abbrev repeated : ConfirmedWithdrawal
repeated = record cw { confirmations = signature_of 1 ∷ signature_of 1 ∷ [] }

signature-passes :
    passes check cfg.op_public_keys
      (decision_message to_json cfg.hot_domain withdrawal_confirm_uri (confirmation_data repeated))
      (signature_of 1)
    ≡ true
unfolding verify_signature
signature-passes = refl

is_confirmed_repeats_example : is_confirmed check to_json cfg repeated ≡ true
is_confirmed_repeats_example =
    is_confirmed_repeats check to_json cfg repeated (signature_of 1) refl refl refl signature-passes

abbrev format : Format
format = record {
  to_seconds = λ t. "then";
  to_string = λ t. "then";
  txid_to_string = λ t. "f00d";
  hash_to_string = λ h. "beef";
  from_timestamp = λ t. 0;
  now = 8;
}

-- A request with one confirmation, and with two.
abbrev once : WithdrawalRequest
once = request (pos 1) (by_key 1 ∷ []) []

abbrev twice : WithdrawalRequest
twice = record (request (pos 1) (by_key 1 ∷ by_key 2 ∷ []) []) { status = confirmed }

once-IsSigned : IsSigned check to_json cfg format once
unfolding verify_signature
once-IsSigned = record { confirmed_by = (refl, tt); rejected_by = tt }

twice-IsSigned : IsSigned check to_json cfg format twice
unfolding verify_signature
twice-IsSigned = record { confirmed_by = (refl, (refl, tt)); rejected_by = tt }

twice-IsCounted : IsCounted twice
unfolding decided_by
twice-IsCounted = record {
  confirmed_once = (refl, (refl, tt));
  rejected_once = tt;
  one_side = (refl, (refl, tt));
  tallied = refl;
}

once-decided : decide (decision 2 confirm) once ≡ Core.ok (some 7, twice)
unfolding decide confirm_request decided_by sub_i16 wrap ◌-ℤ◌
once-decided = refl

decide-IsSigned_example : IsSigned check to_json cfg format twice
unfolding verify_signature
decide-IsSigned_example =
    decide-IsSigned check to_json cfg format (decision 2 confirm) once {res = some 7} {req' = twice}
      (λ h. refl) (λ h. cc) once-IsSigned once-decided

withdraw_btc-IsSigned_example :
    withdraw_btc node check to_json cfg (confirmed_withdrawal format 7 twice) 0
    ≡ withdraw_btc_under_limit node cfg (confirmed_withdrawal format 7 twice) 0
withdraw_btc-IsSigned_example =
    withdraw_btc-IsSigned check to_json cfg format node twice 0 twice-IsSigned twice-IsCounted refl
      (omega arith) (omega arith)

abbrev btc_address : BtcAddress
btc_address = record { addr = "bc1q" }

abbrev shown : Failure → String
shown failure = failure.message

paid_but_rejected_example :
    let answered = withdraw_btc lossy check to_json cfg cw 0 in
    (answered.1 ≡ 1)
    × ((reason : String) × (btc_outcome format over_limit 7 (map_err shown answered.0)
          ≡ UpdateBody.withdrawal_request_node_rejected (record { id = 7; reason = reason })))
paid_but_rejected_example =
    paid_but_rejected check to_json cfg format lossy shown cw btc_address 3 7 0 1 "not found"
      cw-is_confirmed refl refl refl refl

abbrev scan_state : ScanState
scan_state = new (λ network. 0) BtcNetwork.regtest

abbrev steps : List (Step ℕ)
steps = scan 0 ∷ poll ∷ scan 0 ∷ []

delivered-found_example :
    delivered node (steps ++ poll ∷ []) scan_state
    ≡ scan_state.events ++ found node steps scan_state
delivered-found_example = delivered-found node steps scan_state

abbrev rich_node : Node ℕ String
rich_node = record node { get_balance = λ confs n. ok 90 }

cold_round-bounds_example :
    ((90 ≤ 40) × (cold_round rich_node 40 3 0 ≡ 0))
    ⊎ ((amount : ℕ) × (cold_round rich_node 40 3 0
          ≡ (rich_node.send_to_address 3 amount none (some true) 0).1)
        × (40 < 90)
        × (40 ≤ amount)
        × (amount ≤ 90)
        × (90 ≤ amount + 40)
        × ((amount ≡ 40) ⊎ (90 ≡ amount + 40)))
cold_round-bounds_example = cold_round-bounds rich_node 40 90 3 0 refl (omega arith)

process_btc_events-node_round_example :
    Holds
      (process_btc_events format state (poll_events (node_round node 0 scan_state).0).0)
      (UpdateBody.update_btc_tx (from_tx_update format.from_timestamp (deposit_of listed 3 1)))
process_btc_events-node_round_example =
    process_btc_events-node_round node format scan_state state 0 since [] [] listed 3 1 refl refl
      refl refl refl
