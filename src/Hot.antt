-- ===== src/Hot.antt =====
-- hexstody-hot/src/worker.rs: the hot wallet between the state and the adapters of the chains. The
-- clients of the two adapters are parameters.
pub mod Paid
pub mod Seen
use hexstody.Prelude.{
  ℕ, Bool, true, false, not, List, [], ◌∷◌, ◌++◌, Option, none, some, String, map, if◌then◌else◌,
  filter_map, ◌==◌, string_eq,
}
use hexstody.Prelude.Int.{ℤ}
use hexstody.Prelude.Fallible.{Fallible, ok, err}
use hexstody.Prelude.Text.{u64_to_string}
use hexstody.Domain.Types.{NaiveDateTime, LimitSpan}
use hexstody.Domain.Currency.{CurrencyAddress, CurrencyTxId}
use hexstody.Domain.Requests.{ConfirmedWithdrawal, WithdrawalResponse}
use hexstody.Update.Btc.{Txid, BestBtcBlock, TxDirection, TxUpdate, BtcTxCancel}
use hexstody.Update.Body.{UpdateBody}
use hexstody.Update.Withdrawal.{
  WithdrawalRequestId, WithdrawalRequestType, under_limit, over_limit, WithdrawCompleteInfo,
  WithdrawalRejectInfo, signature_data_from,
}
use hexstody.State.Transaction.{from_tx_update}
use hexstody.State.Withdraw.{WithdrawalRequest}
use hexstody.State.Withdrawals.{
  UpdateResult, withdraw_confirmed, withdrawal_underlimit, get_withdrawal_request,
}
use hexstody.State.Core.{State}
use hexstody.Btc.{BlockHash}
use hexstody.Btc.Scan.{BtcEvent, BtcEvents}

-- The clients of the adapters, which act on the world `W` and fail with a text.
pub record Clients (W : Type 0) : Type 0 where
  pub withdraw_btc : ConfirmedWithdrawal → W → Fallible String WithdrawalResponse × W
  pub withdraw_under_limit : ConfirmedWithdrawal → W → Fallible String WithdrawalResponse × W
  -- The user, the account and the amount.
  pub send_tx : String → String → String → W → Fallible String (Unit {0}) × W
  -- The user, the account, the contract and the amount.
  pub send_tx_erc20 : String → String → String → String → W → Fallible String (Unit {0}) × W

-- How texts are made, and the time.
pub record Format : Type 0 where
  -- `format("%Y-%m-%d %H:%M:%S")`
  pub to_seconds : NaiveDateTime → String
  pub to_string : NaiveDateTime → String
  pub txid_to_string : Txid → String
  pub hash_to_string : BlockHash → String
  pub from_timestamp : ℤ → NaiveDateTime
  pub now : NaiveDateTime

-- The confirmed request as the adapter of the chain takes it.
unfoldable pub confirmed_withdrawal :
    Format → WithdrawalRequestId → WithdrawalRequest → ConfirmedWithdrawal
confirmed_withdrawal f id req = record {
  id = id;
  user = req.user;
  address = req.address;
  created_at = f.to_seconds req.created_at;
  amount = req.amount;
  confirmations = map signature_data_from req.confirmations;
  rejections = map signature_data_from req.rejections;
}

unfoldable pub under_limit_withdrawal : Format → WithdrawalRequest → ConfirmedWithdrawal
under_limit_withdrawal f wr = record {
  id = wr.id;
  user = wr.user;
  address = wr.address;
  created_at = f.to_string wr.created_at;
  amount = wr.amount;
  confirmations = [];
  rejections = [];
}

-- The update after a payment in bitcoin: completed, or rejected by the node.
unfoldable pub btc_outcome :
    Format
    → WithdrawalRequestType
    → WithdrawalRequestId
    → Fallible String WithdrawalResponse
    → UpdateBody
btc_outcome f request_type id (ok resp) = UpdateBody.withdrawal_request_complete (record {
  id = resp.id;
  confirmed_at = f.now;
  txid = CurrencyTxId.btc (f.txid_to_string resp.txid);
  fee = resp.fee;
  input_addresses = resp.input_addresses;
  output_addresses = resp.output_addresses;
  request_type = request_type;
})
btc_outcome f request_type id (err reason) =
    UpdateBody.withdrawal_request_node_rejected (record { id = id; reason = reason })

-- After a payment in another currency, only a failure makes an update.
unfoldable pub eth_outcome : WithdrawalRequestId → Fallible String (Unit {0}) → List UpdateBody
eth_outcome id (ok u) = []
eth_outcome id (err reason) =
    UpdateBody.withdrawal_request_node_rejected (record { id = id; reason = reason }) ∷ []

module _ {W : Type 0} (clients : Clients W) (f : Format) where
  unfoldable pub pay_confirmed : WithdrawalRequestId → WithdrawalRequest → W → List UpdateBody × W
  unfolding confirmed_withdrawal btc_outcome eth_outcome
  pay_confirmed id req w = elim req.address [
    | CurrencyAddress.btc a ↦
        let (r, w') = clients.withdraw_btc (confirmed_withdrawal f id req) w in
        (btc_outcome f over_limit id r ∷ [], w')
    | CurrencyAddress.eth a ↦
        let (r, w') = clients.send_tx req.user a.account (u64_to_string req.amount) w in
        (eth_outcome id r, w')
    | CurrencyAddress.erc20 a ↦
        let (r, w') =
          clients.send_tx_erc20 req.user a.account.account a.token.contract
            (u64_to_string req.amount) w in
        (eth_outcome id r, w')
  ]

  -- One round of `update_results_worker`: the updates that it sends.
  unfoldable pub on_result : State → UpdateResult → W → List UpdateBody × W
  unfolding pay_confirmed under_limit_withdrawal btc_outcome
  on_result s (withdraw_confirmed id) w = elim (get_withdrawal_request s id) [
    | some req ↦ pay_confirmed id req w
    | none ↦ ([], w)
  ]
  on_result s (withdrawal_underlimit wr) w =
      let (r, w') = clients.withdraw_under_limit (under_limit_withdrawal f wr) w in
      (btc_outcome f under_limit wr.id r ∷ [], w')

-- What an event of the adapter changes: deposits and cancellations.
abbrev pub event_update : Format → BtcEvent → Option UpdateBody
event_update f (BtcEvent.update upd) = elim upd.direction [
  | TxDirection.deposit ↦ some (UpdateBody.update_btc_tx (from_tx_update f.from_timestamp upd))
  | TxDirection.withdraw ↦ none
]
event_update f (BtcEvent.cancel cnl) = some (UpdateBody.cancel_btc_tx cnl)

unfoldable pub process_btc_events : Format → State → BtcEvents → List UpdateBody
process_btc_events f s events =
    let block_hash = f.hash_to_string events.hash in
    let best : List UpdateBody =
      if not (s.btc_state.block_hash == block_hash)
      then UpdateBody.best_btc_block (record { height = events.height; block_hash = block_hash })
        ∷ []
      else [] in
    best ++ filter_map (event_update f) events.events
