-- ===== src/State/Transaction.antt =====
-- hexstody-db/src/state/transaction.rs: deposits on chain, and the list operations that
-- state/user.rs and state/exchange.rs make on them.
pub mod Outpoints
use mathlib.Core.Option
use hexstody.Prelude.{
  ℕ, zero, suc, Bool, true, false, List, [], ◌∷◌, Option, none, some, ◌&&◌, not, String, ltb, ◌==◌,
  nat_eq, string_eq, if◌then◌else◌, map,
}
use hexstody.Prelude.Int.{ℤ, pos, leb_ℤ, ltb_ℤ, ◌-ℤ◌}
use hexstody.Prelude.Words.{as_i64, neg_i64}
use hexstody.Domain.Types.{NaiveDateTime}
use hexstody.Update.Btc.{Address, Txid, TxUpdate, TxDirection, deposit, withdraw, BtcTxCancel}

pub record BtcTransaction : Type 0 where
  pub txid : Txid
  pub vout : ℕ
  pub address : Address
  pub confirmations : ℕ
  pub amount : ℤ
  pub timestamp : NaiveDateTime
  pub conflicts : List Txid
  pub fee : Option ℕ

pub record EthTransaction : Type 0 where
  pub block_number : String
  pub time_stamp : String
  pub hash : String
  pub from : String
  pub to : String
  pub value : ℤ
  pub token_name : String
  pub gas : String
  pub gas_price : String
  pub contract_address : String
  pub confirmations : ℤ
  pub addr : String

pub data Transaction : Type 0 where
  btc : BtcTransaction → Transaction
  eth : EthTransaction → Transaction

unfoldable pub amount : Transaction → ℤ
amount (btc tx) = tx.amount
amount (eth tx) = tx.value

unfoldable pub is_finalized : Transaction → Bool
is_finalized (btc tx) = ltb 3 tx.confirmations
is_finalized (eth tx) = ltb_ℤ (pos 3) tx.confirmations

unfoldable pub is_withdraw : Transaction → Bool
is_withdraw (btc tx) = ltb_ℤ tx.amount (pos 0)
is_withdraw (eth tx) = tx.from == tx.addr

abbrev is_empty {ℓ} : {A : Type ℓ} → List A → Bool
is_empty [] = true
is_empty (x ∷ xs) = false

unfoldable pub is_conflicted : Transaction → Bool
is_conflicted (btc tx) = tx.confirmations == 0 && not (is_empty tx.conflicts)
is_conflicted (eth tx) = ltb_ℤ tx.confirmations (pos 0)

-- `SameBtcTx<BtcTransaction>`
abbrev pub is_same_btc_tx : BtcTransaction → BtcTransaction → Bool
is_same_btc_tx tx other = tx.txid == other.txid && tx.vout == other.vout

-- `SameBtcTx<BtcTxCancel>`
abbrev pub is_same_canceled_tx : BtcTransaction → BtcTxCancel → Bool
is_same_canceled_tx tx other = tx.txid == other.txid && tx.vout == other.vout

signed_amount : TxDirection → ℕ → ℤ
signed_amount deposit n = as_i64 n
signed_amount withdraw n = neg_i64 (as_i64 n)

-- `From<TxUpdate>`; chrono makes a time of a number of seconds
unfoldable pub from_tx_update : (ℤ → NaiveDateTime) → TxUpdate → BtcTransaction
unfolding signed_amount
from_tx_update from_timestamp val = record {
  txid = val.txid;
  vout = val.vout;
  address = val.address;
  confirmations = val.confirmations;
  amount = signed_amount val.direction val.amount;
  timestamp = from_timestamp (as_i64 val.timestamp);
  conflicts = val.conflicts;
  fee = val.fee;
}

-- The loop over `iter_mut` that overwrites the first record of the same transaction and returns;
-- `none` if there is none.
unfoldable pub replace_btc_tx : BtcTransaction → List Transaction → Option (List Transaction)
replace_btc_tx upd_tx [] = none
replace_btc_tx upd_tx (btc tx ∷ rest) =
    let later = Option.map (λ txs. btc tx ∷ txs) (replace_btc_tx upd_tx rest) in
    if is_same_btc_tx tx upd_tx then some (btc upd_tx ∷ rest) else later
replace_btc_tx upd_tx (eth tx ∷ rest) =
    Option.map (λ txs. eth tx ∷ txs) (replace_btc_tx upd_tx rest)

abbrev pub matches_cancel : BtcTxCancel → Transaction → Bool
matches_cancel upd_tx (btc tx) = is_same_canceled_tx tx upd_tx
matches_cancel upd_tx (eth tx) = false

-- The loop over `iter().enumerate()` that breaks at the first match, from index `i`.
unfoldable pub position : BtcTxCancel → ℕ → List Transaction → Option ℕ
position upd_tx i [] = none
position upd_tx i (tx ∷ rest) =
    let later = position upd_tx (suc i) rest in if matches_cancel upd_tx tx then some i else later

-- `Vec::remove` at an index in range
unfoldable pub remove_at : ℕ → List Transaction → List Transaction
remove_at i [] = []
remove_at zero (tx ∷ rest) = rest
remove_at (suc i) (tx ∷ rest) = tx ∷ remove_at i rest
