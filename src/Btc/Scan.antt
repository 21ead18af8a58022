-- ===== src/Btc/Scan.antt =====
-- hexstody-btc/src/worker.rs and state.rs: what the node has seen, as events for the hot wallet, and
-- the long poll of hexstody-btc/src/api/public.rs that hands them out.
pub mod Delivery
pub mod Cold
use hexstody.Prelude.{
  ℕ, ◌+◌, Bool, true, false, not, ◌||◌, List, [], ◌∷◌, ◌++◌, Option, none, some, arith,
  if◌then◌else◌, filter_map, nat_eq, ◌==◌,
}
use mathlib.Core.Option
use hexstody.Prelude.Int.{ℤ, pos, negsuc, pos_part, neg_part}
use hexstody.Prelude.Fallible.{Fallible, ok, err, map_ok}
use hexstody.Update.Btc.{TxUpdate, BtcTxCancel, TxDirection, Address}
use hexstody.State.Core.{BtcNetwork}
use hexstody.Btc.{Node, ListTransaction, SinceBlock, Category, BlockHash}

pub data BtcEvent : Type 0 where
  update : TxUpdate → BtcEvent
  cancel : BtcTxCancel → BtcEvent

pub record BtcEvents : Type 0 where
  pub height : ℕ
  pub hash : BlockHash
  pub events : List BtcEvent

pub record ScanState : Type 0 where
  pub last_block : BlockHash
  pub last_height : ℕ
  pub network : BtcNetwork
  pub events : List BtcEvent

-- `ScanState::new`, from the hash of the first block of the network
abbrev pub new : (BtcNetwork → BlockHash) → BtcNetwork → ScanState
new genesis network = record {
  last_block = genesis network;
  last_height = 0;
  network = network;
  events = [];
}

abbrev magnitude : ℤ → ℕ
magnitude x = pos_part x + neg_part x

abbrev direction_of : Category → Option TxDirection
direction_of Category.receive = some TxDirection.deposit
direction_of Category.send = some TxDirection.withdraw
direction_of _ = none

abbrev pub tx_direction : ListTransaction → Option TxDirection
tx_direction tx = direction_of tx.category

abbrev update_of : TxDirection → Address → ListTransaction → ℤ → Option BtcEvent
update_of direction address tx (negsuc n) = none
update_of direction address tx (pos confirmations) = some (
    BtcEvent.update (record {
      direction = direction;
      txid = tx.txid;
      vout = tx.vout;
      address = address;
      amount = magnitude tx.amount;
      confirmations = confirmations;
      timestamp = tx.timereceived;
      conflicts = tx.wallet_conflicts;
      fee = Option.map magnitude tx.fee;
    }))

-- Nothing for a transaction of another kind, without an address or with negative confirmations.
unfoldable pub to_update_event : ListTransaction → Option BtcEvent
to_update_event tx = elim (tx_direction tx) [
  | none ↦ none
  | some direction ↦ elim tx.address [
    | none ↦ none
    | some address ↦ update_of direction address tx tx.confirmations
  ]
]

abbrev cancel_of : TxDirection → Address → ListTransaction → ℤ → Option BtcEvent
cancel_of direction address tx (negsuc n) = none
cancel_of direction address tx (pos amount) = some (
    BtcEvent.cancel (record {
      direction = direction;
      txid = tx.txid;
      vout = tx.vout;
      address = address;
      amount = amount;
      timestamp = tx.timereceived;
      conflicts = tx.wallet_conflicts;
    }))

-- Nothing for a transaction of another kind, without an address or with a negative amount.
unfoldable pub to_remove_event : ListTransaction → Option BtcEvent
to_remove_event tx = elim (tx_direction tx) [
  | none ↦ none
  | some direction ↦ elim tx.address [
    | none ↦ none
    | some address ↦ cancel_of direction address tx tx.amount
  ]
]

abbrev is_empty : List BtcEvent → Bool
is_empty [] = true
is_empty _ = false

abbrev or_else : {E : Type 0} → ℕ → Fallible E ℕ → ℕ
or_else old (ok new) = new
or_else old (err e) = old

module _ {N E : Type 0} (node : Node N E) where
  -- The cancelled transactions come before the others.
  unfoldable pub scan_from : BlockHash → N → Fallible E (List BtcEvent × BlockHash)
  unfolding to_update_event to_remove_event
  scan_from blockhash n =
      map_ok
        (λ result. (
          filter_map to_remove_event result.removed
              ++ filter_map to_update_event result.transactions,
          result.lastblock,
        ))
        (node.list_since_block blockhash n)

  abbrev pub absorb : N → Fallible E (List BtcEvent × BlockHash) → ScanState → ScanState × Bool
  absorb n (err e) s = (s, false)
  absorb n (ok (events, next_hash)) s =
      if not (is_empty events) || not (s.last_block == next_hash)
      then (
        record s {
          last_height = or_else s.last_height (node.get_block_count n);
          last_block = next_hash;
          events = s.events ++ events;
        },
        true,
      )
      else (s, false)

  -- One round of `node_worker`, and whether it notifies those who wait.
  unfoldable pub node_round : N → ScanState → ScanState × Bool
  unfolding scan_from
  node_round n s = absorb n (scan_from s.last_block n) s

-- What the long poll answers, once it is woken or times out.
unfoldable pub poll_events : ScanState → BtcEvents × ScanState
poll_events s = (
  record { hash = s.last_block; height = s.last_height; events = s.events },
  record s { events = [] },
)
