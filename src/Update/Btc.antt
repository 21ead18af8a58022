-- ===== src/Update/Btc.antt =====
-- hexstody-db/src/update/btc.rs and the events of hexstody-btc-api/src/events.rs. Addresses and
-- transaction ids of the bitcoin crate are compared and printed, so they are numbers here.
use hexstody.Prelude.{ℕ, List, Option, String}

-- `bitcoin::Address`
abbrev pub Address : Type 0
Address = ℕ

-- `bitcoin::Txid`
abbrev pub Txid : Type 0
Txid = ℕ

pub record BestBtcBlock : Type 0 where
  pub height : ℕ
  pub block_hash : String

pub data TxDirection : Type 0 where
  deposit withdraw : TxDirection

pub record TxUpdate : Type 0 where
  pub direction : TxDirection
  pub txid : Txid
  pub vout : ℕ
  pub address : Address
  pub amount : ℕ
  pub confirmations : ℕ
  pub timestamp : ℕ
  pub conflicts : List Txid
  pub fee : Option ℕ

-- `TxCancel`, which the updates call `BtcTxCancel`
pub record BtcTxCancel : Type 0 where
  pub direction : TxDirection
  pub txid : Txid
  pub vout : ℕ
  pub address : Address
  pub amount : ℕ
  pub timestamp : ℕ
  pub conflicts : List Txid
