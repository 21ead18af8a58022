-- ===== src/Btc.antt =====
-- hexstody-btc: the adapter between the hot wallet and a bitcoin node. The node and the client of the
-- bitcoincore-rpc crate are the parameter `Node`.
pub mod Withdraw
pub mod Scan
pub mod Misc
use hexstody.Prelude.{Bool, ℕ, List, Option, String}
use hexstody.Prelude.Int.{ℤ}
use hexstody.Prelude.Fallible.{Fallible}
use hexstody.Update.Btc.{Address, Txid}
use hexstody.State.Core.{BtcNetwork}

-- `GetTransactionResultDetailCategory`
pub data Category : Type 0 where
  send receive generate immature orphan : Category

-- The fields of `GetTransactionResult` that are read.
pub record Detail : Type 0 where
  pub category : Category
  pub address : Option Address

pub record GetTransaction : Type 0 where
  pub fee : Option ℤ
  pub details : List Detail
  pub hex : List ℕ

-- The fields of `ListTransactionResult` that are read.
pub record ListTransaction : Type 0 where
  pub category : Category
  pub address : Option Address
  pub amount : ℤ
  pub vout : ℕ
  pub fee : Option ℤ
  pub txid : Txid
  pub confirmations : ℤ
  pub timereceived : ℕ
  pub wallet_conflicts : List Txid

-- `bitcoin::BlockHash`, which is compared and printed
abbrev pub BlockHash : Type 0
BlockHash = ℕ

-- `ListSinceBlockResult`
pub record SinceBlock : Type 0 where
  pub transactions : List ListTransaction
  pub removed : List ListTransaction
  pub lastblock : BlockHash

-- A node with the state `N` and the errors `E`, and what the bitcoin crate does with texts.
pub record Node (N E : Type 0) : Type 0 where
  -- With a comment, and whether the fee is taken from the amount.
  pub send_to_address : Address → ℕ → Option String → Option Bool → N → Fallible E Txid × N
  pub get_transaction : Txid → N → Fallible E GetTransaction
  pub list_since_block : BlockHash → N → Fallible E SinceBlock
  pub get_block_count : N → Fallible E ℕ
  -- With this many confirmations, or with those that the node wants.
  pub get_balance : Option ℕ → N → Fallible E ℕ
  pub estimate_smart_fee : N → Fallible E (Option ℕ × ℤ)
  pub get_new_address : N → Fallible E Address × N
  pub parse_address : String → Option Address
  -- The addresses of the outputs of a transaction, where a script has one.
  pub output_addresses : BtcNetwork → List ℕ → Fallible E (List (Option Address))
  pub address_to_string : Address → String
  pub uuid_to_string : ℕ → String
  -- The texts that an error is printed as.
  pub debug : E → String
