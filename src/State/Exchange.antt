-- ===== src/State/Exchange.antt =====
-- hexstody-db/src/state/exchange.rs: exchange orders, and the wallet of the exchange.
pub mod Wallet
pub mod Deposits
use hexstody.Prelude.{
  ℕ, Bool, true, false, List, [], ◌∷◌, ◌++◌, Option, none, some, String, map, nat_eq, if◌then◌else◌,
}
use hexstody.Prelude.Int.{ℤ, pos, leb_ℤ}
use hexstody.Prelude.Words.{as_i64, add_i64, sub_i64, neg_i64}
use hexstody.Prelude.Dict.{Dict, insert, upsert}
use hexstody.Domain.Types.{Uuid, PublicKey, Signature, SignatureData, ExchangeStatus, DecisionType}
use hexstody.Domain.Currency.{Currency, currency_eq, CurrencyAddress, supported}
use hexstody.Update.Btc.{BtcTxCancel}
use hexstody.Update.Limit.{signed_by}
use hexstody.State.Transaction.{BtcTransaction, Transaction, replace_btc_tx, position, remove_at}

abbrev pub ExchangeOrderId : Type 0
ExchangeOrderId = Uuid

pub record ExchangeOrderUpd : Type 0 where
  pub id : ExchangeOrderId
  pub user : String
  pub currency_from : Currency
  pub currency_to : Currency
  pub amount_from : ℕ
  pub amount_to : ℕ
  pub created_at : String

pub record ExchangeOrder : Type 0 where
  pub id : ExchangeOrderId
  pub user : String
  pub currency_from : Currency
  pub currency_to : Currency
  pub amount_from : ℕ
  pub amount_to : ℕ
  pub status : ExchangeStatus
  pub created_at : String
  pub confirmations : List SignatureData
  pub rejections : List SignatureData

abbrev pub status_finalized : ExchangeStatus → Bool
status_finalized ExchangeStatus.completed = true
status_finalized _ = false

abbrev pub status_rejected : ExchangeStatus → Bool
status_rejected ExchangeStatus.rejected = true
status_rejected _ = false

abbrev pub status_pending : ExchangeStatus → Bool
status_pending (ExchangeStatus.in_progress c r) = true
status_pending _ = false

abbrev pub is_finalized : ExchangeOrder → Bool
is_finalized order = status_finalized order.status

abbrev pub is_rejected : ExchangeOrder → Bool
is_rejected order = status_rejected order.status

abbrev pub is_pending : ExchangeOrder → Bool
is_pending order = status_pending order.status

abbrev pub has_confirmed : ExchangeOrder → PublicKey → Bool
has_confirmed order pubkey = signed_by pubkey order.confirmations

abbrev pub has_rejected : ExchangeOrder → PublicKey → Bool
has_rejected order pubkey = signed_by pubkey order.rejections

abbrev pub into_exchange_upd : ExchangeOrder → ExchangeOrderUpd
into_exchange_upd order = record {
  id = order.id;
  user = order.user;
  currency_from = order.currency_from;
  currency_to = order.currency_to;
  amount_from = order.amount_from;
  amount_to = order.amount_to;
  created_at = order.created_at;
}

-- `ExchangeOrder` of hexstody-api/src/types.rs, without the signatures
pub record ApiOrder : Type 0 where
  pub user : String
  pub id : Uuid
  pub currency_from : Currency
  pub currency_to : Currency
  pub amount_from : ℕ
  pub amount_to : ℕ
  pub created_at : String
  pub status : ExchangeStatus

abbrev pub api_order_from : ExchangeOrder → ApiOrder
api_order_from eo = record {
  user = eo.user;
  id = eo.id;
  currency_from = eo.currency_from;
  currency_to = eo.currency_to;
  amount_from = eo.amount_from;
  amount_to = eo.amount_to;
  created_at = eo.created_at;
  status = eo.status;
}

pub record ExchangeDecision : Type 0 where
  pub user : String
  pub id : Uuid
  pub currency_from : Currency
  pub currency_to : Currency
  pub amount_from : ℕ
  pub amount_to : ℕ
  pub url : String
  pub signature : Signature
  pub nonce : ℕ
  pub public_key : PublicKey
  pub decision : DecisionType

pub record ExchangeState : Type 0 where
  pub exchanges : Dict ExchangeOrderId ExchangeOrderUpd
  pub addresses : Dict Currency CurrencyAddress
  pub deposits : List Transaction
  pub balances : Dict Currency ℤ

abbrev pub new : ExchangeState
new = record {
  exchanges = [];
  addresses = [];
  deposits = [];
  balances = map (λ c. (c, pos 0)) supported;
}

unfoldable pub process_order : ExchangeOrderUpd → ExchangeState → ExchangeState
process_order order s =
    let from = as_i64 order.amount_from in
    let to = as_i64 order.amount_to in
    let received = upsert order.currency_from (λ v. add_i64 v from) from s.balances in
    record s {
      exchanges = insert order.id order s.exchanges;
      balances = upsert order.currency_to (λ v. sub_i64 v to) to received;
    }

abbrev pub add_deposit : BtcTransaction → ExchangeState → ExchangeState
add_deposit upd_tx s = record s {
  balances = upsert Currency.btc (λ v. add_i64 v upd_tx.amount) upd_tx.amount s.balances;
  deposits = s.deposits ++ Transaction.btc upd_tx ∷ [];
}

unfoldable pub process_incoming_btc_tx : BtcTransaction → ExchangeState → ExchangeState
process_incoming_btc_tx upd_tx s =
    if leb_ℤ (pos 0) upd_tx.amount
    then (elim (replace_btc_tx upd_tx s.deposits) [
      | some txs ↦ record s { deposits = txs }
      | none ↦ add_deposit upd_tx s
    ])
    else s

unfoldable pub cancel_btc_tx : BtcTxCancel → ExchangeState → ExchangeState
cancel_btc_tx canceled_tx s =
    let lost = as_i64 canceled_tx.amount in
    elim (position canceled_tx 0 s.deposits) [
      | none ↦ s
      | some i ↦ record s {
        deposits = remove_at i s.deposits;
        balances = upsert Currency.btc (λ v. sub_i64 v lost) (neg_i64 lost) s.balances;
      }
    ]
