-- ===== src/Tests/Data.antt =====
-- Requests, decisions, accounts and updates for the tests.
use hexstody.Prelude.{ℕ, List, [], ◌∷◌, none}
use hexstody.Prelude.Int.{ℤ, pos}
use hexstody.Domain.Types.{PublicKey, DecisionType, confirm}
use hexstody.Domain.Currency.{Currency, CurrencyAddress}
use hexstody.Update.Withdrawal.{
  WithdrawalRequestInfo, WithdrawalRequestDecisionInfo, WithdrawalRequestDecision, decision_from,
  over_limit,
}
use hexstody.Update.Btc.{BtcTxCancel, deposit}
use hexstody.Update.Body.{UpdateBody, StateUpdate}
use hexstody.State.Withdraw.{WithdrawalRequest, request_from, in_progress}
use hexstody.State.Transaction
use hexstody.State.Transaction.{BtcTransaction}
use hexstody.State.Exchange.{ExchangeOrder, ExchangeOrderUpd, ExchangeDecision}
use hexstody.State.User.{UserCurrencyInfo, UserInfo, new_currency_info, default_config}
use hexstody.Update.Signup.{SignupAuth}
use hexstody.State.Core.{State, Bitcoin, Draw}
use hexstody.State.Exchange

abbrev pub request_info : WithdrawalRequestInfo
request_info = record {
  id = 7;
  user = "alice";
  address = CurrencyAddress.btc (record { addr = "bc1q" });
  amount = 1000;
  request_type = over_limit;
}

abbrev pub decision : PublicKey → DecisionType → WithdrawalRequestDecisionInfo
decision key t = record {
  user_id = "alice";
  currency = Currency.btc;
  request_id = 7;
  url = "https://operator";
  signature = 5;
  nonce = 1;
  public_key = key;
  decision_type = t;
}

-- A request with decisions by the keys given.
abbrev pub request :
    ℤ → List WithdrawalRequestDecision → List WithdrawalRequestDecision → WithdrawalRequest
request n confirmations rejections = record (request_from 0 request_info) {
  status = in_progress n;
  confirmations = confirmations;
  rejections = rejections;
}

abbrev pub by_key : PublicKey → WithdrawalRequestDecision
by_key key = decision_from (decision key confirm)

abbrev pub btc_tx : ℕ → BtcTransaction
btc_tx txid = record {
  txid = txid;
  vout = 0;
  address = 3;
  confirmations = 1;
  amount = pos 500;
  timestamp = 0;
  conflicts = [];
  fee = none;
}

abbrev pub tx_cancel : ℕ → BtcTxCancel
tx_cancel txid = record {
  direction = deposit;
  txid = txid;
  vout = 0;
  address = 3;
  amount = 500;
  timestamp = 0;
  conflicts = [];
}

-- An account with one deposit.
abbrev pub account : UserCurrencyInfo
account = record (new_currency_info Currency.btc) { transactions = Transaction.btc (btc_tx 1) ∷ [] }

abbrev pub user : UserInfo
user = record {
  username = "alice";
  invite = record { invite = 1 };
  auth = SignupAuth.password "secret";
  created_at = 0;
  withdrawal_requests = [];
  completed_requests = [];
  currencies = (Currency.btc, account) ∷ [];
  limit_change_requests = [];
  config = default_config;
  public_key = none;
}

abbrev pub state : State
state = record {
  users = ("alice", user) ∷ [];
  last_changed = 0;
  btc_state = record { height = 0; block_hash = "0" };
  invites = [];
  exchange_state = Exchange.new;
}

abbrev pub order_upd : ExchangeOrderUpd
order_upd = record {
  id = 9;
  user = "alice";
  currency_from = Currency.btc;
  currency_to = Currency.eth;
  amount_from = 200;
  amount_to = 3000;
  created_at = "now";
}

abbrev pub bitcoin : Bitcoin
bitcoin = record {
  genesis_block_hash = λ network. "000000000019d668";
  address_to_string = λ addr. "bc1q";
  txid_to_string = λ txid. "f00d";
}

abbrev pub draw : Draw
draw = record { new_v4 = 77; now = "today" }

abbrev pub invite_update : StateUpdate
invite_update = record {
  created = 1;
  body =
      UpdateBody.gen_invite
        (record { invite = record { invite = 4 }; invitor = "operator"; label = "friend" });
}

abbrev pub signup_update : StateUpdate
signup_update = record {
  created = 2;
  body =
      UpdateBody.signup
        (record { username = "bob"; invite = record { invite = 4 }; auth = SignupAuth.lightning });
}

abbrev pub block_update : StateUpdate
block_update = record {
  created = 4;
  body = UpdateBody.best_btc_block (record { height = 8; block_hash = "8" });
}

abbrev pub snapshot_update : StateUpdate
snapshot_update = record { created = 3; body = UpdateBody.snapshot state }
