-- ===== src/State/Core.antt =====
-- The record `State` of hexstody-db/src/state/mod.rs, its errors, and what its handlers share: a
-- handler takes the state and gives a result and the state that it leaves, after an error too.
use hexstody.Prelude.{
  ℕ, Bool, true, false, [], Option, none, some, String, nat_eq, string_eq, Key, ◌==◌, nat_beq,
  nat_beq_iff, ◌≡◌, ◌↔◌, arith, find_map,
}
use hexstody.Prelude.Dict.{Dict, lookup, insert, find_key, values}
use hexstody.Domain.Types.{Uuid, PublicKey, Invite, NaiveDateTime}
use hexstody.Domain.Currency.{
  Currency, currency_eq, CurrencyAddress, CurrencyTxId, Erc20Token, currency, address,
}
use hexstody.Update.Signup.{UserId}
use hexstody.Update.Withdrawal.{WithdrawalRequestId}
use hexstody.Update.Misc.{InviteRec}
use hexstody.Update.Btc.{Address, Txid}
use hexstody.State.Exchange
use hexstody.State.Exchange.{ExchangeState}
use hexstody.State.User.{UserInfo, UserCurrencyInfo, has_address, find_completed_request}

-- Derived equality of `Invite`.
abbrev pub invite_beq : Invite → Invite → Bool
invite_beq a b = nat_beq a.invite b.invite

pub invite_beq_iff : (a b : Invite) → (invite_beq a b ≡ true) ↔ (a ≡ b)
invite_beq_iff a b = ground (arith, nat_beq_iff a.invite b.invite)

instance abbrev pub invite_eq : Key Invite
invite_eq = record { same = invite_beq; same_iff = invite_beq_iff }

-- `Network` of state/network.rs, and that of the bitcoin crate
pub data Network : Type 0 where
  mainnet testnet regtest : Network

pub data BtcNetwork : Type 0 where
  bitcoin testnet signet regtest : BtcNetwork

unfoldable pub btc_network : Network → BtcNetwork
btc_network mainnet = BtcNetwork.bitcoin
btc_network testnet = BtcNetwork.testnet
btc_network regtest = BtcNetwork.regtest

-- What the state takes from the bitcoin crate.
pub record Bitcoin : Type 0 where
  pub genesis_block_hash : BtcNetwork → String
  pub address_to_string : Address → String
  pub txid_to_string : Txid → String

-- What a step draws from outside: a fresh UUID and the time as text.
pub record Draw : Type 0 where
  pub new_v4 : Uuid
  pub now : String

pub record BtcState : Type 0 where
  pub height : ℕ
  pub block_hash : String

pub record State : Type 0 where
  pub users : Dict UserId UserInfo
  pub last_changed : NaiveDateTime
  pub btc_state : BtcState
  pub invites : Dict Invite InviteRec
  pub exchange_state : ExchangeState

pub data StateUpdateErr : Type 0 where
  user_already_exists user_not_found : UserId → StateUpdateErr
  user_missing_currency : UserId → Currency → StateUpdateErr
  deposit_address_already_allocated : UserId → CurrencyAddress → StateUpdateErr
  withdrawal_request_not_found : UserId → WithdrawalRequestId → StateUpdateErr
  withdrawal_request_confirmation_duplicate : WithdrawalRequestId → PublicKey → StateUpdateErr
  withdrawal_request_rejection_duplicate : WithdrawalRequestId → PublicKey → StateUpdateErr
  withdrawal_request_already_confirmed : WithdrawalRequestId → StateUpdateErr
  withdrawal_request_already_rejected : WithdrawalRequestId → StateUpdateErr
  token_already_enabled token_already_disabled : Erc20Token → StateUpdateErr
  token_non_zero_balance : Erc20Token → StateUpdateErr
  token_enable_fail : Erc20Token → UserId → StateUpdateErr
  invite_already_exist invite_not_found : StateUpdateErr
  limit_change_not_found limit_already_signed : StateUpdateErr
  limit_already_confirmed limit_already_rejected limit_overflow : StateUpdateErr
  insufficient_funds : UserId → Currency → StateUpdateErr
  user_missing_exchange : String → Currency → StateUpdateErr
  exchange_already_signed exchange_already_confirmed exchange_already_rejected : StateUpdateErr

-- `Result<A, StateUpdateErr>`
pub data Result (A : Type 0) : Type 0 where
  ok : A → Result A
  err : StateUpdateErr → Result A

abbrev pub Handler : Type 0 → Type 0
Handler A = State → Result A × State

infixl 5 ◌>>=◌ ◌>>◌
-- `?`: an error ends the handler, with the state as it is by then.
abbrev pub ◌>>=◌ : {A B : Type 0} → Handler A → (A → Handler B) → Handler B
◌>>=◌ m f s = let (r, s') = m s in elim r [ ok a ↦ f a s' | err e ↦ (err e, s') ]

abbrev pub ◌>>◌ : {A B : Type 0} → Handler A → Handler B → Handler B
m >> k = m >>= λ _. k

abbrev pub fail : {A : Type 0} → StateUpdateErr → Handler A
fail e s = (err e, s)

abbrev pub pure : {A : Type 0} → A → Handler A
pure a s = (ok a, s)

-- `State::new`, at the time `now`
unfoldable pub new : Bitcoin → Network → NaiveDateTime → State
unfolding btc_network
new b network now = record {
  users = [];
  last_changed = now;
  btc_state = record { height = 0; block_hash = b.genesis_block_hash (btc_network network) };
  invites = [];
  exchange_state = Exchange.new;
}

unfoldable pub find_user_address : State → CurrencyAddress → Option UserId
find_user_address s addr = find_key (has_address addr) s.users

unfoldable pub is_exchange_address : State → CurrencyAddress → Bool
is_exchange_address s a = elim (lookup (currency a) s.exchange_state.addresses) [
  | none ↦ false
  | some addr ↦ address addr == address a
]

unfoldable pub get_user_by_id : State → UserId → Option UserInfo
get_user_by_id s username = lookup username s.users

unfoldable pub find_withdrawal_by_tx_id : State → CurrencyTxId → Option WithdrawalRequestId
find_withdrawal_by_tx_id s txid = find_map (find_completed_request txid) (values s.users)

-- A user or a currency of his, written back through the reference that `get_mut` gave.
abbrev pub set_user : UserId → UserInfo → State → State
set_user uid user s = record s { users = insert uid user s.users }

abbrev pub set_currency : UserId → UserInfo → Currency → UserCurrencyInfo → State → State
set_currency uid user c info s =
    set_user uid (record user { currencies = insert c info user.currencies }) s

-- `if let Some(user) = self.users.get_mut(uid)`, with the error of the other branch
abbrev pub with_user : {A : Type 0} → UserId → (UserInfo → Handler A) → Handler A
with_user uid k s = elim (lookup uid s.users) [
  | none ↦ (err (user_not_found uid), s)
  | some user ↦ k user s
]

-- `if let Some(info) = user.currencies.get_mut(c)`
abbrev pub with_currency :
    {A : Type 0} → UserId → UserInfo → Currency → (UserCurrencyInfo → Handler A) → Handler A
with_currency uid user c k s = elim (lookup c user.currencies) [
  | none ↦ (err (user_missing_currency uid c), s)
  | some info ↦ k info s
]
