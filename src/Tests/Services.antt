-- ===== src/Tests/Services.antt =====
-- Requests of operators.
use hexstody.Prelude.{
  ◌≡◌, ◌≢◌, ◌↔◌, refl, true, List, [], ◌∷◌, some, arith, nat_eq, string_eq, ◌==◌,
}
use hexstody.Prelude.Int.{pos}
use hexstody.Prelude.Dict.{lookup}
use hexstody.Prelude.Fallible.{ok}
use hexstody.Domain.Types.{SignatureData, Invite, LimitChangeStatus}
use hexstody.Domain.Currency.{Currency, currency_eq, CurrencyAddress, symbol_eq}
use hexstody.Domain.Requests.{
  LimitConfirmationData, ExchangeConfirmationData, InviteRequest, LimitChangeOpResponse,
}
use hexstody.Update.Channel.{Channel}
use hexstody.Update.Limit.{LimitChangeData}
use hexstody.Update.Withdrawal.{ConfirmationData}
use hexstody.State.Core
use hexstody.State.Core.{State}
use hexstody.State.Accounts
use hexstody.Signed.{verify, signed_text}
use hexstody.Btc.Withdraw.{passes, decision_message, withdrawal_confirm_uri, withdrawal_reject_uri}
use hexstody.Operator.{Service, guard_op_signature}
use hexstody.Operator.Decisions.{
  confirm, reject, confirm_limits, reject_limits, confirm_exchange, reject_exchange,
}
use hexstody.Operator.Guarded.{IsAuthorised, confirm-passes, limits_and_exchange-IsAuthorised}
use hexstody.Operator.Invites.{gen_invite, gen_invite-ends}
use hexstody.Operator.Queries.{all_changes}
use hexstody.Operator.Queries.Covered.{IsCovered}
use hexstody.Operator.Queries.Listed.{IsListed, all_changes-IsListed}
use hexstody.Prelude.Dict.{AllEntries}
use hexstody.Update.Body.{StateUpdate, UpdateBody}
use hexstody.State.Core.{Draw, mainnet, new}
use hexstody.State.Apply.{collect, collect_from, apply_update, apply_body}
use hexstody.State.Chain.{with_best_btc_block}
use hexstody.Tests.Data.{bitcoin, draw, block_update}
use hexstody.Tests.Data.{state, user, account}

abbrev pub service : Service
service = record {
  check = λ key text signature. signature == 5;
  config = record { domain = "https://hot"; operator_public_keys = 1 ∷ 2 ∷ [] };
  now = 8;
  send_error = λ update. "closed";
}

abbrev pub channel : Channel
channel = record { listens = true; sent = [] }

abbrev pub sd : SignatureData
sd = record { signature = 5; nonce = 1; public_key = 1 }

abbrev cd : ConfirmationData
cd = record {
  id = 7;
  user = "alice";
  address = CurrencyAddress.btc (record { addr = "bc1q" });
  created_at = "then";
  amount = 1000;
}

confirm-passes_example :
    (((confirm service (λ c. "{}") sd cd channel).1 ≢ channel) ↔ (
      passes service.check service.config.operator_public_keys
        (decision_message (λ c. "{}") "https://hot" withdrawal_confirm_uri cd)
        sd
      ≡ true))
    × (((reject service (λ c. "{}") sd cd channel).1 ≢ channel) ↔ (
        passes service.check service.config.operator_public_keys
          (decision_message (λ c. "{}") "https://hot" withdrawal_reject_uri cd)
          sd
        ≡ true))
confirm-passes_example = confirm-passes service (λ c. "{}") sd cd channel refl

abbrev limit : LimitConfirmationData
limit = record {
  id = 7;
  user = "alice";
  created_at = "then";
  currency = Currency.btc;
  requested_limit = account.limit_info.limit;
}

abbrev exchange : ExchangeConfirmationData
exchange = record {
  user = "alice";
  id = 9;
  currency_from = Currency.btc;
  currency_to = Currency.eth;
  amount_from = 1;
  amount_to = 2;
  created_at = "then";
}

limits_and_exchange-IsAuthorised_example :
    ((confirm_limits service (λ c. "{}") sd limit channel).1 ≢ channel
      → IsAuthorised service "/limits/confirm" sd "{}")
    × ((reject_limits service (λ c. "{}") sd limit channel).1 ≢ channel
        → IsAuthorised service "/limits/reject" sd "{}")
    × ((confirm_exchange service (λ c. "{}") sd exchange channel).1 ≢ channel
        → IsAuthorised service "/exchange/confirm" sd "{}")
    × ((reject_exchange service (λ c. "{}") sd exchange channel).1 ≢ channel
        → IsAuthorised service "/exchange/reject" sd "{}")
limits_and_exchange-IsAuthorised_example =
    limits_and_exchange-IsAuthorised service (λ c. "{}") (λ c. "{}") sd limit exchange channel

-- A state with the invite 1.
abbrev pub invited : State
invited = record state {
  invites =
      (
        record { invite = 1 },
        record { invite = record { invite = 1 }; invitor = "operator"; label = "first" },
      )
      ∷ [];
}

abbrev invite_request : InviteRequest
invite_request = record { label = "friend" }

pub operator-guard : guard_op_signature service "/invite/generate" sd "{}" ≡ ok tt
unfolding guard_op_signature verify signed_text
operator-guard = refl

gen_invite-ends_example :
    (i : Invite) × (rest : Channel) × (gen_invite service
        (λ key. "operator")
        (λ r. "{}")
        invited
        (1 ∷ 2 ∷ [])
        sd
        invite_request
        channel
      ≡ some (ok (record { invite = i; label = "friend" }), rest))
    × ((Accounts.gen_invite
          (record { invite = i; invitor = "operator"; label = "friend" })
          invited).0
        ≡ Core.ok tt)
gen_invite-ends_example =
    gen_invite-ends service (λ key. "operator") (λ r. "{}") invited (1 ∷ 2 ∷ []) sd invite_request
      channel ((λ h. omega (arith, h), tt), (tt, tt)) (omega arith) operator-guard refl

-- A user who asks for a new limit of his bitcoin account.
abbrev limit_request : LimitChangeData
limit_request = record {
  id = 4;
  user = "alice";
  created_at = "then";
  status = LimitChangeStatus.in_progress (pos 0) (pos 0);
  currency = Currency.btc;
  limit = account.limit_info.limit;
  confirmations = [];
  rejections = [];
}

abbrev asking : State
asking = record state {
  users =
      ("alice", record user { limit_change_requests = (Currency.btc, limit_request) ∷ [] }) ∷ [];
}

asking-IsCovered : IsCovered asking
unfolding lookup
asking-IsCovered = (((refl, refl), tt), tt)

abbrev asking_later : State
asking_later = record asking {
  last_changed = 4;
  btc_state = record { height = 8; block_hash = "8" };
}

abbrev history : List (Draw × StateUpdate)
history =
    (draw, record { created = 3; body = UpdateBody.snapshot asking }) ∷ (draw, block_update) ∷ []

history_collected : collect bitcoin mainnet 0 history ≡ Core.ok asking_later
unfolding collect collect_from apply_update apply_body new with_best_btc_block
history_collected = refl

all_changes-IsListed_example :
    (found : List LimitChangeOpResponse) × (all_changes asking_later ≡ some found)
    × AllEntries
        (λ uid user. AllEntries (IsListed found user) user.limit_change_requests)
        asking_later.users
all_changes-IsListed_example =
    all_changes-IsListed bitcoin mainnet 0 history {s = asking_later} (asking-IsCovered, (tt, tt))
      history_collected
