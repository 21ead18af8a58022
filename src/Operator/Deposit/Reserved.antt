-- ===== src/Operator/Deposit/Reserved.antt =====
-- The name of the exchange, under which the operators look for a user.
use hexstody.Prelude.{
  ◌≡◌, ◌≢◌, refl, List, All, Option, none, some, String, string_eq, inl, inr, Option-cases,
}
use hexstody.Prelude.Dict.{lookup, AllEntries}
use hexstody.Prelude.Dict.Entries.{AllEntries-lookup}
use hexstody.Prelude.Fallible.{Fallible, err}
use hexstody.Domain.Types.{NaiveDateTime, SignatureData}
use hexstody.Domain.Currency.{Currency, currency_eq}
use hexstody.Domain.Error.{failed_gen_address}
use hexstody.Update.Signup.{UserId}
use hexstody.Update.Body.{StateUpdate}
use hexstody.Update.Channel.{Channel}
use hexstody.State.Core.{State, Bitcoin, Draw, Network, ok}
use hexstody.State.User.{UserInfo}
use hexstody.State.Apply.{collect}
use hexstody.State.Apply.Kept.{KeepsUser}
use hexstody.State.Apply.Kept.Updates.{BringsUsers, collect-Keeps}
use hexstody.Public.Auth.{reserved_name}
use hexstody.Operator.{Service, guard_op_signature}
use hexstody.Operator.Deposit.{Adapters, get_exchange_address, stuck_without_user}

abbrev pub IsOrdinary : UserId → UserInfo → Type 0
IsOrdinary uid user = uid ≢ reserved_name

IsOrdinary-KeepsUser : KeepsUser IsOrdinary
IsOrdinary-KeepsUser = record {
  account = λ c info' change held o. o;
  accounts = λ f change o. o;
  opened = λ c o. o;
  closed = λ c o. o;
  settings = λ auth config key o. o;
  asked = λ req held o. o;
  decided = λ c req' pending same o. o;
  dropped = λ c o. o;
}

reserved-unknown : (s : State) → AllEntries IsOrdinary s.users → lookup reserved_name s.users ≡ none
reserved-unknown s ordinary = elim (Option-cases (lookup reserved_name s.users)) [
  | inl unknown ↦ unknown
  | inr (user, known) ↦
      absurd (AllEntries-lookup IsOrdinary reserved_name s.users ordinary known refl)
]

-- In a state that is collected from a chain of updates, without a sign-up of the name `hexstody-
-- exchange` and without a snapshot that has this user, if the exchange has no address in a currency
-- other than bitcoin, then every signed request for this address fails with `FailedGenAddress` and
-- sends nothing, whatever the adapters answer.
pub get_exchange_address_stuck :
    (service : Service) (adapters : Adapters) (to_json : Currency → String)
    (to_lowercase : String → String) (qr_code : String → Option String) (b : Bitcoin)
    (network : Network) (now : NaiveDateTime) (us : List (Draw × StateUpdate)) {s : State}
    (sd : SignatureData) (c : Currency) (channel : Channel)
    → All (λ u. BringsUsers IsOrdinary u.1.created u.1.body) us
    → collect b network now us ≡ ok s
    → c ≢ Currency.btc
    → lookup c s.exchange_state.addresses ≡ none
    → guard_op_signature service "/exchange/address" sd (to_json c) ≡ Fallible.ok tt
    → get_exchange_address service adapters to_json to_lowercase qr_code s sd c channel
      ≡ (some (err (failed_gen_address c)), channel)
get_exchange_address_stuck service adapters to_json to_lowercase qr_code b network now us {s} sd c
      channel h e hc ha hg =
    stuck_without_user service adapters to_json to_lowercase qr_code s sd c channel hc ha
      (reserved-unknown s
        (collect-Keeps IsOrdinary IsOrdinary-KeepsUser b network now us {s = s} h e))
      hg
