-- ===== src/Operator/Queries/Covered.antt =====
-- The currencies of requests for a change of a limit, and those that their users have.
use hexstody.Prelude.{
  All-map, ap, ◌∙◌, ◌≡◌, refl, true, false, List, [], ◌∷◌, string_eq, arith, inl, inr, Option-cases,
  is_some, All, Bool-cases, ◌==◌, ==_iff,
}
use hexstody.Prelude.Dict.{
  Dict, lookup, insert, remove, AllEntries, lookup-insert, lookup-remove, lookup-update_all,
}
use hexstody.Prelude.Dict.Entries.{AllEntries-lookup, AllEntries-insert, AllEntries-remove}
use hexstody.Domain.Currency.{Currency, currency_eq}
use hexstody.Update.Limit.{LimitChangeData}
use hexstody.State.Core.{State, Draw, Bitcoin, Network, ok}
use hexstody.State.Apply.{collect}
use hexstody.State.Apply.Kept.{KeepsUser}
use hexstody.State.Apply.Kept.Updates.{BringsUsers, collect-Keeps}
use hexstody.Update.Body.{UpdateBody, StateUpdate}
use hexstody.Domain.Types.{NaiveDateTime}
use hexstody.State.User.{UserInfo, UserCurrencyInfo, new_currency_info, new_user}

abbrev pub Covers : Dict Currency UserCurrencyInfo → Currency → LimitChangeData → Type 0
Covers currencies c req = (req.currency ≡ c) × (is_some (lookup c currencies) ≡ true)

abbrev pub UserIsCovered : UserInfo → Type 0
UserIsCovered user = AllEntries (Covers user.currencies) user.limit_change_requests

abbrev pub IsCovered : State → Type 0
IsCovered s = AllEntries (λ uid user. UserIsCovered user) s.users

AllEntries-map :
    {K V : Type 0} {P Q : K → V → Type 0} (m : Dict K V)
    → ((k : K) (v : V) → P k v → Q k v)
    → AllEntries P m
    → AllEntries Q m
AllEntries-map [] f h = tt
AllEntries-map ((k, v) ∷ m) f h = (f k v h.0, AllEntries-map m f h.1)

AllEntries-remove_others :
    {V : Type 0} {P Q : Currency → V → Type 0} (c : Currency) (m : Dict Currency V)
    → ((k : Currency) (v : V) → (c == k) ≡ false → P k v → Q k v)
    → AllEntries P m
    → AllEntries Q (remove c m)
unfolding remove
AllEntries-remove_others c [] f h = tt
AllEntries-remove_others c ((k, v) ∷ m) f h = elim (Bool-cases (k == c)) [
  | inl hit ↦ rw hit (AllEntries-remove_others c m f h.1)
  | inr miss ↦
      let other : (c == k) ≡ false = ground (arith, ==_iff k c, ==_iff c k) in
      rw miss (f k v other h.0, AllEntries-remove_others c m f h.1)
]

module _ (user : UserInfo) (c : Currency) where
  account-IsCovered :
      (info : UserCurrencyInfo)
      → UserIsCovered user
      → UserIsCovered (record user { currencies = insert c info user.currencies })
  account-IsCovered info covered =
      AllEntries-map user.limit_change_requests
        (λ k v h. (h.0, ground (arith, h.1, lookup-insert c k info user.currencies))) covered

  closed-IsCovered :
      UserIsCovered user
      → UserIsCovered (record user {
        currencies = remove c user.currencies;
        limit_change_requests = remove c user.limit_change_requests;
      })
  closed-IsCovered covered =
      AllEntries-remove_others c user.limit_change_requests
        (λ k v other h. (h.0, ground (arith, h.1, other, lookup-remove c k user.currencies)))
        covered

  request-IsCovered :
      (req : LimitChangeData)
      → UserIsCovered user
      → req.currency ≡ c
      → is_some (lookup c user.currencies) ≡ true
      → UserIsCovered
          (record user { limit_change_requests = insert c req user.limit_change_requests })
  request-IsCovered req covered named has =
      AllEntries-insert (Covers user.currencies) c req user.limit_change_requests covered
        (named, has)

-- What updates do to a user keeps his pending changes covered.
IsCovered-KeepsUser : KeepsUser (λ uid user. UserIsCovered user)
IsCovered-KeepsUser = record {
  account = λ {uid} {user} c info' change held covered. account-IsCovered user c info' covered;
  accounts = λ {uid} {user} f change covered.
      AllEntries-map user.limit_change_requests
        (λ k v h. (
          h.0,
          ground (
            arith,
            h.1,
            lookup-update_all f k user.currencies,
            Option-cases (lookup k user.currencies),
          ),
        ))
        covered;
  opened = λ {uid} {user} c covered. account-IsCovered user c (new_currency_info c) covered;
  closed = λ {uid} {user} c covered. closed-IsCovered user c covered;
  settings = λ auth config key covered. covered;
  asked = λ {uid} {user} req held covered.
      request-IsCovered user req.currency req covered refl (ap is_some held);
  decided = λ {uid} {user} c {req} req' pending same covered.
      let old =
        AllEntries-lookup (Covers user.currencies) c user.limit_change_requests covered pending in
      request-IsCovered user c req' covered (same ∙ old.0) old.1;
  dropped = λ {uid} {user} c covered.
      AllEntries-remove (Covers user.currencies) c user.limit_change_requests covered;
}

abbrev pub BringsCovered : UpdateBody → Type 0
BringsCovered (UpdateBody.snapshot s) = IsCovered s
BringsCovered _ = Unit

brought :
    (t : NaiveDateTime) (body : UpdateBody)
    → BringsCovered body
    → BringsUsers (λ uid user. UserIsCovered user) t body
unfolding new_user
brought t (UpdateBody.snapshot s) h = h
brought t (UpdateBody.signup info) h = tt
brought t _ h = tt

pub collect-IsCovered :
    (b : Bitcoin) (network : Network) (now : NaiveDateTime) (us : List (Draw × StateUpdate))
    {s : State}
    → All (λ u. BringsCovered u.1.body) us
    → collect b network now us ≡ ok s
    → IsCovered s
collect-IsCovered b network now us {s} h e =
    collect-Keeps (λ uid user. UserIsCovered user) IsCovered-KeepsUser b network now us {s = s}
      (All-map (λ u. BringsCovered u.1.body)
        (λ u. BringsUsers (λ uid user. UserIsCovered user) u.1.created u.1.body) us
        (λ u h'. brought u.1.created u.1.body h') h)
      e
