-- ===== src/Operator/Queries/Listed.antt =====
-- The list of all pending changes of limits, for a state that is collected from updates.
use mathlib.Core.Path.{subst}
use hexstody.Prelude.{
  map_all, Among, map_all-Among, ap, ◌∙◌, ◌++◌, ◌≡◌, refl, sym, true, List, [], ◌∷◌, Option, some,
  string_eq, arith, inl, inr, Option-cases, is_some, ◌⊎◌, All,
}
use hexstody.Prelude.Dict.{Dict, lookup, values, AllEntries}
use hexstody.Domain.Currency.{Currency, currency_eq}
use hexstody.Domain.Requests.{LimitChangeOpResponse}
use hexstody.Update.Limit.{LimitChangeData}
use hexstody.State.Core.{State, Draw, Bitcoin, Network, ok}
use hexstody.State.Apply.{collect}
use hexstody.Update.Body.{StateUpdate}
use hexstody.Domain.Types.{NaiveDateTime}
use hexstody.Update.Signup.{UserId}
use hexstody.State.User.{UserInfo, UserCurrencyInfo}
use hexstody.Operator.Queries.{change_of, changes_of, all_changes, concat}
use hexstody.Operator.Queries.Covered.{Covers, UserIsCovered, BringsCovered, collect-IsCovered}

map_all-total :
    {A B : Type 0} (f : A → Option B) (xs : List A)
    → All (λ x. is_some (f x) ≡ true) xs
    → is_some (map_all f xs) ≡ true
map_all-total f [] h = refl
map_all-total f (x ∷ xs) h = ground (arith, map_all-total f xs h.1)

change_of-total :
    (user : UserInfo) (c : Currency) (req : LimitChangeData)
    → Covers user.currencies c req
    → is_some (change_of user req) ≡ true
change_of-total user c req h =
    let has = subst (λ k. is_some (lookup k user.currencies) ≡ true) (sym h.0) h.1 in
    ground (arith, Option-cases (lookup req.currency user.currencies))

values-All :
    {K V : Type 0} {P : K → V → Type 0} {Q : V → Type 0} (m : Dict K V)
    → ((k : K) (v : V) → P k v → Q v)
    → AllEntries P m
    → All Q (values m)
unfolding values
values-All [] f h = tt
values-All ((k, v) ∷ m) f h = (f k v h.0, values-All m f h.1)

-- The list of one user's changes is given without a panic.
changes_of-total : (user : UserInfo) → UserIsCovered user → is_some (changes_of user) ≡ true
changes_of-total user c =
    map_all-total (change_of user) (values user.limit_change_requests)
      (values-All {P = Covers user.currencies} user.limit_change_requests (change_of-total user) c)

-- A change under its currency, beside the limit of the account.
abbrev pub listed_change : Currency → LimitChangeData → UserCurrencyInfo → LimitChangeOpResponse
listed_change c req info = record {
  id = req.id;
  user = req.user;
  created_at = req.created_at;
  currency = c;
  current_limit = info.limit_info.limit;
  requested_limit = req.limit;
  status = req.status;
}

-- The change is in the list, with the limit of its account.
abbrev pub IsListed : List LimitChangeOpResponse → UserInfo → Currency → LimitChangeData → Type 0
IsListed found user c req =
    (info : UserCurrencyInfo) × (lookup c user.currencies ≡ some info)
    × Among (listed_change c req info) found

changed :
    (user : UserInfo) (req : LimitChangeData) (info : UserCurrencyInfo) {c : Currency}
    → req.currency ≡ c
    → lookup c user.currencies ≡ some info
    → change_of user req ≡ some (listed_change c req info)
changed user req info {c} named held =
    let has : lookup req.currency user.currencies ≡ some info =
      ap (λ k. lookup k user.currencies) named ∙ held in
    rw (change_of, has) (ap (λ k. some (listed_change k req info)) named)

change_of-Covers :
    (user : UserInfo) (c : Currency) (req : LimitChangeData) (found : List LimitChangeOpResponse)
    → Covers user.currencies c req
    → ((r : LimitChangeOpResponse) → change_of user req ≡ some r → Among r found)
    → IsListed found user c req
change_of-Covers user c req found h there = elim (Option-cases (lookup c user.currencies)) [
  | inl none_such ↦ absurd (ground (arith, h.1))
  | inr (info, held) ↦
      (info, held, there (listed_change c req info) (changed user req info h.0 held))
]

IsListed-of_user :
    (user : UserInfo) (requests : Dict Currency LimitChangeData)
    (found : List LimitChangeOpResponse)
    → AllEntries (Covers user.currencies) requests
    → ((req : LimitChangeData) (r : LimitChangeOpResponse)
        → Among req (values requests)
        → change_of user req ≡ some r
        → Among r found)
    → AllEntries (IsListed found user) requests
unfolding values
IsListed-of_user user [] found h there = tt
IsListed-of_user user ((c, req) ∷ rest) found h there = (
  change_of-Covers user c req found h.0 (λ r made. there req r (inl refl) made),
  IsListed-of_user user rest found h.1 (λ q r among made. there q r (inr among) made),
)

append-Among : {A : Type 0} (x : A) (xs ys : List A) → Among x xs ⊎ Among x ys → Among x (xs ++ ys)
append-Among x [] ys (inl h) = cc
append-Among x [] ys (inr h) = h
append-Among x (z ∷ zs) ys (inl (inl here)) = inl here
append-Among x (z ∷ zs) ys (inl (inr there)) = inr (append-Among x zs ys (inl there))
append-Among x (z ∷ zs) ys (inr h) = inr (append-Among x zs ys (inr h))

concat-Among :
    {A : Type 0} (x : A) (xs : List A) (xss : List (List A))
    → Among x xs
    → Among xs xss
    → Among x (concat xss)
concat-Among x xs [] h there = cc
concat-Among x xs (ys ∷ rest) h (inl here) =
    append-Among x ys (concat rest) (inl (subst (Among x) (sym here) h))
concat-Among x xs (ys ∷ rest) h (inr there) =
    append-Among x ys (concat rest) (inr (concat-Among x xs rest h there))

IsListed-of_users :
    (users : Dict UserId UserInfo) (found : List LimitChangeOpResponse)
    → AllEntries (λ uid user. UserIsCovered user) users
    → ((user : UserInfo) (xs : List LimitChangeOpResponse) (r : LimitChangeOpResponse)
        → Among user (values users)
        → changes_of user ≡ some xs
        → Among r xs
        → Among r found)
    → AllEntries (λ uid user. AllEntries (IsListed found user) user.limit_change_requests) users
unfolding values
IsListed-of_users [] found h there = tt
IsListed-of_users ((uid, user) ∷ rest) found h there = (
  elim (Option-cases (changes_of user)) [
    | inl panics ↦ absurd (ground (arith, panics, changes_of-total user h.0))
    | inr (xs, made) ↦
        IsListed-of_user user user.limit_change_requests found h.0 (λ req r among one.
          there user xs r (inl refl) made (
            map_all-Among (change_of user) req r (values user.limit_change_requests) xs among one
              made))
  ],
  IsListed-of_users rest found h.1 (λ u xs r among made. there u xs r (inr among) made),
)

-- In a state that is collected from a chain of updates, whose snapshots keep every pending change
-- of a limit under its own currency and only where the user has an account, the list of all changes
-- is given without a panic, and has every pending change of every user, beside the limit of the
-- user's account.
pub all_changes-IsListed :
    (b : Bitcoin) (network : Network) (now : NaiveDateTime) (us : List (Draw × StateUpdate))
    {s : State}
    → All (λ u. BringsCovered u.1.body) us
    → collect b network now us ≡ ok s
    → (found : List LimitChangeOpResponse) × (all_changes s ≡ some found)
      × AllEntries (λ uid user. AllEntries (IsListed found user) user.limit_change_requests) s.users
unfolding all_changes
all_changes-IsListed b network now us {s} h e =
    let covered = collect-IsCovered b network now us {s = s} h e in
    let total =
      map_all-total changes_of (values s.users)
        (values-All s.users (λ uid user c. changes_of-total user c) covered) in
    elim (Option-cases (map_all changes_of (values s.users))) [
      | inl panics ↦ absurd (ground (arith, panics, total))
      | inr (lists, done) ↦ (
        concat lists,
        rw (all_changes, done) refl,
        IsListed-of_users s.users (concat lists) covered (λ user xs r among made inside.
            concat-Among r xs lists inside
              (map_all-Among changes_of user xs (values s.users) lists among made done)),
      )
    ]
