-- ===== src/Public.antt =====
-- hexstody-public/src/api: the requests of the users. A request reads the state, answers, and changes
-- what is around the state; the ethereum adapter is a parameter.
pub mod Auth
pub mod Wallet
pub mod Deposit
pub mod Balance
pub mod Profile
pub mod Accepted
use hexstody.Prelude.{
  ℕ, Bool, true, false, not, List, [], ◌∷◌, ◌++◌, Option, none, some, String, string_eq,
  if◌then◌else◌,
}
use hexstody.Prelude.Dict.{Dict, lookup}
use hexstody.Prelude.Fallible.{Fallible, ok, err}
use hexstody.Domain.Types.{NaiveDateTime}
use hexstody.Domain.Error.{ApiError, auth_required, no_user_found}
use hexstody.Update.Signup.{UserId}
use hexstody.Update.Body.{UpdateBody, StateUpdate}
use hexstody.Update.Channel.{Channel}
use hexstody.State.Core.{State}
use hexstody.State.User.{UserInfo}

-- Around the state: the channel to the worker, the ethereum adapter with its node, the private cookie
-- `user_id` of the session, and the challenges of the runtime state.
pub record World (W : Type 0) : Type 0 where
  pub channel : Channel
  pub eth : W
  pub cookie : Option UserId
  pub challenges : Dict UserId String

-- `none` is a panic.
abbrev pub Handler : Type 0 → Type 0 → Type 0
Handler W A = World W → Option (Fallible ApiError A) × World W

module _ {W : Type 0} where
  infixl 5 ◌>>=◌ ◌>>◌
  abbrev pub ◌>>=◌ : {A B : Type 0} → Handler W A → (A → Handler W B) → Handler W B
  ◌>>=◌ m f w =
      let (r, w') = m w in
      elim r [
        | none ↦ (none, w')
        | some answer ↦ elim answer [ ok a ↦ f a w' | err e ↦ (some (err e), w') ]
      ]

  abbrev pub ◌>>◌ : {A B : Type 0} → Handler W A → Handler W B → Handler W B
  m >> k = m >>= λ _. k

  abbrev pub answer : {A : Type 0} → Fallible ApiError A → Handler W A
  answer r w = (some r, w)

  abbrev pub pure : {A : Type 0} → A → Handler W A
  pure a = answer (ok a)

  abbrev pub fail : {A : Type 0} → ApiError → Handler W A
  fail e = answer (err e)

  abbrev pub require : Bool → ApiError → Handler W (Unit {0})
  require true e = pure tt
  require false e = fail e

  -- A look-up with an error where there is nothing.
  abbrev pub found : {A : Type 0} → Option A → ApiError → Handler W A
  found none e = fail e
  found (some a) e = pure a

  -- `updater.send(…)`: whether the worker still listens
  abbrev pub push : NaiveDateTime → UpdateBody → World W → Bool × World W
  push now body w =
      let update : StateUpdate = record { created = now; body = body } in
      if w.channel.listens
      then (true, record w { channel = record w.channel { sent = w.channel.sent ++ update ∷ [] } })
      else (false, w)

  -- With `unwrap`, with an error, and with the outcome thrown away.
  unfoldable pub send_unwrap : NaiveDateTime → UpdateBody → Handler W (Unit {0})
  send_unwrap now body w =
      let (heard, w') = push now body w in if heard then (some (ok tt), w') else (none, w')

  unfoldable pub send_or : ApiError → NaiveDateTime → UpdateBody → Handler W (Unit {0})
  send_or e now body w =
      let (heard, w') = push now body w in (if heard then some (ok tt) else some (err e), w')

  unfoldable pub send_anyway : NaiveDateTime → UpdateBody → Handler W (Unit {0})
  send_anyway now body w = let (heard, w') = push now body w in (some (ok tt), w')

  -- A call of the ethereum adapter.
  abbrev pub ask : {A : Type 0} → (String → ApiError) → (W → Fallible String A × W) → Handler W A
  ask failed call w =
      let (r, eth') = call w.eth in
      (some (elim r [ ok a ↦ ok a | err e ↦ err (failed e) ]), record w { eth = eth' })

  unfoldable pub require_auth : {A : Type 0} → (UserId → Handler W A) → Handler W A
  require_auth future w = elim w.cookie [
    | none ↦ fail auth_required w
    | some user_id ↦ future user_id w
  ]

  -- The user of the session, as he is in the state.
  unfoldable pub require_auth_user : {A : Type 0} → State → (UserInfo → Handler W A) → Handler W A
  unfolding require_auth
  require_auth_user s future =
      require_auth λ user_id. found (lookup user_id s.users) no_user_found >>= future
