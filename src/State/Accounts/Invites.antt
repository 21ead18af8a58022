-- ===== src/State/Accounts/Invites.antt =====
-- Invites and the users who come with them.
use hexstody.Prelude.{◌≡◌, arith, none, some, Option-cases, inl, inr, string_eq, ==_refl, ◌∙◌}
use hexstody.Prelude.Dict.{lookup, insert, remove, contains_key, lookup-remove, lookup-insert_self}
use hexstody.Domain.Types.{NaiveDateTime}
use hexstody.Update.Signup.{SignupInfo}
use hexstody.Update.Misc.{InviteRec}
use hexstody.State.User.{user_from}
use hexstody.State.Core.{State, ok, err, invite_eq, invite_not_found}
use hexstody.State.Accounts.{with_signup}

module _ (t : NaiveDateTime) (info : SignupInfo) (s : State) where
  -- A sign-up with a free name and a known invite succeeds, adds the user under the name, and uses
  -- the invite up.
  pub with_signup_accepts :
      {r : InviteRec}
      → lookup info.username s.users ≡ none
      → lookup info.invite s.invites ≡ some r
      → (s' : State) × (with_signup t info s ≡ (ok tt, s'))
        × (lookup info.username s'.users ≡ some (user_from t info))
        × (lookup info.invite s'.invites ≡ none)
  unfolding with_signup contains_key
  with_signup_accepts {r} free known = (
    record s {
      users = insert info.username (user_from t info) s.users;
      invites = remove info.invite s.invites;
    },
    ground arith,
    lookup-insert_self info.username (user_from t info) s.users,
    lookup-remove info.invite info.invite s.invites ∙ ground (arith, ==_refl info.invite),
  )

  -- If a sign-up succeeds, then its name was free and its invite was known.
  pub with_signup-ok :
      {s' : State}
      → with_signup t info s ≡ (ok tt, s')
      → (lookup info.username s.users ≡ none)
        × ((r : InviteRec) × (lookup info.invite s.invites ≡ some r))
  unfolding with_signup contains_key
  with_signup-ok {s'} h = elim (Option-cases (lookup info.username s.users)) [
    | inl free ↦ elim (Option-cases (lookup info.invite s.invites)) [
      | inl unknown ↦ ground arith
      | inr (r, known) ↦ (free, (r, known))
    ]
    | inr (user, taken) ↦ ground arith
  ]

  -- After a sign-up that succeeds, another one with the same invite and a name that is then free
  -- fails with `InviteNotFound` and leaves the state as it is.
  pub with_signup_once :
      (t' : NaiveDateTime) (other : SignupInfo) {s' : State}
      → with_signup t info s ≡ (ok tt, s')
      → other.invite ≡ info.invite
      → lookup other.username s'.users ≡ none
      → with_signup t' other s' ≡ (err invite_not_found, s')
  unfolding with_signup contains_key
  with_signup_once t' other {s'} h same free =
      ground (arith, lookup-remove info.invite other.invite s.invites, ==_refl info.invite)
