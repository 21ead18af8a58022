-- ===== src/Operator/Invites.antt =====
-- Invites: an operator draws a new one, and lists those that he has made.
use hexstody.Prelude.{
  ◌<◌, ◌≤◌, ◌≡◌, ◌≢◌, refl, sym, ◌∙◌, ap, true, false, List, [], ◌∷◌, ◌++◌, Option-cases, Option,
  none, some, String, arith, if◌then◌else◌, filter_map, ◌==◌, string_eq, length, inl, inr,
  Bool-cases, ==_ne, All,
}
use hexstody.Prelude.Dict.{Dict, contains_key, lookup, remove, values, lookup-remove}
use hexstody.Prelude.Fallible.{Fallible, ok, err, map_ok}
use hexstody.Domain.Types.{Uuid, Invite, SignatureData, PublicKey}
use hexstody.Domain.Error.{ApiError}
use hexstody.Domain.Requests.{InviteRequest, InviteResp}
use hexstody.Update.Body.{UpdateBody, StateUpdate}
use hexstody.Update.Misc.{InviteRec}
use hexstody.State.Core.{State, invite_eq, ok}
use hexstody.State.Accounts
use hexstody.Update.Channel.{Channel}
use hexstody.Operator.{Service, Call, guard_op_signature, guard_op_signature_nomsg, send, after}

-- The loop over what `Uuid::new_v4` gives, in order: `none` if all are taken.
unfoldable pub fresh_invite : List Uuid → Dict Invite InviteRec → Option Invite
fresh_invite [] invites = none
fresh_invite (id ∷ rest) invites =
    let later = fresh_invite rest invites in
    let invite : Invite = record { invite = id } in
    if contains_key invite invites then later else some invite

abbrev invite_resp : String → InviteRec → Option InviteResp
invite_resp invitor v =
    if v.invitor == invitor then some (record { invite = v.invite; label = v.label }) else none

module _ (service : Service) (key_to_string : PublicKey → String) where
  -- `none` while the loop still draws.
  unfoldable pub gen_invite :
      (InviteRequest → String)
      → State
      → List Uuid
      → SignatureData
      → InviteRequest
      → Channel
      → Option (Fallible ApiError InviteResp × Channel)
  unfolding guard_op_signature send fresh_invite
  gen_invite to_json s draws sd req channel =
      elim (guard_op_signature service "/invite/generate" sd (to_json req)) [
        | err e ↦ some (err e, channel)
        | ok u ↦ elim (fresh_invite draws s.invites) [
          | none ↦ none
          | some invite ↦
              let (sent, channel') =
                send service
                  (UpdateBody.gen_invite (record {
                    invite = invite;
                    invitor = key_to_string sd.public_key;
                    label = req.label;
                  }))
                  channel in
              some (map_ok (λ t. record { invite = invite; label = req.label }) sent, channel')
        ]
      ]

  unfoldable pub list_ops_invites : State → SignatureData → Call (List InviteResp)
  unfolding guard_op_signature_nomsg
  list_ops_invites s sd = after (guard_op_signature_nomsg service "/invite/listmy" sd) λ channel.
      (ok (filter_map (invite_resp (key_to_string sd.public_key)) (values s.invites)), channel)

-- The draws are all different.
abbrev pub AllDifferent : List Uuid → Type 0
AllDifferent [] = Unit
AllDifferent (u ∷ us) = All (λ v. u ≢ v) us × AllDifferent us

length-remove_le : (k : Invite) (m : Dict Invite InviteRec) → length (remove k m) ≤ length m
unfolding remove
length-remove_le k [] = omega arith
length-remove_le k ((j, w) ∷ m) = ground (arith, length-remove_le k m)

length-remove :
    (k : Invite) (m : Dict Invite InviteRec)
    → contains_key k m ≡ true
    → length (remove k m) < length m
unfolding contains_key lookup remove
length-remove k [] h = cc
length-remove k ((j, w) ∷ m) h = elim (Bool-cases (j == k)) [
  | inl hit ↦ rw hit (omega (arith, length-remove_le k m))
  | inr miss ↦ rw miss (omega (arith, length-remove k m (rw miss at h)))
]

-- An invite that is drawn was not there.
fresh_invite-contains_key :
    (draws : List Uuid) (m : Dict Invite InviteRec) {i : Invite}
    → fresh_invite draws m ≡ some i
    → contains_key i m ≡ false
unfolding fresh_invite
fresh_invite-contains_key [] m h = cc
fresh_invite-contains_key (d ∷ ds) m {i} h = ground (arith, fresh_invite-contains_key ds m {i = i})

lookup-absent :
    (i : Invite) (m : Dict Invite InviteRec) → contains_key i m ≡ false → lookup i m ≡ none
unfolding contains_key
lookup-absent i m h = ground (arith, Option-cases (lookup i m))

contains_key-remove :
    (j k : Invite) (m : Dict Invite InviteRec)
    → j ≢ k
    → contains_key k (remove j m) ≡ contains_key k m
unfolding contains_key
contains_key-remove j k m h = rw (contains_key, lookup-remove j k m, ==_ne j k h) refl

fresh_invite-remove :
    (d : Uuid) (draws : List Uuid) (m : Dict Invite InviteRec)
    → All (λ v. d ≢ v) draws
    → fresh_invite draws (remove (record { invite = d }) m) ≡ fresh_invite draws m
unfolding fresh_invite
fresh_invite-remove d [] m h = refl
fresh_invite-remove d (e ∷ ds) m h =
    let other : contains_key (record { invite = e }) (remove (record { invite = d }) m)
        ≡ contains_key (record { invite = e }) m =
      contains_key-remove (record { invite = d }) (record { invite = e }) m
        (λ p. h.0 (ap (λ (i : Invite). i.invite) p)) in
    rw (other, fresh_invite-remove d ds m h.1) refl

-- With more different draws than invites, the loop ends with an invite that is not taken.
pub fresh_invite-ends :
    (draws : List Uuid) (m : Dict Invite InviteRec)
    → AllDifferent draws
    → length m < length draws
    → (i : Invite) × (fresh_invite draws m ≡ some i) × (contains_key i m ≡ false)
unfolding fresh_invite
fresh_invite-ends [] m different more = absurd (omega arith)
fresh_invite-ends (d ∷ ds) m different more =
    let invite : Invite = record { invite = d } in
    elim (Bool-cases (contains_key invite m)) [
      | inl taken ↦
          let rest =
            fresh_invite-ends ds (remove invite m) different.1
              (omega (arith, length-remove invite m taken)) in
          let found = sym (fresh_invite-remove d ds m different.0) ∙ rest.1 in
          rw taken (rest.0, found, fresh_invite-contains_key ds m found)
      | inr free ↦ rw free (invite, refl, free)
    ]

-- If more different ids are drawn than there are invites, then the loop for a new invite ends: a
-- request with a valid signature, while the worker listens, is answered with an invite, and the
-- state as it is accepts that invite.
pub gen_invite-ends :
    (service : Service) (key_to_string : PublicKey → String) (to_json : InviteRequest → String)
    (s : State) (draws : List Uuid) (sd : SignatureData) (req : InviteRequest) (channel : Channel)
    → AllDifferent draws
    → length s.invites < length draws
    → guard_op_signature service "/invite/generate" sd (to_json req) ≡ ok tt
    → channel.listens ≡ true
    → (i : Invite) × (rest : Channel) × (gen_invite service key_to_string to_json s draws sd req
          channel
        ≡ some (ok (record { invite = i; label = req.label }), rest))
      × ((Accounts.gen_invite
            (record { invite = i; invitor = key_to_string sd.public_key; label = req.label })
            s).0
          ≡ ok tt)
unfolding gen_invite send Accounts.gen_invite
gen_invite-ends service key_to_string to_json s draws sd req channel different more allowed on =
    let drawn = fresh_invite-ends draws s.invites different more in
    let update : StateUpdate = record {
      created = service.now;
      body =
          UpdateBody.gen_invite
            (record { invite = drawn.0; invitor = key_to_string sd.public_key; label = req.label });
    } in
    let absent : lookup drawn.0 s.invites ≡ none = lookup-absent drawn.0 s.invites drawn.2 in
    (
      drawn.0,
      record channel { sent = channel.sent ++ update ∷ [] },
      rw (gen_invite, allowed, drawn.1, send, on) refl,
      rw (Accounts.gen_invite, absent) refl,
    )
