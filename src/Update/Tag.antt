-- ===== src/Update/Tag.antt =====
-- hexstody-db/src/update/mod.rs: the tags of the updates, and how a tag is written to a row and read
-- back. `to_lowercase` of the standard library is a parameter.
use hexstody.Prelude.{
  ℕ, ◌≡◌, ◌↔◌, ◌∙◌, refl, ap, [], ◌∷◌, none, some, String, string_eq, arith, Option-cases, inl, inr,
}
use hexstody.Prelude.Dict.{Dict, lookup, AllEntries}
use hexstody.Prelude.Dict.Entries.{AllEntries-lookup}
use hexstody.Prelude.Fallible.{Fallible, ok, err}
use hexstody.Update.Body.{UpdateBody}

pub data UpdateTag : Type 0 where
  signup : UpdateTag
  snapshot : UpdateTag
  create_withdrawal_request : UpdateTag
  withdrawal_request_decision : UpdateTag
  withdrawal_request_confirm : UpdateTag
  withdrawal_request_node_rejected : UpdateTag
  deposit_address : UpdateTag
  best_btc_block : UpdateTag
  update_btc_tx : UpdateTag
  cancel_btc_tx : UpdateTag
  update_tokens : UpdateTag
  gen_invite : UpdateTag
  limits_change_request : UpdateTag
  cancel_limit_change : UpdateTag
  limit_change_decision : UpdateTag
  clear_limits : UpdateTag
  set_language : UpdateTag
  config_update : UpdateTag
  password_change : UpdateTag
  set_public_key : UpdateTag
  exchange_request : UpdateTag
  exchange_decision : UpdateTag
  exchange_address : UpdateTag

-- The error of `deserialize` keeps the version, the tag, serde's error and the body.
pub data UpdateBodyError (Value Error : Type 0) : Type 0 where
  unknown_tag : String → UpdateBodyError Value Error
  deserialize : ℕ → UpdateTag → Error → Value → UpdateBodyError Value Error
  unexpected_version : ℕ → UpdateBodyError Value Error

-- `tag()`; the body of a completed withdrawal has the tag of a confirmation
unfoldable pub tag : UpdateBody → UpdateTag
tag (UpdateBody.signup v) = UpdateTag.signup
tag (UpdateBody.snapshot v) = UpdateTag.snapshot
tag (UpdateBody.create_withdrawal_request v) = UpdateTag.create_withdrawal_request
tag (UpdateBody.withdrawal_request_decision v) = UpdateTag.withdrawal_request_decision
tag (UpdateBody.withdrawal_request_complete v) = UpdateTag.withdrawal_request_confirm
tag (UpdateBody.withdrawal_request_node_rejected v) = UpdateTag.withdrawal_request_node_rejected
tag (UpdateBody.deposit_address v) = UpdateTag.deposit_address
tag (UpdateBody.best_btc_block v) = UpdateTag.best_btc_block
tag (UpdateBody.update_btc_tx v) = UpdateTag.update_btc_tx
tag (UpdateBody.cancel_btc_tx v) = UpdateTag.cancel_btc_tx
tag (UpdateBody.update_tokens v) = UpdateTag.update_tokens
tag (UpdateBody.gen_invite v) = UpdateTag.gen_invite
tag (UpdateBody.limits_change_request v) = UpdateTag.limits_change_request
tag (UpdateBody.cancel_limit_change v) = UpdateTag.cancel_limit_change
tag (UpdateBody.limit_change_decision v) = UpdateTag.limit_change_decision
tag (UpdateBody.clear_limits v) = UpdateTag.clear_limits
tag (UpdateBody.set_language v) = UpdateTag.set_language
tag (UpdateBody.config_update v) = UpdateTag.config_update
tag (UpdateBody.password_change v) = UpdateTag.password_change
tag (UpdateBody.set_public_key v) = UpdateTag.set_public_key
tag (UpdateBody.exchange_request v) = UpdateTag.exchange_request
tag (UpdateBody.exchange_decision v) = UpdateTag.exchange_decision
tag (UpdateBody.exchange_address v) = UpdateTag.exchange_address

-- `Display`
unfoldable pub to_string : UpdateTag → String
to_string signup = "signup"
to_string snapshot = "snapshot"
to_string create_withdrawal_request = "withdrawal request"
to_string withdrawal_request_decision = "withdrawal request decision"
to_string withdrawal_request_confirm = "withdrawal request confirm"
to_string withdrawal_request_node_rejected = "withdrawal request node rejected"
to_string deposit_address = "deposit address"
to_string best_btc_block = "best btc block"
to_string update_btc_tx = "update btc tx"
to_string cancel_btc_tx = "cancel btc tx"
to_string update_tokens = "update tokens"
to_string gen_invite = "gen invite"
to_string limits_change_request = "limits change req"
to_string cancel_limit_change = "cancel limits change"
to_string limit_change_decision = "limit change decision"
to_string clear_limits = "clear limits"
to_string set_language = "set language"
to_string config_update = "user config update"
to_string password_change = "password change"
to_string set_public_key = "set public key"
to_string exchange_request = "exchange request"
to_string exchange_decision = "exchange decision"
to_string exchange_address = "exchange address"

-- The arms of `from_str`, in their order.
unfoldable pub tags : Dict String UpdateTag
tags =
    ("signup", signup)
    ∷ ("snapshot", snapshot)
    ∷ ("withdrawal request", create_withdrawal_request)
    ∷ ("withdrawal request decision", withdrawal_request_decision)
    ∷ ("withdrawal request confirm", withdrawal_request_confirm)
    ∷ ("withdrawal request node rejected", withdrawal_request_node_rejected)
    ∷ ("deposit address", deposit_address)
    ∷ ("best btc block", best_btc_block)
    ∷ ("update btc tx", update_btc_tx)
    ∷ ("cancel btc tx", cancel_btc_tx)
    ∷ ("update tokens", update_tokens)
    ∷ ("gen invite", gen_invite)
    ∷ ("limits change req", limits_change_request)
    ∷ ("cancel limits change", cancel_limit_change)
    ∷ ("limit change decision", limit_change_decision)
    ∷ ("clear limits", clear_limits)
    ∷ ("set language", set_language)
    ∷ ("user config update", config_update)
    ∷ ("password change", password_change)
    ∷ ("set public key", set_public_key)
    ∷ ("exchange request", exchange_request)
    ∷ ("exchange decision", exchange_decision)
    ∷ ("exchange address", exchange_address)
    ∷ []

-- `FromStr`: an unknown text is the error.
unfoldable pub from_str : (String → String) → String → Fallible String UpdateTag
unfolding tags
from_str to_lowercase s = elim (lookup (to_lowercase s) tags) [ none ↦ err s | some t ↦ ok t ]

lookup-to_string : (t : UpdateTag) → lookup (to_string t) tags ≡ some t
unfolding to_string tags lookup
lookup-to_string signup = refl
lookup-to_string snapshot = refl
lookup-to_string create_withdrawal_request = refl
lookup-to_string withdrawal_request_decision = refl
lookup-to_string withdrawal_request_confirm = refl
lookup-to_string withdrawal_request_node_rejected = refl
lookup-to_string deposit_address = refl
lookup-to_string best_btc_block = refl
lookup-to_string update_btc_tx = refl
lookup-to_string cancel_btc_tx = refl
lookup-to_string update_tokens = refl
lookup-to_string gen_invite = refl
lookup-to_string limits_change_request = refl
lookup-to_string cancel_limit_change = refl
lookup-to_string limit_change_decision = refl
lookup-to_string clear_limits = refl
lookup-to_string set_language = refl
lookup-to_string config_update = refl
lookup-to_string password_change = refl
lookup-to_string set_public_key = refl
lookup-to_string exchange_request = refl
lookup-to_string exchange_decision = refl
lookup-to_string exchange_address = refl

tags_named : AllEntries (λ k t. k ≡ to_string t) tags
unfolding tags to_string
tags_named = (
  refl,
  (
    refl,
    (
      refl,
      (
        refl,
        (
          refl,
          (
            refl,
            (
              refl,
              (
                refl,
                (
                  refl,
                  (
                    refl,
                    (
                      refl,
                      (
                        refl,
                        (
                          refl,
                          (
                            refl,
                            (
                              refl,
                              (refl, (refl, (refl, (refl, (refl, (refl, (refl, (refl, tt)))))))),
                            ),
                          ),
                        ),
                      ),
                    ),
                  ),
                ),
              ),
            ),
          ),
        ),
      ),
    ),
  ),
)

-- A text is accepted as a tag exactly when its lower case is the tag's own text.
pub from_str-accepts :
    (lower : String → String) (s : String) (t : UpdateTag)
    → (from_str lower s ≡ ok t) ↔ (lower s ≡ to_string t)
unfolding from_str
from_str-accepts lower s t = (
  λ h. elim (Option-cases (lookup (lower s) tags)) [
    | inl miss ↦ ground arith
    | inr (u, hit) ↦
        let named = AllEntries-lookup (λ k u. k ≡ to_string u) (lower s) tags tags_named hit in
        let same : u ≡ t = ground arith in named ∙ ap to_string same
  ],
  λ h. rw (h, from_str, lookup-to_string t) refl,
)
