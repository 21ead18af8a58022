-- ===== src/Signed.antt =====
-- hexstody-sig/src/lib.rs: the signatures that operators and users put under requests. The elliptic
-- curve check of the p256 crate is a parameter.
use hexstody.Prelude.{
  ℕ, ◌≡◌, ◌↔◌, refl, Bool, true, false, not, List, [], ◌∷◌, Option, none, some, String, arith, any,
  ◌==◌, nat_eq, if◌then◌else◌,
}
use hexstody.Prelude.Fallible.{Fallible, ok, err}
use hexstody.Prelude.Text.{join, join-join, u64_to_string}
use hexstody.Domain.Types.{PublicKey, Signature}

-- `VerifyingKey::from(key).verify(message, signature).is_ok()`
abbrev pub Verifier : Type 0
Verifier = PublicKey → String → Signature → Bool

pub record SignatureVerificationConfig : Type 0 where
  pub domain : String
  pub operator_public_keys : List PublicKey

pub data SignatureError : Type 0 where
  invalid_public_key invalid_signature invalid_domain : SignatureError

pub record SignatureVerificationData : Type 0 where
  pub url : String
  pub signature : Signature
  pub nonce : ℕ
  pub public_key : PublicKey
  pub message : Option String

-- `contains`
abbrev pub contains : PublicKey → List PublicKey → Bool
contains key keys = any (λ k. k == key) keys

abbrev message_items : SignatureVerificationData → List String
message_items d = elim d.message [
  | none ↦ d.url ∷ u64_to_string d.nonce ∷ []
  | some msg ↦ d.url ∷ msg ∷ u64_to_string d.nonce ∷ []
]

-- The text that is signed.
unfoldable pub signed_text : SignatureVerificationData → String
signed_text d = join ":" (message_items d)

module _ (check : Verifier) where
  abbrev check_signature : PublicKey → String → Signature → Fallible SignatureError (Unit {0})
  check_signature key text signature =
      if check key text signature then ok tt else err invalid_signature

  unfoldable pub verify :
      SignatureVerificationData → List PublicKey → Fallible SignatureError (Unit {0})
  unfolding signed_text
  verify d operator_public_keys =
      if not (contains d.public_key operator_public_keys)
      then err invalid_public_key
      else check_signature d.public_key (signed_text d) d.signature

  -- No list of keys lets every key pass.
  unfoldable pub verify_signature :
      Option (List PublicKey)
      → PublicKey
      → ℕ
      → String
      → Signature
      → Fallible SignatureError (Unit {0})
  verify_signature operator_public_keys public_key nonce message signature =
      let stranger : Bool = elim operator_public_keys [
        | none ↦ false
        | some keys ↦ not (contains public_key keys)
      ] in
      if stranger
      then err invalid_public_key
      else check_signature public_key (join ":" (message ∷ u64_to_string nonce ∷ [])) signature

  -- `verify` accepts exactly the listed keys whose signature passes the check.
  pub verify-accepts :
      (d : SignatureVerificationData) (keys : List PublicKey)
      → (verify d keys ≡ ok tt) ↔ (
          (contains d.public_key keys ≡ true)
          × (check d.public_key (signed_text d) d.signature ≡ true))
  unfolding verify
  verify-accepts d keys = ground arith

  -- `verify` of a request with a body is `verify_signature` of its address and body, joined by a colon.
  pub verify-verify_signature :
      (url msg : String) (key : PublicKey) (nonce : ℕ) (sig : Signature) (keys : List PublicKey)
      → verify
          (record {
            url = url;
            signature = sig;
            nonce = nonce;
            public_key = key;
            message = some msg;
          })
          keys
        ≡ verify_signature (some keys) key nonce (join ":" (url ∷ msg ∷ [])) sig
  unfolding verify verify_signature signed_text
  verify-verify_signature url msg key nonce sig keys =
      rw (join-join ":" url msg (u64_to_string nonce)) refl
