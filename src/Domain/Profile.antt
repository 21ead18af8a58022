-- ===== src/Domain/Profile.antt =====
-- hexstody-api/src/domain/mod.rs: what a user may set about himself. The validity of an address or
-- a number is a regular expression of the regex crate, tested where a request comes in.
use hexstody.Prelude.{String, ◌≡◌, refl, Option, none, some, ◌==◌, string_eq, if◌then◌else◌}

pub data Language : Type 0 where
  english russian : Language

unfoldable pub to_alpha : Language → String
to_alpha english = "en"
to_alpha russian = "ru"

-- `FromStr`; the error holds the text, and is `none` here
unfoldable pub parse_language : String → Option Language
parse_language s = if s == "en" then some english else if s == "ru" then some russian else none

pub record Email : Type 0 where
  pub email : String

pub record PhoneNumber : Type 0 where
  pub number : String

pub record TgName : Type 0 where
  pub tg_name : String

-- Every language is read back from its code.
pub parse_language-to_alpha : (l : Language) → parse_language (to_alpha l) ≡ some l
unfolding parse_language to_alpha
parse_language-to_alpha english = refl
parse_language-to_alpha russian = refl
