-- ===== src/Prelude/Text.antt =====
-- Texts: joining parts with a separator, and a number in decimal.
use Prim.Native.String.{◌++◌, slice}
use text.Mathlib.TextLemmas.{append_assoc}
use hexstody.Prelude.{
  ℕ, zero, suc, ◌/◌, ◌%◌, ◌≡◌, ap, ◌∙◌, List, [], ◌∷◌, String, ltb, if◌then◌else◌,
}

-- `join(sep)`
abbrev pub join : String → List String → String
join sep [] = ""
join sep (s ∷ []) = s
join sep (s ∷ t ∷ rest) = s ++ sep ++ join sep (t ∷ rest)

abbrev digit : ℕ → String
digit n = slice "0123456789" n (suc n)

-- A number in decimal, of at most `digits` digits.
unfoldable pub decimal : ℕ → ℕ → String
decimal zero n = ""
decimal (suc digits) n =
    let front = decimal digits (n / 10) in if ltb n 10 then digit n else front ++ digit (n % 10)

-- `to_string` of a `u64`, which is below 10 ^ 20
abbrev pub u64_to_string : ℕ → String
u64_to_string n = decimal 20 n

-- Joining the first two parts beforehand changes nothing.
pub join-join :
    (sep a b c : String) → join sep (join sep (a ∷ b ∷ []) ∷ c ∷ []) ≡ join sep (a ∷ b ∷ c ∷ [])
join-join sep a b c =
    append_assoc a (sep ++ b) (sep ++ c) ∙ ap (λ t. a ++ t) (append_assoc sep b (sep ++ c))
