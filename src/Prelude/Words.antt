-- ===== src/Prelude/Words.antt =====
-- Machine integers: a `u64` is a number below 2 ^ 64, an `i16` or an `i64` an integer in its range.
-- Arithmetic wraps around, as in a build without overflow checks.
use hexstody.Prelude.{
  ℕ, ◌+◌, ◌-◌, ◌%◌, ◌≤◌, ◌<◌, ◌≡◌, arith, List, [], ◌∷◌, ltb, if◌then◌else◌, ◌∙◌,
}
use native.Mathlib.Nat.{add_assoc, mod-eq_of_lt}
use hexstody.Prelude.Int.{
  ℤ, pos, negsuc, pos_part, neg_part, ◌+ℤ◌, ◌-ℤ◌, int_laws, +ℤ_parts, -ℤ_parts, one_part, sum,
}

abbrev pub u64_mod : ℕ
u64_mod = 18446744073709551616

abbrev pub i64_half : ℕ
i64_half = 9223372036854775808

abbrev pub i16_half : ℕ
i16_half = 32768

-- The integer that the residue `r` modulo `half + half` stands for.
abbrev of_residue : ℕ → ℕ → ℤ
of_residue half r = if ltb r half then pos r else negsuc (half + half - 1 - r)

-- Reduction to the range from -half to half - 1.
unfoldable pub wrap : ℕ → ℤ → ℤ
wrap half (pos n) = of_residue half (n % (half + half))
wrap half (negsuc n) = of_residue half (half + half - 1 - n % (half + half))

abbrev pub InRange : ℕ → ℤ → Type 0
InRange half x = (pos_part x < half) × (neg_part x ≤ half)

-- An integer in range is what it was.
pub wrap_id : (half : ℕ) (x : ℤ) → InRange half x → wrap half x ≡ x
unfolding wrap
wrap_id half (pos n) h = ground (arith, mod-eq_of_lt {n = n} {m = half + half} (omega arith))
wrap_id half (negsuc n) h = ground (arith, mod-eq_of_lt {n = n} {m = half + half} (omega arith))

abbrev pub wrap_i64 : ℤ → ℤ
wrap_i64 = wrap i64_half

abbrev pub wrap_i16 : ℤ → ℤ
wrap_i16 = wrap i16_half

-- `a as i64` for an `a` of type `u64`
abbrev pub as_i64 : ℕ → ℤ
as_i64 a = wrap_i64 (pos a)

unfoldable pub add_u64 : ℕ → ℕ → ℕ
add_u64 a b = (a + b) % u64_mod

-- `a - b` on `u64`, which stays in range by borrowing
unfoldable pub sub_u64 : ℕ → ℕ → ℕ
sub_u64 a b = (a + u64_mod - b % u64_mod) % u64_mod

unfoldable pub add_i64 : ℤ → ℤ → ℤ
add_i64 a b = wrap_i64 (a +ℤ b)

unfoldable pub sub_i64 : ℤ → ℤ → ℤ
sub_i64 a b = wrap_i64 (a -ℤ b)

unfoldable pub add_i16 : ℤ → ℤ → ℤ
add_i16 a b = wrap_i16 (a +ℤ b)

unfoldable pub sub_i16 : ℤ → ℤ → ℤ
sub_i16 a b = wrap_i16 (a -ℤ b)

-- `iter().sum::<u64>()` and `iter().sum::<i64>()`, from an accumulator
unfoldable pub sum_u64 : ℕ → List ℕ → ℕ
sum_u64 acc [] = acc
sum_u64 acc (x ∷ xs) = sum_u64 (add_u64 acc x) xs

unfoldable pub sum_i64 : ℤ → List ℤ → ℤ
sum_i64 acc [] = acc
sum_i64 acc (x ∷ xs) = sum_i64 (add_i64 acc x) xs

-- The sum of a list of numbers that does not wrap.
unfoldable pub total : List ℕ → ℕ
total [] = 0
total (x ∷ xs) = x + total xs

pub add_u64_id : (a b : ℕ) → a + b < u64_mod → add_u64 a b ≡ a + b
unfolding add_u64
add_u64_id a b h = omega arith

pub sum_u64-total :
    (acc : ℕ) (xs : List ℕ) → acc + total xs < u64_mod → sum_u64 acc xs ≡ acc + total xs
unfolding sum_u64 total
sum_u64-total acc [] h = omega arith
sum_u64-total acc (x ∷ xs) h =
    rw (add_u64_id acc x (omega arith))
      (sum_u64-total (acc + x) xs (omega arith) ∙ add_assoc acc x (total xs))

-- `-a` on `i64`
unfoldable pub neg_i64 : ℤ → ℤ
neg_i64 a = wrap_i64 (pos 0 -ℤ a)

pub add_i16_id : (a b : ℤ) → InRange i16_half (a +ℤ b) → add_i16 a b ≡ a +ℤ b
unfolding add_i16
add_i16_id a b h = wrap_id i16_half (a +ℤ b) h

pub sub_i16_id : (a b : ℤ) → InRange i16_half (a -ℤ b) → sub_i16 a b ≡ a -ℤ b
unfolding sub_i16
sub_i16_id a b h = wrap_id i16_half (a -ℤ b) h

-- The magnitude of an integer, and of a list of integers.
abbrev pub size : ℤ → ℕ
size a = pos_part a + neg_part a

unfoldable pub total_size : List ℤ → ℕ
total_size [] = 0
total_size (x ∷ xs) = size x + total_size xs

pub add_i64_id : (a b : ℤ) → size a + size b < i64_half → add_i64 a b ≡ a +ℤ b
unfolding add_i64
add_i64_id a b h = wrap_id i64_half (a +ℤ b) (omega (arith, +ℤ_parts a b, one_part (a +ℤ b)))

pub sub_i64_id : (a b : ℤ) → size a + size b < i64_half → sub_i64 a b ≡ a -ℤ b
unfolding sub_i64
sub_i64_id a b h = wrap_id i64_half (a -ℤ b) (omega (arith, -ℤ_parts a b, one_part (a -ℤ b)))

pub as_i64_id : (a : ℕ) → a < i64_half → as_i64 a ≡ pos a
as_i64_id a h = wrap_id i64_half (pos a) (h, omega arith)

pub size-add : (a b : ℤ) → size (a +ℤ b) ≤ size a + size b
size-add a b = omega (arith, +ℤ_parts a b, one_part (a +ℤ b))

pub size-sub : (a b : ℤ) → size (a -ℤ b) ≤ size a + size b
size-sub a b = omega (arith, -ℤ_parts a b, one_part (a -ℤ b))

pub sum_i64-sum :
    (acc : ℤ) (xs : List ℤ) → size acc + total_size xs < i64_half → sum_i64 acc xs ≡ acc +ℤ sum xs
unfolding sum_i64 total_size sum
sum_i64-sum acc [] h = omega int_laws
sum_i64-sum acc (x ∷ xs) h =
    rw (add_i64_id acc x (omega arith), sum_i64-sum (acc +ℤ x) xs (omega (arith, size-add acc x)))
      (omega int_laws)

pub size-sum : (xs : List ℤ) → size (sum xs) ≤ total_size xs
unfolding total_size sum
size-sum [] = omega arith
size-sum (x ∷ xs) = omega (arith, size-add x (sum xs), size-sum xs)
