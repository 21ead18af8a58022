-- ===== src/Prelude/Fallible.antt =====
-- `Result<A, E>` of Rust, for the code that has errors of its own.
use hexstody.Prelude.{◌≡◌, ◌⊎◌, inl, inr, refl, ap}

pub data Fallible {ℓ κ} (E : Type ℓ) (A : Type κ) : Type (ℓ ⊔ κ) where
  ok : A → Fallible E A
  err : E → Fallible E A

infixl 5 ◌>>=◌ ◌>>◌
abbrev pub ◌>>=◌ {ℓ κ ι} :
    {E : Type ℓ} {A : Type κ} {B : Type ι} → Fallible E A → (A → Fallible E B) → Fallible E B
ok a >>= f = f a
err e >>= f = err e

abbrev pub ◌>>◌ {ℓ κ ι} :
    {E : Type ℓ} {A : Type κ} {B : Type ι} → Fallible E A → Fallible E B → Fallible E B
m >> k = m >>= λ _. k

-- `map_err`
abbrev pub map_err {ℓ κ ι} :
    {E : Type ℓ} {F : Type κ} {A : Type ι} → (E → F) → Fallible E A → Fallible F A
map_err f (ok a) = ok a
map_err f (err e) = err (f e)

-- `map`
abbrev pub map_ok {ℓ κ ι} :
    {E : Type ℓ} {A : Type κ} {B : Type ι} → (A → B) → Fallible E A → Fallible E B
map_ok f (ok a) = ok (f a)
map_ok f (err e) = err e

pub Fallible-cases {ℓ κ} :
    {E : Type ℓ} {A : Type κ} (r : Fallible E A) → ((a : A) × (r ≡ ok a)) ⊎ ((e : E) × (r ≡ err e))
Fallible-cases (ok a) = inl (a, refl)
Fallible-cases (err e) = inr (e, refl)

abbrev ok_or {ℓ κ} : {E : Type ℓ} {A : Type κ} → A → Fallible E A → A
ok_or a (ok b) = b
ok_or a (err e) = a

pub ok_injective {ℓ κ} :
    {E : Type ℓ} {A : Type κ} {a b : A} → ◌≡◌ {A = Fallible E A} (ok a) (ok b) → a ≡ b
ok_injective {a = a} h = ap (ok_or a) h
