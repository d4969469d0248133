-- ===== src/Base/Outcome.antt =====
-- Results of fallible code: a value, or an error of the component's own.
use mathlib.Core.Path.{◌≡◌, refl, sym, ap, subst, ◌∙◌}
use mathlib.Core.Logic.{◌⊎◌, inl, inr}

pub data Result {ℓ} (E : Type 0) (A : Type ℓ) : Type ℓ where
  err : E → Result E A
  ok : A → Result E A

infixl 5 ◌>>=◌
abbrev pub ◌>>=◌ {κ ℓ} :
    {E : Type 0} {B : Type κ} {A : Type ℓ} → Result E B → (B → Result E A) → Result E A
err failed >>= next = err failed
ok b >>= next = next b

pub Result-cases {ℓ} :
    {E : Type 0} {A : Type ℓ} (r : Result E A) → ((a : A) × (r ≡ ok a)) ⊎ ((e : E) × (r ≡ err e))
Result-cases (ok a) = inl (a, refl)
Result-cases (err e) = inr (e, refl)

-- A result has one value only.
abbrev value_or {κ} : {E : Type 0} {A : Type κ} → A → Result E A → A
value_or a (ok x) = x
value_or a (err e) = a

pub same_value {κ ι} :
    {E : Type 0} {A : Type κ} (P : A → Type ι) (a b : A) (r : Result E A)
    → r ≡ ok a
    → r ≡ ok b
    → P a
    → P b
same_value P a b r e f p = subst P (ap (value_or a) (sym e ∙ f)) p
