-- ===== src/Prelude/Results.antt =====
-- What a Python call comes to: a value, or an exception.
use mathlib.Core.Path.{◌≡◌, refl}
use mathlib.Core.Logic.{◌⊎◌, inl, inr}

pub data Result {ℓ} (E A : Type ℓ) : Type ℓ where
  ok : A → Result E A
  raise : E → Result E A

infixl 5 ◌>>=◌
abbrev pub ◌>>=◌ {ℓ} : {E A B : Type ℓ} → Result E A → (A → Result E B) → Result E B
ok a >>= f = f a
raise e >>= f = raise e

pub Result-cases {ℓ} :
    {E A : Type ℓ} (r : Result E A) → ((e : E) × (r ≡ raise e)) ⊎ ((a : A) × (r ≡ ok a))
Result-cases (ok a) = inr (a, refl)
Result-cases (raise e) = inl (e, refl)

pub result_induction {ℓ κ} :
    {E A : Type ℓ} (P : Result E A → Type κ) (r : Result E A)
    → ((e : E) → r ≡ raise e → P (raise e))
    → ((a : A) → r ≡ ok a → P (ok a))
    → P r
result_induction P (ok a) failed passed = passed a refl
result_induction P (raise e) failed passed = failed e refl
