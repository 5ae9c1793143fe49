-- ===== src/Prelude/Selected.antt =====
-- The items of a list that have a property, all of them and in order, said without a test.
use mathlib.Core.Path.{◌≡◌, refl, ap}
use mathlib.Core.Logic.{inl, inr}
use mathlib.Core.Bool.{Bool, true, false, ◌&&◌}
use mathlib.Core.List.{List, [], ◌∷◌}
use autonomous_llm_bot.Prelude.Tests.{if_induction, Bool-cases}
use autonomous_llm_bot.Prelude.Lists.{keep}

module _ {A : Type 0} (P : A → Type 0) where
  pub data Selected : List A → List A → Type 0 where
    nothing : Selected [] []
    chosen : {x : A} {xs ys : List A} → P x → Selected xs ys → Selected (x ∷ xs) (x ∷ ys)
    passed : {x : A} {xs ys : List A} → ¬ P x → Selected xs ys → Selected (x ∷ xs) ys

  pub keep-Selected :
      (p : A → Bool)
      → ((x : A) → p x ≡ true → P x)
      → ((x : A) → p x ≡ false → ¬ P x)
      → (xs : List A) → Selected xs (keep p xs)
  unfolding keep
  keep-Selected p pass fail [] = nothing
  keep-Selected p pass fail (x ∷ xs) =
      if_induction (Selected (x ∷ xs)) (p x) (λ e. chosen (pass x e) (keep-Selected p pass fail xs))
        (λ e. passed (fail x e) (keep-Selected p pass fail xs))

  -- There is only one such list.
  pub Selected-unique : {xs ys zs : List A} → Selected xs ys → Selected xs zs → ys ≡ zs
  Selected-unique nothing nothing = refl
  Selected-unique (chosen {x} h s) (chosen k t) = ap (λ r. x ∷ r) (Selected-unique s t)
  Selected-unique (chosen h s) (passed k t) = absurd (k h)
  Selected-unique (passed h s) (chosen k t) = absurd (h k)
  Selected-unique (passed h s) (passed k t) = Selected-unique s t

pub keep-keep :
    {A : Type 0} (p q : A → Bool) (xs : List A) → keep p (keep q xs) ≡ keep (λ x. q x && p x) xs
unfolding keep
keep-keep p q [] = refl
keep-keep p q (x ∷ xs) = elim (Bool-cases (q x)) [
  | inl e ↦ elim (Bool-cases (p x)) [
    | inl f ↦ rw (e, f) (ap (λ r. x ∷ r) (keep-keep p q xs))
    | inr f ↦ rw (e, f) (keep-keep p q xs)
  ]
  | inr e ↦ rw e (keep-keep p q xs)
]
