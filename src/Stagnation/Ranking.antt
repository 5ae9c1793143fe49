-- ===== src/Stagnation/Ranking.antt =====
-- The sorted counts are the same counts, those that come first in front.
use mathlib.Core.List.{Perm}
use mathlib.Core.List.Perm
use autonomous_llm_bot.Prelude.{
  ℕ, ◌<◌, ◌≡◌, sym, ◌⊎◌, inl, inr, true, false, List, [], ◌∷◌, arith, ltb, ltb→lt, ◌==◌, ==_iff,
  nat_eq, string_eq, Bool-cases, if_induction,
}
use autonomous_llm_bot.Stagnation.{Pair, text_less, place, ranked, comes_first}

-- One before the other: it is counted more often, or as often and its target is no later text.
abbrev pub Before : Pair × ℕ → Pair × ℕ → Type 0
Before (p, n) (q, m) =
    (m < n) ⊎ ((n ≡ m) × ((text_less p.0 q.0 ≡ true) ⊎ (text_less q.0 p.0 ≡ false)))

abbrev pub Ranked : List (Pair × ℕ) → Type 0
Ranked [] = Unit
Ranked (x ∷ []) = Unit
Ranked (x ∷ y ∷ xs) = Before x y × Ranked (y ∷ xs)

comes_first-Before : (x y : Pair × ℕ) → comes_first x y ≡ true → Before x y
comes_first-Before (p, n) (q, m) h = elim (Bool-cases (ltb m n)) [
  | inl more ↦ inl (ltb→lt m n more)
  | inr no_more ↦ inr ((==_iff n m).0 (ground arith), inr (ground arith))
]

comes_first-after : (x y : Pair × ℕ) → comes_first x y ≡ false → Before y x
comes_first-after (p, n) (q, m) h = elim (Bool-cases (n == m)) [
  | inl same ↦ inr (sym ((==_iff n m).0 same), inl (ground arith))
  | inr other ↦ inl (ground (arith, ==_iff n m))
]

place-after :
    (x y : Pair × ℕ) (ys : List (Pair × ℕ)) → Before y x → Ranked (y ∷ ys) → Ranked (y ∷ place x ys)
unfolding place
place-after x y [] b r = (b, tt)
place-after x y (z ∷ ys) b r = elim (Bool-cases (comes_first x z)) [
  | inl first ↦ rw first (b, (comes_first-Before x z first, r.1))
  | inr later ↦ rw later (r.0, place-after x z ys (comes_first-after x z later) r.1)
]

place-Ranked : (x : Pair × ℕ) (ys : List (Pair × ℕ)) → Ranked ys → Ranked (place x ys)
unfolding place
place-Ranked x [] r = tt
place-Ranked x (y ∷ ys) r = elim (Bool-cases (comes_first x y)) [
  | inl first ↦ rw first (comes_first-Before x y first, r)
  | inr later ↦ rw later (place-after x y ys (comes_first-after x y later) r)
]

pub ranked-Ranked : (xs : List (Pair × ℕ)) → Ranked (ranked xs)
unfolding ranked
ranked-Ranked [] = tt
ranked-Ranked (x ∷ xs) = place-Ranked x (ranked xs) (ranked-Ranked xs)

place-Perm : (x : Pair × ℕ) (ys : List (Pair × ℕ)) → Perm (place x ys) (x ∷ ys)
unfolding place
place-Perm x [] = Perm.refl (x ∷ [])
place-Perm x (y ∷ ys) =
    if_induction (λ (r : List (Pair × ℕ)). Perm r (x ∷ y ∷ ys)) (comes_first x y)
      (λ _. Perm.refl (x ∷ y ∷ ys))
      (λ _. Perm.trans (Perm.cons y (place-Perm x ys)) (Perm.swap x y ys))

pub ranked-Perm : (xs : List (Pair × ℕ)) → Perm (ranked xs) xs
unfolding ranked
ranked-Perm [] = Perm.refl []
ranked-Perm (x ∷ xs) = Perm.trans (place-Perm x (ranked xs)) (Perm.cons x (ranked-Perm xs))
