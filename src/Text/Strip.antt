-- ===== src/Text/Strip.antt =====
-- `strip` leaves nothing more to strip.
use Prim.Native.String.{[], ◌∷◌, ◌++◌ as append}
use autonomous_llm_bot.Prelude.{
  ℕ, suc, Char, String, ◌≡◌, refl, ap, subst, inl, inr, false, arith, ◌==◌, string_eq, Bool-cases,
}
use autonomous_llm_bot.Text.{prefix, strip, is_space, lstrip, cons_trimmed, rstrip}
use text.Mathlib.TextLemmas.{cons-eq-cons, nil≢cons, nil-append, cons-append}

lstrip_idem : (s : String) → lstrip (lstrip s) ≡ lstrip s
unfolding lstrip
lstrip_idem [] = refl
lstrip_idem (c ∷ s) = elim (Bool-cases (is_space c)) [
  | inl space ↦ rw space (lstrip_idem s)
  | inr other ↦ rw (other, other) refl
]

cons_trimmed_idem :
    (c : Char) (r : String) → rstrip r ≡ r → rstrip (cons_trimmed c r) ≡ cons_trimmed c r
unfolding rstrip
cons_trimmed_idem c [] e = elim (Bool-cases (is_space c)) [
  | inl space ↦ rw space refl
  | inr other ↦ rw (other, other) refl
]
cons_trimmed_idem c (d ∷ r) e = ap (cons_trimmed c) e

rstrip_idem : (s : String) → rstrip (rstrip s) ≡ rstrip s
unfolding rstrip
rstrip_idem [] = refl
rstrip_idem (c ∷ s) = cons_trimmed_idem c (rstrip s) (rstrip_idem s)

trimmed_tail : (c : Char) (r s : String) → cons_trimmed c r ≡ c ∷ s → r ≡ s
unfolding cons_trimmed
trimmed_tail c [] s e = elim (Bool-cases (is_space c)) [
  | inl space ↦ cc (rw space at e)
  | inr other ↦ (cons-eq-cons.0 (rw other at e)).1
]
trimmed_tail c (d ∷ r) s e = (cons-eq-cons.0 e).1

-- A suffix of a trimmed text is trimmed.
lstrip_trimmed : (s : String) → rstrip s ≡ s → rstrip (lstrip s) ≡ lstrip s
unfolding lstrip rstrip
lstrip_trimmed [] e = refl
lstrip_trimmed (c ∷ s) e = elim (Bool-cases (is_space c)) [
  | inl space ↦ rw space (lstrip_trimmed s (trimmed_tail c (rstrip s) s e))
  | inr other ↦ rw other e
]

pub strip_idem : (s : String) → strip (strip s) ≡ strip s
unfolding strip
strip_idem s = rw (lstrip_trimmed (rstrip s) (rstrip_idem s)) (lstrip_idem (rstrip s))

lstrip-head : (s : String) (c : Char) (t : String) → lstrip s ≡ c ∷ t → is_space c ≡ false
unfolding lstrip
lstrip-head [] c t h = absurd (nil≢cons h)
lstrip-head (d ∷ s) c t h = elim (Bool-cases (is_space d)) [
  | inl space ↦ lstrip-head s c t (rw space at h)
  | inr other ↦
      let (same, rest) = cons-eq-cons.0 (rw other at h) in
      subst (λ (e : Char). is_space e ≡ false) same other
]

cons_trimmed-plain : (c : Char) (r : String) → is_space c ≡ false → cons_trimmed c r ≡ c ∷ r
unfolding cons_trimmed
cons_trimmed-plain c [] h = rw h refl
cons_trimmed-plain c (d ∷ r) h = refl

rstrip-cons : (c : Char) (s : String) → is_space c ≡ false → rstrip (c ∷ s) ≡ c ∷ rstrip s
unfolding rstrip
rstrip-cons c s h = cons_trimmed-plain c (rstrip s) h

rstrip-append :
    (s : String) (c : Char) (t : String)
    → rstrip (c ∷ t) ≡ c ∷ t
    → rstrip (append s (c ∷ t)) ≡ append s (c ∷ t)
unfolding rstrip cons_trimmed
rstrip-append [] c t h = rw nil-append h
rstrip-append (d ∷ []) c t h = rw cons-append (rw nil-append (rw h refl))
rstrip-append (d ∷ (e ∷ s)) c t h =
    let rest = rstrip-append (e ∷ s) c t h in
    rw cons-append (rw (cons-append e s (c ∷ t)) (rw (rw (cons-append e s (c ∷ t)) at rest) refl))

shortened-strip :
    (n : ℕ) (r : String) (c : Char) (t : String)
    → (r == "") ≡ false
    → ((d : Char) (u : String) → r ≡ d ∷ u → is_space d ≡ false)
    → rstrip (c ∷ t) ≡ c ∷ t
    → strip (append (rstrip (prefix (suc n) r)) (c ∷ t))
      ≡ append (rstrip (prefix (suc n) r)) (c ∷ t)
unfolding strip lstrip prefix
shortened-strip n [] c t h k ending = absurd (ground arith)
shortened-strip n (d ∷ u) c t h k ending =
    let plain = k d u refl in
    rw (rstrip-cons d (prefix n u) plain)
      (rw (rstrip-append (d ∷ rstrip (prefix n u)) c t ending) (rw cons-append (rw plain refl)))

-- A stripped text that was shortened, stripped at its end, and got an ending is stripped.
pub strip-shortened :
    (n : ℕ) (s : String) (c : Char) (t : String)
    → (strip s == "") ≡ false
    → rstrip (c ∷ t) ≡ c ∷ t
    → strip (append (rstrip (prefix (suc n) (strip s))) (c ∷ t))
      ≡ append (rstrip (prefix (suc n) (strip s))) (c ∷ t)
unfolding strip
strip-shortened n s c t present ending =
    shortened-strip n (strip s) c t present (λ d u e. lstrip-head (rstrip s) d u e) ending
