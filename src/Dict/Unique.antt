-- ===== src/Dict/Unique.antt =====
-- Dicts in which no key stands twice, built up by writes at the end.
use autonomous_llm_bot.Prelude.{
  String, ◌≡◌, refl, none, some, [], ◌∷◌, ◌++◌, arith, if◌then◌else◌, ◌==◌, string_eq, eq_iff,
  if_induction,
}
use autonomous_llm_bot.Dict.{Dict, lookup, insert, lookup-insert}

-- No key stands twice.
abbrev pub IsUnique : {A : Type 0} → Dict String A → Type 0
IsUnique [] = Unit
IsUnique ((k, a) ∷ d) = (lookup k d ≡ none) × IsUnique d

pub insert-IsUnique :
    {A : Type 0} (k : String) (a : A) (d : Dict String A) → IsUnique d → IsUnique (insert k a d)
unfolding insert lookup
insert-IsUnique k a [] u = (refl, tt)
insert-IsUnique k a ((j, b) ∷ d) u =
    if_induction IsUnique (j == k) (λ _. u)
      (λ other.
        (ground (arith, lookup-insert k j a d, eq_iff j k, eq_iff k j), insert-IsUnique k a d u.1))

-- A key that stands nowhere in the second dict.
abbrev pub Apart : {A : Type 0} → Dict String A → Dict String A → Type 0
Apart d [] = Unit
Apart d ((k, a) ∷ e) = (lookup k d ≡ none) × Apart d e

pub insert_end :
    {A : Type 0} (k : String) (a : A) (d : Dict String A)
    → lookup k d ≡ none
    → insert k a d ≡ d ++ ((k, a) ∷ [])
unfolding lookup insert
insert_end k a [] h = refl
insert_end k a ((j, b) ∷ d) h = ground (arith, insert_end k a d)

-- Moving the first entry of the second dict to the end of the first.
lookup-snoc :
    {A : Type 0} (j k : String) (a : A) (d : Dict String A)
    → lookup j (d ++ ((k, a) ∷ []))
      ≡ elim (lookup j d) [ some b ↦ some b | none ↦ if k == j then some a else none ]
unfolding lookup
lookup-snoc j k a [] = refl
lookup-snoc j k a ((i, b) ∷ d) = ground (arith, lookup-snoc j k a d)

pub Apart-snoc :
    {A : Type 0} (k : String) (a : A) (d e : Dict String A)
    → lookup k e ≡ none
    → Apart d e
    → Apart (d ++ ((k, a) ∷ [])) e
unfolding lookup
Apart-snoc k a d [] h p = tt
Apart-snoc k a d ((j, b) ∷ e) h p = (
  ground (arith, lookup-snoc j k a d, eq_iff k j, eq_iff j k),
  Apart-snoc k a d e (ground arith) p.1,
)

pub Apart-nil : {A : Type 0} (d : Dict String A) → Apart [] d
unfolding lookup
Apart-nil [] = tt
Apart-nil ((k, a) ∷ d) = (refl, Apart-nil d)
