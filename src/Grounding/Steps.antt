-- ===== src/Grounding/Steps.antt =====
-- The steps that were taken: the sorted ones are each once in the list, and the last one ends the window.
use autonomous_llm_bot.Prelude.{
  ℕ, ◌≤◌, ◌<◌, max, ◌≡◌, refl, sym, ap, ◌∙◌, subst, ◌↔◌, ◌⊎◌, inl, inr, true, ◌||◌, Option, none,
  some, List, [], ◌∷◌, arith, ltb, ◌==◌, ==_iff, nat_eq, string_eq, Bool-cases, Option-cases, All,
  contains, if_induction, nat_lt_cases,
}
use autonomous_llm_bot.Grounding.{
  Measurement, steps_of, latest, anchor_of, insert_step, sorted_steps,
}

-- One of the records was taken at this step.
abbrev pub TakenAt : ℕ → List Measurement → Type 0
TakenAt n [] = ⊥
TakenAt n (r ∷ rs) = (r.step ≡ some n) ⊎ TakenAt n rs

abbrev pub Ascending : List ℕ → Type 0
Ascending [] = Unit
Ascending (n ∷ ns) = All (λ m. n < m) ns × Ascending ns

-- The steps of these records, each once.
pub record AreStepsOf (rs : List Measurement) (ns : List ℕ) : Type 0 where
  pub ascending : Ascending ns
  pub listed : (n : ℕ) → (contains ns n ≡ true) ↔ TakenAt n rs

All-above : (n m : ℕ) (ms : List ℕ) → n < m → All (λ k. m < k) ms → All (λ k. n < k) ms
All-above n m [] h a = tt
All-above n m (k ∷ ms) h a = (omega (arith, a.0), All-above n m ms h a.1)

insert_step-All :
    (k n : ℕ) (ms : List ℕ) → k < n → All (λ i. k < i) ms → All (λ i. k < i) (insert_step n ms)
unfolding insert_step
insert_step-All k n [] h a = (h, tt)
insert_step-All k n (m ∷ ms) h a =
    if_induction (λ (xs : List ℕ). All (λ i. k < i) xs) (n == m) (λ _. a)
      (λ _.
        if_induction (λ (xs : List ℕ). All (λ i. k < i) xs) (ltb n m) (λ _. (h, a))
          (λ _. (a.0, insert_step-All k n ms h a.1)))

insert_step-Ascending : (n : ℕ) (ms : List ℕ) → Ascending ms → Ascending (insert_step n ms)
unfolding insert_step
insert_step-Ascending n [] a = (tt, tt)
insert_step-Ascending n (m ∷ ms) a =
    if_induction Ascending (n == m) (λ _. a)
      (λ other.
        if_induction Ascending (ltb n m)
          (λ less. let below : n < m = ground arith in ((below, All-above n m ms below a.0), a))
          (λ more. (
            insert_step-All m n ms (ground (arith, ==_iff n m)) a.0,
            insert_step-Ascending n ms a.1,
          )))

contains-insert_step :
    (n k : ℕ) (ms : List ℕ) → contains (insert_step n ms) k ≡ ((n == k) || contains ms k)
unfolding insert_step contains
contains-insert_step n k [] = refl
contains-insert_step n k (m ∷ ms) = ground (arith, contains-insert_step n k ms, ==_iff n m)

unknown-AreStepsOf :
    (r : Measurement) (rs : List Measurement) (ns : List ℕ)
    → r.step ≡ none
    → AreStepsOf rs ns
    → AreStepsOf (r ∷ rs) ns
unknown-AreStepsOf r rs ns e v = record {
  ascending = v.ascending;
  listed = λ n. (
    (λ h. inr ((v.listed n).0 h)),
    (λ h. elim h [ inl f ↦ absurd (cc (e, f)) | inr t ↦ (v.listed n).1 t ]),
  );
}

known-AreStepsOf :
    (r : Measurement) (rs : List Measurement) (ns : List ℕ) (m : ℕ)
    → r.step ≡ some m
    → AreStepsOf rs ns
    → AreStepsOf (r ∷ rs) (insert_step m ns)
known-AreStepsOf r rs ns m e v = record {
  ascending = insert_step-Ascending m ns v.ascending;
  listed = λ n. (
    (λ h. elim (Bool-cases (m == n)) [
      | inl same ↦ inl (e ∙ ap some ((==_iff m n).0 same))
      | inr other ↦ inr ((v.listed n).0 (ground (arith, contains-insert_step m n ns)))
    ]),
    (λ h. elim h [
      | inl f ↦ ground (arith, contains-insert_step m n ns, ==_iff m n)
      | inr t ↦ ground (arith, contains-insert_step m n ns, (v.listed n).1 t)
    ]),
  );
}

steps_of-unknown :
    (r : Measurement) (rs : List Measurement) → r.step ≡ none → steps_of (r ∷ rs) ≡ steps_of rs
unfolding steps_of
steps_of-unknown r rs e = rw e refl

steps_of-known :
    (r : Measurement) (rs : List Measurement) (m : ℕ)
    → r.step ≡ some m
    → steps_of (r ∷ rs) ≡ m ∷ steps_of rs
unfolding steps_of
steps_of-known r rs m e = rw e refl

steps_of-nil : steps_of [] ≡ []
unfolding steps_of
steps_of-nil = refl

no_steps-AreStepsOf : AreStepsOf [] []
unfolding contains
no_steps-AreStepsOf = record { ascending = tt; listed = λ n. ((λ h. absurd (cc)), (λ h. absurd h)) }

pub sorted-AreStepsOf : (rs : List Measurement) → AreStepsOf rs (sorted_steps (steps_of rs))
unfolding sorted_steps
sorted-AreStepsOf [] = rw steps_of-nil no_steps-AreStepsOf
sorted-AreStepsOf (r ∷ rs) = elim (Option-cases r.step) [
  | inl unknown ↦
      subst (λ ns. AreStepsOf (r ∷ rs) (sorted_steps ns)) (sym (steps_of-unknown r rs unknown))
        (unknown-AreStepsOf r rs _ unknown (sorted-AreStepsOf rs))
  | inr (m, known) ↦
      subst (λ ns. AreStepsOf (r ∷ rs) (sorted_steps ns)) (sym (steps_of-known r rs m known))
        (known-AreStepsOf r rs _ m known (sorted-AreStepsOf rs))
]

-- The step that the window ends with: the current one, or else the last one of the records.
pub record IsAnchor (current_step : Option ℕ) (records : List Measurement) (anchor : ℕ)
    : Type 0 where
  pub given : (n : ℕ) → current_step ≡ some n → anchor ≡ n
  pub last : current_step ≡ none → (n : ℕ) → TakenAt n records → n ≤ anchor
  pub taken : current_step ≡ none → (n : ℕ) → TakenAt n records → TakenAt anchor records

latest-le : (rs : List Measurement) (n : ℕ) → TakenAt n rs → n ≤ latest (steps_of rs)
unfolding latest
latest-le [] n t = absurd t
latest-le (r ∷ rs) n t = elim (Option-cases r.step) [
  | inl unknown ↦ elim t [
    | inl f ↦ absurd (cc (unknown, f))
    | inr s ↦ rw (steps_of-unknown r rs unknown) (latest-le rs n s)
  ]
  | inr (m, known) ↦ elim t [
    | inl f ↦
        let same : m ≡ n = cc (known, f) in rw (steps_of-known r rs m known) (omega (arith, same))
    | inr s ↦ rw (steps_of-known r rs m known) (omega (arith, latest-le rs n s))
  ]
]

later_of :
    (r : Measurement) (rs : List Measurement) (m : ℕ)
    → r.step ≡ some m
    → (latest (steps_of rs) ≡ 0) ⊎ TakenAt (latest (steps_of rs)) rs
    → TakenAt (max m (latest (steps_of rs))) (r ∷ rs)
later_of r rs m known rest = elim (nat_lt_cases m (latest (steps_of rs))) [
  | inl less ↦
      let top : max m (latest (steps_of rs)) ≡ latest (steps_of rs) = omega (arith, less) in
      elim rest [
        | inl z ↦ absurd (omega (arith, less, z))
        | inr t ↦ inr (subst (λ n. TakenAt n rs) (sym top) t)
      ]
  | inr more ↦
      let top : max m (latest (steps_of rs)) ≡ m = omega (arith, more) in
      inl (known ∙ ap some (sym top))
]

latest_or_zero :
    (rs : List Measurement) → (latest (steps_of rs) ≡ 0) ⊎ TakenAt (latest (steps_of rs)) rs
unfolding latest
latest_or_zero [] = inl (rw steps_of-nil refl)
latest_or_zero (r ∷ rs) = elim (Option-cases r.step) [
  | inl unknown ↦
      subst (λ ns. (latest ns ≡ 0) ⊎ TakenAt (latest ns) (r ∷ rs))
        (sym (steps_of-unknown r rs unknown))
        (elim (latest_or_zero rs) [ inl z ↦ inl z | inr t ↦ inr (inr t) ])
  | inr (m, known) ↦
      subst (λ ns. (latest ns ≡ 0) ⊎ TakenAt (latest ns) (r ∷ rs))
        (sym (steps_of-known r rs m known)) (inr (later_of r rs m known (latest_or_zero rs)))
]

latest-TakenAt : (rs : List Measurement) (n : ℕ) → TakenAt n rs → TakenAt (latest (steps_of rs)) rs
latest-TakenAt rs n t = elim (latest_or_zero rs) [
  | inl z ↦
      let same : n ≡ latest (steps_of rs) = omega (arith, z, latest-le rs n t) in
      subst (λ m. TakenAt m rs) same t
  | inr l ↦ l
]

pub anchor_of-IsAnchor :
    (current_step : Option ℕ) (records : List Measurement)
    → IsAnchor current_step records (anchor_of current_step (steps_of records))
anchor_of-IsAnchor none records = record {
  given = λ n e. absurd (cc);
  last = λ _. latest-le records;
  taken = λ _. latest-TakenAt records;
}
anchor_of-IsAnchor (some m) records = record {
  given = λ n e. ground (arith);
  last = λ e. absurd (cc);
  taken = λ e. absurd (cc);
}
