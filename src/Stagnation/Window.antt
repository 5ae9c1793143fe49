-- ===== src/Stagnation/Window.antt =====
-- What the numbers of an index count. Pairs are compared with `pair_beq`, which decides their equality.
use autonomous_llm_bot.Prelude.{
  ℕ, ◌+◌, ◌≤◌, ◌<◌, ◌≡◌, refl, ap, ◌↔◌, ◌⊎◌, inl, inr, true, false, ◌||◌, List, [], ◌∷◌, map, arith,
  leb, if◌then◌else◌, nat_eq, string_eq, Bool-cases, All, eq_iff, if_induction,
}
use autonomous_llm_bot.Prelude.Selected.{Selected, nothing, chosen, passed}
use autonomous_llm_bot.Stagnation.{Pair, pair_beq, pair_in, split_window, count_pair, count_pairs}

pair_beq_iff : (p q : Pair) → (pair_beq p q ≡ true) ↔ (p ≡ q)
unfolding pair_beq
pair_beq_iff (t, o) (t', o') = (
  (λ h. ground (arith, eq_iff t t', eq_iff o o')),
  (λ h.
      ground (arith, eq_iff t t', eq_iff o o', ap (λ (p : Pair). p.0) h, ap (λ (p : Pair). p.1) h)),
)

-- How often a pair was observed.
unfoldable pub occurrences : Pair → List Pair → ℕ
unfolding pair_beq
occurrences p [] = 0
occurrences p (q ∷ qs) = (if pair_beq q p then 1 else 0) + occurrences p qs

abbrev pub IsPrior : ℕ → ℕ → Pair × ℕ → Type 0
IsPrior window end_step (p, step) = step + window ≤ end_step

abbrev pub IsInWindow : ℕ → ℕ → Pair × ℕ → Type 0
IsInWindow window end_step (p, step) = (end_step < step + window) × (step ≤ end_step)

abbrev pub pairs_of : List (Pair × ℕ) → List Pair
pairs_of = map (λ x. x.0)

-- The observations in front of the window, and those in it.
pub record IsSplit (window end_step : ℕ) (observed : List (Pair × ℕ)) (before inside : List Pair)
    : Type 0 where
  pub prior_from :
      (xs : List (Pair × ℕ)) × Selected (IsPrior window end_step) observed xs
      × (before ≡ pairs_of xs)
  pub window_from :
      (xs : List (Pair × ℕ)) × Selected (IsInWindow window end_step) observed xs
      × (inside ≡ pairs_of xs)

pub split_window-IsSplit :
    (w end_step : ℕ) (observed : List (Pair × ℕ))
    → IsSplit w end_step observed
        (split_window w end_step observed).0
        (split_window w end_step observed).1
unfolding split_window
split_window-IsSplit w end_step [] = record {
  prior_from = ([], nothing, refl);
  window_from = ([], nothing, refl);
}
split_window-IsSplit w end_step ((p, step) ∷ ps) =
    let rest = split_window-IsSplit w end_step ps in
    let (xs, sx, ex) = rest.prior_from in
    let (ys, sy, ey) = rest.window_from in
    elim (Bool-cases (leb (step + w) end_step)) [
      | inl early ↦ rw early (record {
        prior_from = ((p, step) ∷ xs, chosen (ground arith) sx, ap (λ r. p ∷ r) ex);
        window_from = (ys, passed (λ h. absurd (ground (arith, h.0))) sy, ey);
      })
      | inr late ↦ elim (Bool-cases (leb step end_step)) [
        | inl inside ↦
            rw (late, inside)
              (record {
                prior_from = (xs, passed (λ h. absurd (ground arith)) sx, ex);
                window_from =
                    ((p, step) ∷ ys, chosen (ground arith, ground arith) sy, ap (λ r. p ∷ r) ey);
              })
        | inr after ↦
            rw (late, after)
              (record {
                prior_from = (xs, passed (λ h. absurd (ground arith)) sx, ex);
                window_from = (ys, passed (λ h. absurd (ground (arith, h.1))) sy, ey);
              })
      ]
    ]

-- The count under a pair, or zero.
unfoldable pub tallied : Pair → List (Pair × ℕ) → ℕ
unfolding pair_beq
tallied p [] = 0
tallied p ((q, n) ∷ counts) = let rest = tallied p counts in if pair_beq q p then n else rest

abbrev pub EachOnce : List (Pair × ℕ) → Type 0
EachOnce [] = Unit
EachOnce ((p, n) ∷ counts) = (pair_in (pairs_of counts) p ≡ false) × EachOnce counts

-- The pairs of these observations, each once, with the number of its observations.
pub record IsTally (window : List Pair) (counts : List (Pair × ℕ)) : Type 0 where
  pub each_once : EachOnce counts
  pub positive : All (λ (x : Pair × ℕ). 1 ≤ x.1) counts
  pub exact : (p : Pair) → tallied p counts ≡ occurrences p window

tallied-count_pair :
    (p q : Pair) (counts : List (Pair × ℕ))
    → tallied q (count_pair p counts) ≡ (if pair_beq p q then 1 else 0) + tallied q counts
unfolding tallied count_pair
tallied-count_pair p q [] = omega arith
tallied-count_pair p q ((r, n) ∷ counts) =
    ground
      (arith, tallied-count_pair p q counts, pair_beq_iff r p, pair_beq_iff r q, pair_beq_iff p q)

pair_in-count_pair :
    (p q : Pair) (counts : List (Pair × ℕ))
    → pair_in (pairs_of (count_pair p counts)) q ≡ (pair_in (pairs_of counts) q || pair_beq p q)
unfolding pair_in count_pair
pair_in-count_pair p q [] = ground arith
pair_in-count_pair p q ((r, n) ∷ counts) =
    ground
      (arith, pair_in-count_pair p q counts, pair_beq_iff r p, pair_beq_iff r q, pair_beq_iff p q)

EachOnce-count_pair :
    (p : Pair) (counts : List (Pair × ℕ)) → EachOnce counts → EachOnce (count_pair p counts)
unfolding count_pair pair_in
EachOnce-count_pair p [] u = (refl, tt)
EachOnce-count_pair p ((r, n) ∷ counts) u =
    if_induction EachOnce (pair_beq r p) (λ _. u)
      (λ other. (
        ground (arith, pair_in-count_pair p r counts, pair_beq_iff r p, pair_beq_iff p r),
        EachOnce-count_pair p counts u.1,
      ))

positive-count_pair :
    (p : Pair) (counts : List (Pair × ℕ))
    → All (λ (x : Pair × ℕ). 1 ≤ x.1) counts
    → All (λ (x : Pair × ℕ). 1 ≤ x.1) (count_pair p counts)
unfolding count_pair
positive-count_pair p [] u = (omega arith, tt)
positive-count_pair p ((r, n) ∷ counts) u =
    if_induction (All (λ (x : Pair × ℕ). 1 ≤ x.1)) (pair_beq r p) (λ _. (omega arith, u.1))
      (λ _. (u.0, positive-count_pair p counts u.1))

EachOnce-count_pairs :
    (ps : List Pair) (counts : List (Pair × ℕ)) → EachOnce counts → EachOnce (count_pairs ps counts)
unfolding count_pairs
EachOnce-count_pairs [] counts u = u
EachOnce-count_pairs (p ∷ ps) counts u =
    EachOnce-count_pairs ps (count_pair p counts) (EachOnce-count_pair p counts u)

positive-count_pairs :
    (ps : List Pair) (counts : List (Pair × ℕ))
    → All (λ (x : Pair × ℕ). 1 ≤ x.1) counts
    → All (λ (x : Pair × ℕ). 1 ≤ x.1) (count_pairs ps counts)
unfolding count_pairs
positive-count_pairs [] counts u = u
positive-count_pairs (p ∷ ps) counts u =
    positive-count_pairs ps (count_pair p counts) (positive-count_pair p counts u)

tallied-count_pairs :
    (q : Pair) (ps : List Pair) (counts : List (Pair × ℕ))
    → tallied q (count_pairs ps counts) ≡ occurrences q ps + tallied q counts
unfolding count_pairs occurrences
tallied-count_pairs q [] counts = omega arith
tallied-count_pairs q (p ∷ ps) counts =
    omega (arith, tallied-count_pairs q ps (count_pair p counts), tallied-count_pair p q counts)

pub count_pairs-IsTally : (window : List Pair) → IsTally window (count_pairs window [])
unfolding tallied
count_pairs-IsTally window = record {
  each_once = EachOnce-count_pairs window [] tt;
  positive = positive-count_pairs window [] tt;
  exact = λ p. omega (arith, tallied-count_pairs p window []);
}

abbrev pub SeenIn : List Pair → Pair → Type 0
SeenIn [] p = ⊥
SeenIn (q ∷ qs) p = (q ≡ p) ⊎ SeenIn qs p

pub pair_in-SeenIn : (qs : List Pair) (p : Pair) → pair_in qs p ≡ true → SeenIn qs p
unfolding pair_in
pair_in-SeenIn [] p h = absurd (cc)
pair_in-SeenIn (q ∷ qs) p h = elim (Bool-cases (pair_beq q p)) [
  | inl e ↦ inl ((pair_beq_iff q p).0 e)
  | inr n ↦ inr (pair_in-SeenIn qs p (ground arith))
]

pub SeenIn-pair_in : (qs : List Pair) (p : Pair) → SeenIn qs p → pair_in qs p ≡ true
unfolding pair_in
SeenIn-pair_in [] p h = absurd h
SeenIn-pair_in (q ∷ qs) p (inl e) = rw ((pair_beq_iff q p).1 e) refl
SeenIn-pair_in (q ∷ qs) p (inr s) = ground (arith, SeenIn-pair_in qs p s)
