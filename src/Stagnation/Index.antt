-- ===== src/Stagnation/Index.antt =====
-- The index says of the window what was new, what had been seen before, what was repeated in vain, and
-- what was observed most.
use mathlib.Core.List.{Perm}
use autonomous_llm_bot.Prelude.{
  ℕ, ◌+◌, ◌-◌, ◌≤◌, max, String, ◌≡◌, refl, sym, subst, ◌≢◌, inl, inr, true, false, not, ◌||◌,
  Option, none, some, List, [], ◌∷◌, ◌++◌, map, arith, if◌then◌else◌, ◌==◌, nat_eq, string_eq,
  Bool-cases, length, take, keep, contains, eq_iff,
}
use autonomous_llm_bot.Prelude.Selected.{Selected, keep-Selected}
use autonomous_llm_bot.Observation.{
  Library, extract_observation_targets, classify_observation_outcome, dead_family_outcomes,
  is_dead_family_outcome, TrajectoryRecord,
}
use autonomous_llm_bot.Stagnation.{
  Pair, observation_pairs, pairs_at, split_window, is_novel, is_reobserved, count_pairs,
  dead_repeats, ranked, StagnationIndex, compute_stagnation_index,
}
use autonomous_llm_bot.Stagnation.Window.{
  IsSplit, IsTally, SeenIn, split_window-IsSplit, count_pairs-IsTally, pair_in-SeenIn,
  SeenIn-pair_in,
}
use autonomous_llm_bot.Stagnation.Ranking.{Ranked, ranked-Ranked, ranked-Perm}

-- The observations of dead ends beyond the third of each pair.
unfoldable pub in_vain : List (Pair × ℕ) → ℕ
in_vain [] = 0
in_vain ((p, n) ∷ counts) =
    (if contains dead_family_outcomes p.1 then n - 3 else 0) + in_vain counts

dead_repeats-in_vain : (counts : List (Pair × ℕ)) → dead_repeats counts ≡ in_vain counts
unfolding dead_repeats in_vain is_dead_family_outcome
dead_repeats-in_vain [] = refl
dead_repeats-in_vain ((p, n) ∷ counts) = ground (arith, dead_repeats-in_vain counts)

-- What the index says of the observations in its window. `fresh` were not observed before the window,
-- `again` were; `top` starts with what was observed most.
pub record Describes (percent : ℕ → ℕ → ℕ) (observed : List (Pair × ℕ)) (index : StagnationIndex)
    : Type 0 where
  pub some_window : 1 ≤ index.window_steps
  pub before : List Pair
  pub inside : List Pair
  pub split : IsSplit index.window_steps index.end_step observed before inside
  pub all_counted : index.observations ≡ length inside
  pub fresh : List Pair
  pub fresh_selected : Selected (λ p. ¬ SeenIn before p) inside fresh
  pub fresh_counted : index.novel_pairs ≡ length fresh
  pub again : List Pair
  pub again_selected : Selected (SeenIn before) inside again
  pub again_counted :
      (inside ≡ [] → index.reobserve_pct ≡ 0)
      × (inside ≢ [] → index.reobserve_pct ≡ percent (length again) (length inside))
  pub counts : List (Pair × ℕ)
  pub tally : IsTally inside counts
  pub vain_counted : index.dead_repeat_over ≡ in_vain counts
  pub top : List (Pair × ℕ)
  pub top_same : Perm top counts
  pub top_ranked : Ranked top
  pub top_shown : index.top_repeats ≡ take 5 top

-- A shell command that was run, whose step and outcome are known.
pub record IsClassified (lib : Library) (r : TrajectoryRecord) (step : ℕ) (outcome : String)
    : Type 0 where
  pub tool : r.tool ≡ "bash_exec"
  pub executed : r.executed ≡ true
  pub at_step : r.step ≡ some step
  pub ended_in : classify_observation_outcome lib r.result r.failed ≡ some outcome

-- The observations of the records, one for each target of a classified command, in order.
pub data Observed (lib : Library) : List TrajectoryRecord → List (Pair × ℕ) → Type 0 where
  no_records : Observed lib [] []
  ignored :
      {r : TrajectoryRecord} {rs : List TrajectoryRecord} {ps : List (Pair × ℕ)}
      → ((step : ℕ) (outcome : String) → ¬ IsClassified lib r step outcome)
      → Observed lib rs ps
      → Observed lib (r ∷ rs) ps
  classified :
      {r : TrajectoryRecord} {rs : List TrajectoryRecord} {ps qs : List (Pair × ℕ)} {step : ℕ}
      {outcome : String}
      → IsClassified lib r step outcome
      → Observed lib rs ps
      → qs ≡ map (λ t. ((t, outcome), step)) (extract_observation_targets lib r.command) ++ ps
      → Observed lib (r ∷ rs) qs

no_observations : (lib : Library) → Observed lib [] (observation_pairs lib [])
unfolding observation_pairs
no_observations lib = no_records

skipped :
    (lib : Library) (r : TrajectoryRecord) (rs : List TrajectoryRecord)
    → (not (r.tool == "bash_exec") || not r.executed) ≡ true
    → observation_pairs lib (r ∷ rs) ≡ observation_pairs lib rs
unfolding observation_pairs
skipped lib r rs h = rw h refl

run_command :
    (lib : Library) (r : TrajectoryRecord) (rs : List TrajectoryRecord)
    → (not (r.tool == "bash_exec") || not r.executed) ≡ false
    → observation_pairs lib (r ∷ rs)
      ≡ pairs_at
          (extract_observation_targets lib r.command)
          (classify_observation_outcome lib r.result r.failed)
          r.step
        ++ observation_pairs lib rs
unfolding observation_pairs
run_command lib r rs h = rw h refl

command-Observed :
    (lib : Library) (r : TrajectoryRecord) (rs : List TrajectoryRecord) (ps : List (Pair × ℕ))
    (o : Option String) (s : Option ℕ)
    → r.tool ≡ "bash_exec"
    → r.executed ≡ true
    → classify_observation_outcome lib r.result r.failed ≡ o
    → r.step ≡ s
    → Observed lib rs ps
    → Observed lib (r ∷ rs) (pairs_at (extract_observation_targets lib r.command) o s ++ ps)
command-Observed lib r rs ps o none t x eo es rest =
    ignored (λ n c k. absurd (cc (es, k.at_step))) rest
command-Observed lib r rs ps none (some n) t x eo es rest =
    ignored (λ m c k. absurd (cc (eo, k.ended_in))) rest
command-Observed lib r rs ps (some outcome) (some n) t x eo es rest =
    classified (record { tool = t; executed = x; at_step = es; ended_in = eo }) rest refl

observation_pairs-Observed :
    (lib : Library) (records : List TrajectoryRecord)
    → Observed lib records (observation_pairs lib records)
observation_pairs-Observed lib [] = no_observations lib
observation_pairs-Observed lib (r ∷ rs) =
    let rest = observation_pairs-Observed lib rs in
    elim (Bool-cases (not (r.tool == "bash_exec") || not r.executed)) [
      | inl other ↦ subst (Observed lib (r ∷ rs)) (sym (skipped lib r rs other)) (
          ignored
            (λ n o c. absurd (ground (arith, c.tool, c.executed, eq_iff r.tool "bash_exec", other)))
            rest)
      | inr run ↦ subst (Observed lib (r ∷ rs)) (sym (run_command lib r rs run)) (
          command-Observed lib r rs (observation_pairs lib rs) _ _
            (ground (arith, eq_iff r.tool "bash_exec", run)) (ground (arith, run)) refl refl rest)
    ]

percentage_lem :
    (percent : ℕ → ℕ → ℕ) (n : ℕ) (inside : List Pair)
    → (inside ≡ [] → (if length inside == 0 then 0 else percent n (length inside)) ≡ 0)
      × (inside ≢ []
          → (if length inside == 0 then 0 else percent n (length inside))
            ≡ percent n (length inside))
percentage_lem percent n [] = ((λ _. refl), (λ h. absurd (h refl)))
percentage_lem percent n (p ∷ ps) = ((λ e. absurd (cc)), (λ _. ground arith))

-- Of the observations of classified shell commands, those in the last `window_steps` steps up to
-- `end_step` (in one step at least) are counted: all of them, those whose target and outcome were not
-- observed before the window, those that were, as a percentage, and for each pair of a target and an
-- outcome that is a dead end those beyond the third. The pairs that were observed most are listed, five
-- at most, by falling count and then by target.
pub compute-Describes :
    (lib : Library) (percent : ℕ → ℕ → ℕ) (records : List TrajectoryRecord)
    (end_step window_steps : ℕ)
    → let index = compute_stagnation_index lib percent records end_step window_steps in
      (index.window_steps ≡ max 1 window_steps)
      × (index.end_step ≡ end_step)
      × (observed : List (Pair × ℕ)) × Observed lib records observed
      × Describes percent observed index
unfolding compute_stagnation_index
compute-Describes lib percent records end_step window_steps =
    let observed = observation_pairs lib records in
    let parts = split_window (max 1 window_steps) end_step observed in
    let counts = count_pairs parts.1 [] in
    (
      refl,
      refl,
      observed,
      observation_pairs-Observed lib records,
      record {
        some_window = omega arith;
        before = parts.0;
        inside = parts.1;
        split = split_window-IsSplit (max 1 window_steps) end_step observed;
        all_counted = refl;
        fresh = keep (is_novel parts.0) parts.1;
        fresh_selected =
            keep-Selected (λ p. ¬ SeenIn parts.0 p) (is_novel parts.0)
              (λ p h s. absurd (ground (arith, SeenIn-pair_in parts.0 p s)))
              (λ p h n. n (pair_in-SeenIn parts.0 p (ground arith))) parts.1;
        fresh_counted = refl;
        again = keep (is_reobserved parts.0) parts.1;
        again_selected =
            keep-Selected (SeenIn parts.0) (is_reobserved parts.0)
              (λ p h. pair_in-SeenIn parts.0 p h)
              (λ p h s. absurd (cc (SeenIn-pair_in parts.0 p s, h))) parts.1;
        again_counted = percentage_lem percent _ parts.1;
        counts = counts;
        tally = count_pairs-IsTally parts.1;
        vain_counted = dead_repeats-in_vain counts;
        top = ranked counts;
        top_same = ranked-Perm counts;
        top_ranked = ranked-Ranked counts;
        top_shown = refl;
      },
    )
