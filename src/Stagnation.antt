-- ===== src/Stagnation.antt =====
-- stagnation.py: how much of a window of steps only observed again what had been observed before.
-- `round(reobserved / total * 100)` is floating point arithmetic, a parameter. The test
-- `step <= end_step - window_steps` is written without the difference, which may be negative.
use autonomous_llm_bot.Prelude.{
  ℕ, ◌+◌, ◌-◌, max, String, Bool, true, false, not, ◌&&◌, ◌||◌, Option, none, some, List, [], ◌∷◌,
  ◌++◌, map, ltb, leb, if◌then◌else◌, ◌==◌, nat_eq, string_eq, length, take, keep,
}
use autonomous_llm_bot.Text
use autonomous_llm_bot.Dict.{Dict}
use autonomous_llm_bot.Observation.{
  Library, extract_observation_targets, classify_observation_outcome, is_dead_family_outcome,
  TrajectoryRecord,
}
use Prim.Native.String.{compare as compare_text}
use Prim.Native.Nat.{Ordering}
pub mod Window
pub mod Ranking
pub mod Index
mod Tests

abbrev pub index_dead_repeat_allowance : ℕ
index_dead_repeat_allowance = 3

abbrev pub index_top_repeats : ℕ
index_top_repeats = 5

-- A target and the outcome that it had.
abbrev pub Pair : Type 0
Pair = String × String

unfoldable pub pair_beq : Pair → Pair → Bool
pair_beq (t, o) (t', o') = t == t' && o == o'

unfoldable pub pair_in : List Pair → Pair → Bool
unfolding pair_beq
pair_in [] p = false
pair_in (q ∷ qs) p = pair_beq q p || pair_in qs p

abbrev pub pairs_with : ℕ → List String → Option String → List (Pair × ℕ)
pairs_with step targets none = []
pairs_with step targets (some outcome) = map (λ t. ((t, outcome), step)) targets

abbrev pub pairs_at : List String → Option String → Option ℕ → List (Pair × ℕ)
pairs_at targets outcome none = []
pairs_at targets outcome (some step) = pairs_with step targets outcome

-- `_observation_pairs`
unfoldable pub observation_pairs : Library → List TrajectoryRecord → List (Pair × ℕ)
observation_pairs lib [] = []
observation_pairs lib (r ∷ rs) =
    let rest = observation_pairs lib rs in
    if not (r.tool == "bash_exec") || not r.executed
    then rest
    else pairs_at (extract_observation_targets lib r.command)
        (classify_observation_outcome lib r.result r.failed) r.step
      ++ rest

-- The pairs in front of the window, and those inside it, in order.
unfoldable pub split_window : ℕ → ℕ → List (Pair × ℕ) → List Pair × List Pair
split_window window_steps end_step [] = ([], [])
split_window window_steps end_step ((p, step) ∷ ps) =
    let (prior, window) = split_window window_steps end_step ps in
    if leb (step + window_steps) end_step
    then (p ∷ prior, window)
    else if leb step end_step
    then (prior, p ∷ window)
    else (prior, window)

abbrev pub is_novel : List Pair → Pair → Bool
is_novel prior p = not (pair_in prior p)

abbrev pub is_reobserved : List Pair → Pair → Bool
is_reobserved prior p = pair_in prior p

-- counts[pair] = counts.get(pair, 0) + 1
unfoldable pub count_pair : Pair → List (Pair × ℕ) → List (Pair × ℕ)
unfolding pair_beq
count_pair p [] = (p, 1) ∷ []
count_pair p ((q, n) ∷ counts) =
    let rest = count_pair p counts in if pair_beq q p then (q, n + 1) ∷ counts else (q, n) ∷ rest

unfoldable pub count_pairs : List Pair → List (Pair × ℕ) → List (Pair × ℕ)
unfolding count_pair
count_pairs [] counts = counts
count_pairs (p ∷ ps) counts = count_pairs ps (count_pair p counts)

unfoldable pub dead_repeats : List (Pair × ℕ) → ℕ
dead_repeats [] = 0
dead_repeats ((p, n) ∷ counts) =
    (if is_dead_family_outcome p.1 && ltb index_dead_repeat_allowance n
      then n - index_dead_repeat_allowance
      else 0)
    + dead_repeats counts

-- Sorted by falling count, then by target; equal keys stay in order.
abbrev pub text_less : String → String → Bool
text_less a b = elim (compare_text a b) [ Ordering.lt ↦ true | _ ↦ false ]

abbrev pub comes_first : Pair × ℕ → Pair × ℕ → Bool
comes_first (p, n) (q, m) = ltb m n || (n == m && not (text_less q.0 p.0))

unfoldable pub place : Pair × ℕ → List (Pair × ℕ) → List (Pair × ℕ)
place x [] = x ∷ []
place x (y ∷ ys) = let rest = place x ys in if comes_first x y then x ∷ (y ∷ ys) else y ∷ rest

unfoldable pub ranked : List (Pair × ℕ) → List (Pair × ℕ)
unfolding place
ranked [] = []
ranked (x ∷ xs) = place x (ranked xs)

pub record StagnationIndex : Type 0 where
  pub window_steps : ℕ
  pub end_step : ℕ
  pub observations : ℕ
  pub novel_pairs : ℕ
  pub dead_repeat_over : ℕ
  pub reobserve_pct : ℕ
  pub top_repeats : List (Pair × ℕ)

-- How many pairs pass a test.
abbrev pub count_if : (Pair → Bool) → List Pair → ℕ
count_if test ps = length (keep test ps)

unfoldable pub compute_stagnation_index :
    Library → (ℕ → ℕ → ℕ) → List TrajectoryRecord → ℕ → ℕ → StagnationIndex
unfolding split_window count_pairs dead_repeats ranked
compute_stagnation_index lib percent records end_step window_steps =
    let w = max 1 window_steps in
    let (prior, window) = split_window w end_step (observation_pairs lib records) in
    let counts = count_pairs window [] in
    record {
      window_steps = w;
      end_step = end_step;
      observations = length window;
      novel_pairs = count_if (is_novel prior) window;
      dead_repeat_over = dead_repeats counts;
      reobserve_pct =
          if length window == 0
          then 0
          else percent (count_if (is_reobserved prior) window) (length window);
      top_repeats = take index_top_repeats (ranked counts);
    }
