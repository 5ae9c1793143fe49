-- ===== src/Observation/Targets.antt =====
-- The targets of a command are distinct and few.
use autonomous_llm_bot.Prelude.{
  ◌≤◌, String, Option, none, some, List, [], ◌∷◌, arith, ltb, ◌==◌, nat_eq, string_eq, length,
  contains, if_induction, Distinct, snoc-Distinct,
}
use autonomous_llm_bot.Observation.{
  Library, max_targets_per_command, normalize_url, add_target, collect_targets,
  extract_observation_targets,
}

add_target-Distinct :
    (seen : List String) (t : Option String) → Distinct seen → Distinct (add_target seen t)
unfolding add_target
add_target-Distinct seen none d = d
add_target-Distinct seen (some norm) d =
    if_induction Distinct (contains seen norm) (λ _. d) (λ absent. snoc-Distinct seen norm absent d)

-- Distinct, and at most as many as a command may have.
abbrev pub IsFew : List String → Type 0
IsFew ts = Distinct ts × (length ts ≤ max_targets_per_command)

collect_targets-IsFew :
    (lib : Library) (raws seen : List String) → IsFew seen → IsFew (collect_targets lib raws seen)
unfolding collect_targets
collect_targets-IsFew lib [] seen v = v
collect_targets-IsFew lib (raw ∷ raws) seen v =
    if_induction IsFew (ltb max_targets_per_command (length seen')) (λ _. (tt, omega arith))
      λ few.
        collect_targets-IsFew lib raws seen'
          (add_target-Distinct seen (normalize_url lib raw) v.0, ground arith)
  where
    seen' : List String
    seen' = add_target seen (normalize_url lib raw)

-- The targets of a command are pairwise distinct, and there are at most 32 of them.
pub extract-IsFew :
    (lib : Library) (command : Option String) → IsFew (extract_observation_targets lib command)
unfolding extract_observation_targets
extract-IsFew lib none = (tt, omega arith)
extract-IsFew lib (some command) =
    if_induction IsFew (command == "") (λ _. (tt, omega arith))
      λ _. collect_targets-IsFew lib (lib.find_urls command) [] (tt, omega arith)
