-- ===== src/Observation/Refusals.antt =====
-- Which calls the guard refuses.
use autonomous_llm_bot.Prelude.{
  ℕ, ◌+◌, ◌≤◌, String, ◌≡◌, refl, sym, ◌∙◌, ◌≢◌, ◌↔◌, true, false, not, ◌&&◌, Option, none, some,
  List, [], ◌∷◌, arith, leb, if◌then◌else◌, ◌==◌, nat_eq, string_eq, length, All, contains, eq_iff,
  is_nil, Distinct,
}
use autonomous_llm_bot.Dict.{lookup, length-insert_new}
use autonomous_llm_bot.Observation.{
  Library, Sighting, Seen, known_steps, Stale, is_repeated, entry, add_stale, collect_stale,
  extract_observation_targets, TrajectoryRecord, note_records, find_stale_targets,
  check_observation_repeat,
}
use autonomous_llm_bot.Observation.Targets.{extract-IsFew}
use autonomous_llm_bot.Observation.Repeats.{sightings_of, seen_at, add_stale-lookup, noted}

module _ (limit : ℕ) (seen : Seen) where
  -- How many of some targets the guard has seen often enough.
  tally : List String → ℕ
  tally [] = 0
  tally (t ∷ ts) = (if is_repeated limit (seen_at t seen) then 1 else 0) + tally ts

  abbrev Fresh : Stale → List String → Type 0
  Fresh stale ts = All (λ t. lookup t stale ≡ none) ts

  add_stale-Fresh :
      (u : String) (sightings : List Sighting) (stale : Stale) (ts : List String)
      → contains ts u ≡ false
      → Fresh stale ts
      → Fresh (add_stale limit u sightings stale) ts
  unfolding contains
  add_stale-Fresh u sightings stale [] absent fresh = tt
  add_stale-Fresh u sightings stale (t ∷ ts) absent fresh = (
    ground (arith, add_stale-lookup limit u sightings stale t, eq_iff t u, eq_iff u t, fresh.0),
    add_stale-Fresh u sightings stale ts (ground arith) fresh.1,
  )

  add_stale-length :
      (u : String) (sightings : List Sighting) (stale : Stale)
      → lookup u stale ≡ none
      → length (add_stale limit u sightings stale)
        ≡ length stale + (if is_repeated limit sightings then 1 else 0)
  unfolding add_stale
  add_stale-length u sightings stale fresh =
      ground (arith, length-insert_new u (entry sightings) stale fresh)

  collect_stale-length :
      (ts : List String) (stale : Stale)
      → Distinct ts
      → Fresh stale ts
      → length (collect_stale limit seen ts stale) ≡ length stale + tally ts
  unfolding collect_stale tally
  collect_stale-length [] stale d fresh = omega arith
  collect_stale-length (t ∷ ts) stale d fresh = omega (
    arith,
    collect_stale-length ts (add_stale limit t (seen_at t seen) stale) d.1
        (add_stale-Fresh t (seen_at t seen) stale ts d.0 fresh.1),
    add_stale-length t (seen_at t seen) stale fresh.0,
  )

  tally_bound : (ts : List String) → tally ts ≤ length ts
  unfolding tally
  tally_bound [] = omega arith
  tally_bound (t ∷ ts) = ground (arith, tally_bound ts)

  tally-All :
      (ts : List String)
      → (tally ts ≡ length ts) ↔ All (λ t. is_repeated limit (seen_at t seen) ≡ true) ts
  unfolding tally
  tally-All [] = (λ _. tt, λ _. refl)
  tally-All (t ∷ ts) = (
    λ e. (ground (arith, tally_bound ts), (tally-All ts).0 (ground (arith, tally_bound ts))),
    λ h. ground (arith, h.0, (tally-All ts).1 h.1),
  )

-- Observed at least `limit` times, and at a known step.
abbrev pub IsObserved : ℕ → List Sighting → Type 0
IsObserved limit sightings = (limit ≤ length sightings) × (known_steps sightings ≢ [])

is_repeated_iff :
    (limit : ℕ) (sightings : List Sighting)
    → (is_repeated limit sightings ≡ true) ↔ IsObserved limit sightings
is_repeated_iff limit sightings = by_steps (known_steps sightings)
  where
    by_steps :
        (steps : List ℕ)
        → ((leb limit (length sightings) && not (is_nil steps)) ≡ true)
          ↔ ((limit ≤ length sightings) × (steps ≢ []))
    by_steps [] = (λ e. ground arith, λ h. absurd (h.1 refl))
    by_steps (n ∷ ns) = (λ e. (ground arith, λ h. cc), λ h. ground (arith, h.0))

IsObserved-iff :
    (lib : Library) (records : List TrajectoryRecord) (limit : ℕ) (ts : List String)
    → All (λ t. is_repeated limit (seen_at t (note_records lib records [])) ≡ true) ts
      ↔ All (λ t. IsObserved limit (sightings_of lib t records)) ts
IsObserved-iff lib records limit [] = (λ _. tt, λ _. tt)
IsObserved-iff lib records limit (t ∷ ts) = (
  λ h. (
    (is_repeated_iff limit (sightings_of lib t records)).0 (rw (← noted lib records t) h.0),
    (IsObserved-iff lib records limit ts).0 h.1,
  ),
  λ h. (
    rw (noted lib records t) ((is_repeated_iff limit (sightings_of lib t records)).1 h.0),
    (IsObserved-iff lib records limit ts).1 h.1,
  ),
)

stale_length :
    (lib : Library) (records : List TrajectoryRecord) (command : Option String) (limit : ℕ)
    → length (find_stale_targets lib records (extract_observation_targets lib command) limit)
      ≡ tally limit (note_records lib records []) (extract_observation_targets lib command)
unfolding find_stale_targets lookup
stale_length lib records command limit = omega (
  arith,
  collect_stale-length limit (note_records lib records []) (extract_observation_targets lib command)
      [] (extract-IsFew lib command).0 (nothing (extract_observation_targets lib command)),
)
  where
    nothing : (ts : List String) → Fresh limit (note_records lib records []) [] ts
    nothing [] = tt
    nothing (t ∷ ts) = (refl, nothing ts)

refused_iff :
    (ts : List String) (stale : Stale)
    → ((if not (is_nil ts) && length stale == length ts then some stale else none) ≢ none)
      ↔ ((ts ≢ []) × (length stale ≡ length ts))
refused_iff [] stale = (λ h. absurd (h refl), λ h. absurd (h.0 refl))
refused_iff (t ∷ ts) stale = (λ h. (λ e. cc, ground arith), λ h e. ground (arith, h.1))

-- With the records at hand, the guard refuses a command exactly when it names a target, and every
-- target that it names was observed at least `limit` times, and at a known step.
pub check-refuses_iff :
    (lib : Library) (records : List TrajectoryRecord) (command : Option String) (limit : ℕ)
    → let targets = extract_observation_targets lib command in
      (check_observation_repeat lib (some records) command limit ≢ none)
      ↔ ((targets ≢ []) × All (λ t. IsObserved limit (sightings_of lib t records)) targets)
unfolding check_observation_repeat
check-refuses_iff lib records command limit = (
  λ h.
      let (some_target, all_stale) = (refused_iff targets stale).0 h in
      (
        some_target,
        (IsObserved-iff lib records limit targets).0 (
            (tally-All limit seen targets).0
              (sym (stale_length lib records command limit) ∙ all_stale)),
      ),
  λ (some_target, observed). (refused_iff targets stale).1 (
    some_target,
    stale_length lib records command limit
        ∙ (tally-All limit seen targets).1 ((IsObserved-iff lib records limit targets).1 observed),
  ),
)
  where
    targets : List String
    targets = extract_observation_targets lib command

    seen : Seen
    seen = note_records lib records []

    stale : Stale
    stale = find_stale_targets lib records targets limit
