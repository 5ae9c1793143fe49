-- ===== src/Observation/Repeats.antt =====
-- The guard counts observations: what it finds stale, and which calls it refuses.
use autonomous_llm_bot.Prelude.{
  ℕ, String, ◌≡◌, refl, sym, ap, ◌∙◌, subst, ◌⊎◌, inl, inr, Bool, true, false, not, ◌&&◌, ◌||◌,
  Option, none, some, List, [], ◌∷◌, ◌++◌, arith, if◌then◌else◌, ◌==◌, nat_eq, string_eq, ==_refl,
  Bool-cases, contains, eq_iff, if_induction, Distinct,
}
use autonomous_llm_bot.Dict.{lookup, lookup-insert_ne, insert, lookup-insert_self, lookup-insert}
use autonomous_llm_bot.Observation.{
  Library, extract_observation_targets, classify_observation_outcome, TrajectoryRecord, Sighting,
  Seen, or_nil, note_targets, note_outcome, note_record, note_records, Stale, collect_stale,
  is_repeated, entry, add_stale, find_stale_targets,
}
use autonomous_llm_bot.Observation.Targets.{extract-IsFew}
use mathlib.Core.List.{append_assoc, append-nil}

-- The sightings of `t` in the records, read off record by record.
abbrev pub sighting_by : Option ℕ → Option String → List Sighting
sighting_by step none = []
sighting_by step (some outcome) = (step, outcome) ∷ []

unfoldable pub sightings_in : Library → String → TrajectoryRecord → List Sighting
sightings_in lib t r =
    if r.tool == "bash_exec"
      && (r.executed && contains (extract_observation_targets lib r.command) t)
    then sighting_by r.step (classify_observation_outcome lib r.result r.failed)
    else []

unfoldable pub sightings_of : Library → String → List TrajectoryRecord → List Sighting
sightings_of lib t [] = []
sightings_of lib t (r ∷ rs) = sightings_in lib t r ++ sightings_of lib t rs

abbrev pub seen_at : String → Seen → List Sighting
seen_at t seen = or_nil (lookup t seen)

note_targets_absent :
    (s : Sighting) (ts : List String) (seen : Seen) (t : String)
    → contains ts t ≡ false
    → seen_at t (note_targets s ts seen) ≡ seen_at t seen
unfolding note_targets contains
note_targets_absent s [] seen t absent = refl
note_targets_absent s (u ∷ ts) seen t absent =
    note_targets_absent s ts _ t (ground arith)
    ∙ ap or_nil (lookup-insert_ne u t _ seen (λ e. ground (arith, eq_iff u t)))

note_targets_lem :
    (s : Sighting) (ts : List String) (seen : Seen) (t : String)
    → Distinct ts
    → seen_at t (note_targets s ts seen) ≡ seen_at t seen ++ (if contains ts t then s ∷ [] else [])
unfolding note_targets contains
note_targets_lem s [] seen t d = sym (append-nil (seen_at t seen))
note_targets_lem s (u ∷ ts) seen t d = elim (Bool-cases (u == t)) [
  | inl same ↦ rw same (here ((eq_iff u t).0 same))
  | inr other ↦ rw other (
      note_targets_lem s ts (insert u (seen_at u seen ++ s ∷ []) seen) t d.1
      ∙ ap (λ xs. or_nil xs ++ (if contains ts t then s ∷ [] else []))
          (lookup-insert_ne u t _ seen (λ e. ground (arith, eq_iff u t))))
]
  where
    here : u ≡ t → seen_at t (note_targets s (u ∷ ts) seen) ≡ seen_at t seen ++ s ∷ []
    here same =
        note_targets_absent s ts _ t (subst (λ x. contains ts x ≡ false) same d.0)
        ∙ subst
            (λ x. seen_at x (insert u (seen_at u seen ++ s ∷ []) seen) ≡ seen_at x seen ++ s ∷ [])
            same (ap or_nil (lookup-insert_self u _ seen))

note_record_lem :
    (lib : Library) (r : TrajectoryRecord) (seen : Seen) (t : String)
    → seen_at t (note_record lib r seen) ≡ seen_at t seen ++ sightings_in lib t r
unfolding note_record note_outcome sightings_in
note_record_lem lib r seen t = elim (Bool-cases (r.tool == "bash_exec")) [
  | inl bash ↦ rw bash (by_executed r.executed)
  | inr other ↦ rw other (sym (append-nil (seen_at t seen)))
]
  where
    ts : List String
    ts = extract_observation_targets lib r.command

    by_outcome :
        (outcome : Option String)
        → seen_at t (note_outcome r.step ts outcome seen)
          ≡ seen_at t seen ++ (if contains ts t then sighting_by r.step outcome else [])
    by_outcome none =
        if_induction (λ xs. seen_at t seen ≡ seen_at t seen ++ xs) (contains ts t)
          (λ _. sym (append-nil (seen_at t seen))) (λ _. sym (append-nil (seen_at t seen)))
    by_outcome (some o) = note_targets_lem (r.step, o) ts seen t (extract-IsFew lib r.command).0

    by_executed :
        (b : Bool)
        → seen_at t (
            if not true || not b
            then seen
            else note_outcome r.step ts (classify_observation_outcome lib r.result r.failed) seen)
          ≡ seen_at t seen
            ++ (if true && (b && contains ts t)
                then sighting_by r.step (classify_observation_outcome lib r.result r.failed)
                else [])
    by_executed true = by_outcome (classify_observation_outcome lib r.result r.failed)
    by_executed false = sym (append-nil (seen_at t seen))

note_records_lem :
    (lib : Library) (rs : List TrajectoryRecord) (seen : Seen) (t : String)
    → seen_at t (note_records lib rs seen) ≡ seen_at t seen ++ sightings_of lib t rs
unfolding note_records sightings_of
note_records_lem lib [] seen t = sym (append-nil (seen_at t seen))
note_records_lem lib (r ∷ rs) seen t =
    note_records_lem lib rs (note_record lib r seen) t
    ∙ (ap (λ xs. xs ++ sightings_of lib t rs) (note_record_lem lib r seen t)
        ∙ append_assoc (seen_at t seen) (sightings_in lib t r) (sightings_of lib t rs))

-- What the loop of the records leaves for a target, from nothing.
pub noted :
    (lib : Library) (rs : List TrajectoryRecord) (t : String)
    → seen_at t (note_records lib rs []) ≡ sightings_of lib t rs
unfolding lookup
noted lib rs t = note_records_lem lib rs [] t

pub add_stale-lookup :
    (limit : ℕ) (u : String) (sightings : List Sighting) (stale : Stale) (t : String)
    → lookup t (add_stale limit u sightings stale)
      ≡ (if u == t && is_repeated limit sightings then some (entry sightings) else lookup t stale)
unfolding add_stale
add_stale-lookup limit u sightings stale t =
    ground (arith, lookup-insert u t (entry sightings) stale)

-- What the guard holds against `t`.
abbrev verdict : ℕ → Seen → String → Bool → Option (List ℕ × String) → Option (List ℕ × String)
verdict limit seen t asked before =
    if asked && is_repeated limit (seen_at t seen) then some (entry (seen_at t seen)) else before

collect_stale-lookup :
    (limit : ℕ) (seen : Seen) (ts : List String) (stale : Stale) (t : String)
    → lookup t (collect_stale limit seen ts stale)
      ≡ verdict limit seen t (contains ts t) (lookup t stale)
unfolding collect_stale contains
collect_stale-lookup limit seen [] stale t = refl
collect_stale-lookup limit seen (u ∷ ts) stale t =
    collect_stale-lookup limit seen ts (add_stale limit u (seen_at u seen) stale) t
    ∙ (ap (verdict limit seen t (contains ts t)) (add_stale-lookup limit u (seen_at u seen) stale t)
        ∙ merged (Bool-cases (u == t)))
  where
    merged :
        ((u == t) ≡ true) ⊎ ((u == t) ≡ false)
        → verdict limit seen t (contains ts t) (verdict limit seen u (u == t) (lookup t stale))
          ≡ verdict limit seen t (u == t || contains ts t) (lookup t stale)
    merged (inr other) = rw other refl
    merged (inl same) =
        subst
          (λ x.
            verdict limit seen x (contains ts x) (verdict limit seen u (u == x) (lookup x stale))
            ≡ verdict limit seen x (u == x || contains ts x) (lookup x stale))
          ((eq_iff u t).0 same) (rw (==_refl u) (ground arith))

-- The guard's account of some targets: for each of them that was observed at least `limit` times, and
-- at a known step, the steps and the latest outcome; and nothing else.
pub find_stale_targets-lookup :
    (lib : Library) (records : List TrajectoryRecord) (targets : List String) (limit : ℕ)
    (t : String)
    → lookup t (find_stale_targets lib records targets limit) ≡ (
        if contains targets t && is_repeated limit (sightings_of lib t records)
        then some (entry (sightings_of lib t records))
        else none)
unfolding find_stale_targets lookup
find_stale_targets-lookup lib records targets limit t =
    rw (← noted lib records t)
      (collect_stale-lookup limit (note_records lib records []) targets [] t)
