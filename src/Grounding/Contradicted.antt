-- ===== src/Grounding/Contradicted.antt =====
-- What a warning says, without reference to the code that looks for it.
use autonomous_llm_bot.Prelude.{
  ℕ, ◌+◌, ◌≤◌, ◌<◌, String, ◌≡◌, refl, ◌⊎◌, inl, inr, Bool, true, false, ◌&&◌, Option, none, some,
  List, [], ◌∷◌, arith, ◌==◌, ==_iff, nat_eq, string_eq, Bool-cases, Option-cases, length, keep,
  all, All, contains,
}
use autonomous_llm_bot.Prelude.Selected.{Selected, keep-Selected, keep-keep}
use autonomous_llm_bot.Observation.{
  Library, extract_observation_targets, classify_observation_outcome, is_dead_family_outcome,
  dead_family_outcomes,
}
use autonomous_llm_bot.Grounding.{
  Patterns, Measurement, NewEvidence, is_clean_negative_outcome, observation_is_clean_negative,
  claim_text, in_window, is_recent, observes,
}

-- A shell command that was run on the target in the ten steps up to `anchor`.
abbrev pub Measures : Library → ℕ → String → Measurement → Type 0
Measures lib anchor target r =
    ((n : ℕ) × (r.step ≡ some n) × (anchor < n + 10) × (n ≤ anchor))
    × (r.tool ≡ "bash_exec")
    × (r.executed ≡ true)
    × (contains (extract_observation_targets lib (some r.command)) target ≡ true)

-- A measurement that found nothing: a dead end, or a normal end with an absence in the text.
abbrev pub FoundNothing : Library → Patterns → Measurement → Type 0
FoundNothing lib p r =
    (outcome : String) × (classify_observation_outcome lib r.result r.failed ≡ some outcome)
    × ((contains dead_family_outcomes outcome ≡ true)
        ⊎ (((outcome ≡ "exit0") ⊎ (outcome ≡ "other"))
            × (p.has_negative_result (p.without_trailer r.result) ≡ true)))

-- A claim about one target that at least two measurements contradict, which are all of those in the
-- window.
pub record Contradicted (lib : Library) (p : Patterns) (anchor : ℕ) (records : List Measurement)
    (e : NewEvidence) (target : String) (measured : List Measurement) : Type 0 where
  pub claimed : p.has_phone e.summary ≡ true
  pub unnegated : p.has_negation e.summary ≡ false
  pub about_one : extract_observation_targets lib (some (claim_text e)) ≡ target ∷ []
  pub selected : Selected (Measures lib anchor target) records measured
  pub twice : 2 ≤ length measured
  pub empty : All (FoundNothing lib p) measured

window_lem :
    (anchor : ℕ) (s : Option ℕ)
    → in_window anchor s ≡ true
    → (n : ℕ) × (s ≡ some n) × (anchor < n + 10) × (n ≤ anchor)
window_lem anchor none h = absurd (cc)
window_lem anchor (some n) h = (n, refl, ground arith, ground arith)

in_window_lem : (anchor n : ℕ) → anchor < n + 10 → n ≤ anchor → in_window anchor (some n) ≡ true
in_window_lem anchor n low high = ground arith

measures : Library → ℕ → String → Measurement → Bool
measures lib anchor target r = is_recent anchor r && observes lib target r

measures-Measures :
    (lib : Library) (anchor : ℕ) (target : String) (r : Measurement)
    → measures lib anchor target r ≡ true
    → Measures lib anchor target r
unfolding measures
measures-Measures lib anchor target r h = (
  window_lem anchor r.step (ground arith),
  (==_iff r.tool "bash_exec").0 (ground arith),
  ground arith,
  ground arith,
)

Measures-measures :
    (lib : Library) (anchor : ℕ) (target : String) (r : Measurement)
    → Measures lib anchor target r
    → measures lib anchor target r ≡ true
unfolding measures
Measures-measures lib anchor target r m =
    let ((n, s, low, high), tool, executed, observed) = m in
    rw (s, tool, executed, observed) (ground arith)

pub observed-Selected :
    (lib : Library) (anchor : ℕ) (target : String) (records : List Measurement)
    → Selected
        (Measures lib anchor target)
        records
        (keep (observes lib target) (keep (is_recent anchor) records))
unfolding measures
observed-Selected lib anchor target records =
    rw (keep-keep (observes lib target) (is_recent anchor) records) (
      keep-Selected (Measures lib anchor target) (measures lib anchor target)
        (measures-Measures lib anchor target)
        (λ r h m. cc (Measures-measures lib anchor target r m, h)) records)

outcome-FoundNothing :
    (lib : Library) (p : Patterns) (r : Measurement)
    → observation_is_clean_negative lib p r ≡ true
    → FoundNothing lib p r
unfolding observation_is_clean_negative is_clean_negative_outcome is_dead_family_outcome
outcome-FoundNothing lib p r h =
    elim (Option-cases (classify_observation_outcome lib r.result r.failed)) [
      | inl unknown ↦ absurd (ground arith)
      | inr (o, found) ↦ elim (Bool-cases (contains dead_family_outcomes o)) [
        | inl dead ↦ (o, found, inl dead)
        | inr alive ↦ elim (Bool-cases (o == "exit0")) [
          | inl e ↦ (o, found, inr (inl ((==_iff o "exit0").0 e), ground arith))
          | inr other ↦ (o, found, inr (inr ((==_iff o "other").0 (ground arith)), ground arith))
        ]
      ]
    ]

FoundNothing-clean :
    (lib : Library) (p : Patterns) (r : Measurement)
    → FoundNothing lib p r
    → observation_is_clean_negative lib p r ≡ true
unfolding observation_is_clean_negative is_clean_negative_outcome is_dead_family_outcome contains
FoundNothing-clean lib p r (o, found, inl dead) = rw found (rw dead refl)
FoundNothing-clean lib p r (o, found, inr (inl e, n)) = rw found (rw (e, n) refl)
FoundNothing-clean lib p r (o, found, inr (inr e, n)) = rw found (rw (e, n) refl)

pub all-FoundNothing :
    (lib : Library) (p : Patterns) (rs : List Measurement)
    → all (observation_is_clean_negative lib p) rs ≡ true
    → All (FoundNothing lib p) rs
unfolding all
all-FoundNothing lib p [] h = tt
all-FoundNothing lib p (r ∷ rs) h =
    (outcome-FoundNothing lib p r (ground arith), all-FoundNothing lib p rs (ground arith))

pub FoundNothing-all :
    (lib : Library) (p : Patterns) (rs : List Measurement)
    → All (FoundNothing lib p) rs
    → all (observation_is_clean_negative lib p) rs ≡ true
unfolding all
FoundNothing-all lib p [] h = refl
FoundNothing-all lib p (r ∷ rs) h =
    rw (FoundNothing-clean lib p r h.0, FoundNothing-all lib p rs h.1) refl
