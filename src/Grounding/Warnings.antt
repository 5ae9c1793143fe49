-- ===== src/Grounding/Warnings.antt =====
-- What is warned of: the first three contradicted items, and the cheap test in front loses none.
use mathlib.Core.List.{filter_map, filter_map-cons-none, filter_map-cons-some}
use autonomous_llm_bot.Prelude.{
  ℕ, zero, suc, ◌+◌, ◌-◌, String, ◌≡◌, refl, sym, ap, ◌∙◌, inl, inr, true, false, Option, none,
  List, [], ◌∷◌, arith, leb, if◌then◌else◌, ◌==◌, nat_eq, string_eq, Bool-cases, Option-cases,
  length, take, keep, if_induction, is_nil,
}
use autonomous_llm_bot.Observation.{Library}
use autonomous_llm_bot.Grounding.{
  Patterns, Measurement, NewEvidence, Warning, has_positive_phone_claim, claim_targets,
  may_need_check, steps_of, is_recent, recent_records, anchor_of, warn_target, warn, warn_all,
  has_id, check_evidence_grounding, contradicted, max_warnings,
}

warn_target-skipped :
    (lib : Library) (p : Patterns) (recent : List Measurement) (e : NewEvidence) (ts : List String)
    → (length ts == 1) ≡ false
    → warn_target lib p recent e ts ≡ none
unfolding warn_target
warn_target-skipped lib p recent e [] h = refl
warn_target-skipped lib p recent e (t ∷ []) h = absurd (ground arith)
warn_target-skipped lib p recent e (t ∷ s ∷ ts) h = refl

warn-skipped :
    (lib : Library) (p : Patterns) (recent : List Measurement) (e : NewEvidence)
    → may_need_check lib p e ≡ false
    → warn lib p recent e ≡ none
unfolding warn may_need_check
warn-skipped lib p recent e h = elim (Bool-cases (has_positive_phone_claim p e.summary)) [
  | inl claimed ↦
      let other : (length (claim_targets lib e) == 1) ≡ false = ground arith in
      rw claimed (warn_target-skipped lib p recent e (claim_targets lib e) other)
  | inr unclaimed ↦ rw unclaimed refl
]

warn_target-unobserved :
    (lib : Library) (p : Patterns) (e : NewEvidence) (ts : List String)
    → warn_target lib p [] e ts ≡ none
unfolding warn_target contradicted keep
warn_target-unobserved lib p e [] = refl
warn_target-unobserved lib p e (t ∷ []) = refl
warn_target-unobserved lib p e (t ∷ s ∷ ts) = refl

warn-unobserved : (lib : Library) (p : Patterns) (e : NewEvidence) → warn lib p [] e ≡ none
unfolding warn
warn-unobserved lib p e =
    if_induction (λ (o : Option Warning). o ≡ none) (has_positive_phone_claim p e.summary)
      (λ _. warn_target-unobserved lib p e (claim_targets lib e)) (λ _. refl)

take-nil : (n : ℕ) → take {A = Warning} n [] ≡ []
unfolding take
take-nil zero = refl
take-nil (suc n) = refl

module _ (lib : Library) (p : Patterns) (recent : List Measurement) where
  -- The warnings for all items, however many.
  abbrev pub warnings : List NewEvidence → List Warning
  warnings es = filter_map (warn lib p recent) es

  warnings-unobserved : (es : List NewEvidence) → recent ≡ [] → warnings es ≡ []
  unfolding filter_map
  warnings-unobserved [] h = refl
  warnings-unobserved (e ∷ es) h =
      filter_map-cons-none (warn lib p recent) e es (rw h (warn-unobserved lib p e))
      ∙ warnings-unobserved es h

  warnings_cons :
      (e : NewEvidence) (es fs : List NewEvidence)
      → warnings es ≡ warnings fs
      → warnings (e ∷ es) ≡ warnings (e ∷ fs)
  warnings_cons e es fs h = elim (Option-cases (warn lib p recent e)) [
    | inl quiet ↦
        filter_map-cons-none (warn lib p recent) e es quiet
        ∙ h
        ∙ sym (filter_map-cons-none (warn lib p recent) e fs quiet)
    | inr (w, given) ↦
        filter_map-cons-some (warn lib p recent) e es given
        ∙ ap (λ (ws : List Warning). w ∷ ws) h
        ∙ sym (filter_map-cons-some (warn lib p recent) e fs given)
  ]

  -- The items of a list that starts with `e`, where `e` stays if it has an id.
  warnings_if :
      (e : NewEvidence) (es fs : List NewEvidence)
      → warnings es ≡ warnings fs
      → warnings (if has_id e then e ∷ es else es) ≡ warnings (if has_id e then e ∷ fs else fs)
  warnings_if e es fs h = elim (Bool-cases (has_id e)) [
    | inl named ↦ rw named (warnings_cons e es fs h)
    | inr unnamed ↦ rw unnamed h
  ]

  warnings_skip :
      (e : NewEvidence) (es : List NewEvidence)
      → warn lib p recent e ≡ none
      → warnings (if has_id e then e ∷ es else es) ≡ warnings es
  warnings_skip e es h =
      if_induction (λ (fs : List NewEvidence). warnings fs ≡ warnings es) (has_id e)
        (λ _. filter_map-cons-none (warn lib p recent) e es h) (λ _. refl)

  warnings-keep :
      (es : List NewEvidence)
      → warnings (keep has_id (keep (may_need_check lib p) es)) ≡ warnings (keep has_id es)
  unfolding keep
  warnings-keep [] = refl
  warnings-keep (e ∷ es) = elim (Bool-cases (may_need_check lib p e)) [
    | inl needed ↦ rw needed (warnings_if e _ _ (warnings-keep es))
    | inr skipped ↦ rw skipped (
        warnings-keep es
        ∙ sym (warnings_skip e (keep has_id es) (warn-skipped lib p recent e skipped)))
  ]

  warn_all-take :
      (n : ℕ) (es : List NewEvidence)
      → warn_all lib p recent n es ≡ take (max_warnings - n) (warnings es)
  unfolding warn_all take filter_map
  warn_all-take n [] = sym (take-nil (max_warnings - n))
  warn_all-take n (e ∷ es) = elim (Bool-cases (leb max_warnings n)) [
    | inl full ↦ let rest : max_warnings - n ≡ 0 = ground arith in rw (warn_all, full, rest) refl
    | inr room ↦
        let rest : max_warnings - n ≡ suc (max_warnings - (n + 1)) = ground arith in
        elim (Option-cases (warn lib p recent e)) [
          | inl quiet ↦ rw (warn_all, room, quiet) (warn_all-take n es)
          | inr (w, given) ↦
              rw (warn_all, room, given, rest)
                (ap (λ (ws : List Warning). w ∷ ws) (warn_all-take (n + 1) es))
        ]
  ]

no_steps : (anchor : ℕ) (rs : List Measurement) → steps_of rs ≡ [] → keep (is_recent anchor) rs ≡ []
unfolding steps_of keep
no_steps anchor [] h = refl
no_steps anchor (r ∷ rs) h = elim (Option-cases r.step) [
  | inl unknown ↦ rw unknown (no_steps anchor rs (ground (arith)))
  | inr (n, known) ↦ absurd (ground arith)
]

is_nil-eq : {A : Type 0} (xs : List A) → is_nil xs ≡ true → xs ≡ []
is_nil-eq [] h = refl
is_nil-eq (x ∷ xs) h = absurd (cc)

-- The loop, and what is done in front of it, in one.
pub check-first_three :
    (lib : Library) (p : Patterns) (records : List Measurement) (es : List NewEvidence)
    (current_step : Option ℕ)
    → check_evidence_grounding lib p records es current_step
      ≡ take max_warnings (warnings lib p (recent_records current_step records) (keep has_id es))
unfolding check_evidence_grounding take filter_map
check-first_three lib p records es current_step =
    let anchor = anchor_of current_step (steps_of records) in
    let recent = recent_records current_step records in
    if_induction
      (λ (ws : List Warning). ws ≡ take max_warnings (warnings lib p recent (keep has_id es)))
      (is_nil (keep has_id es)) (λ nobody. rw (is_nil-eq (keep has_id es) nobody) refl)
      (λ _.
        if_induction
          (λ (ws : List Warning). ws ≡ take max_warnings (warnings lib p recent (keep has_id es)))
          (is_nil (steps_of records))
          (λ unmeasured.
            let unobserved = no_steps anchor records (is_nil-eq (steps_of records) unmeasured) in
            rw (warnings-unobserved lib p recent (keep has_id es) unobserved) refl)
          (λ _. warn_all-take lib p recent 0 (keep has_id es)))

-- Items for which `may_need_check` says no can be left out: the warnings are the same.
pub check-prefiltered :
    (lib : Library) (p : Patterns) (records : List Measurement) (es : List NewEvidence)
    (current_step : Option ℕ)
    → check_evidence_grounding lib p records (keep (may_need_check lib p) es) current_step
      ≡ check_evidence_grounding lib p records es current_step
check-prefiltered lib p records es current_step =
    check-first_three lib p records (keep (may_need_check lib p) es) current_step
    ∙ ap (take max_warnings) (warnings-keep lib p (recent_records current_step records) es)
    ∙ sym (check-first_three lib p records es current_step)
