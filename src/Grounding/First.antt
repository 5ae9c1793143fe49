-- ===== src/Grounding/First.antt =====
-- The check warns of the first three contradicted claims, and of nothing else.
use mathlib.Core.List.{filter_map, filter_map-cons-none, filter_map-cons-some}
use autonomous_llm_bot.Prelude.{
  ℕ, zero, suc, String, ◌≡◌, refl, sym, subst, ◌≢◌, inl, inr, true, false, ◌&&◌, Option, none, some,
  List, [], ◌∷◌, arith, leb, le→leb, nat_eq, string_eq, Bool-cases, Option-cases, length, take,
  keep, all, eq_iff,
}
use autonomous_llm_bot.Prelude.Selected.{Selected-unique}
use autonomous_llm_bot.Text
use autonomous_llm_bot.Observation.{Library}
use autonomous_llm_bot.Grounding.{
  Patterns, Measurement, NewEvidence, Warning, has_positive_phone_claim,
  observation_is_clean_negative, claim_targets, steps_of, anchor_of, is_recent, observes,
  sorted_steps, contradicted, warning, warn_target, warn, has_id, check_evidence_grounding,
}
use autonomous_llm_bot.Grounding.Contradicted.{
  Measures, Contradicted, observed-Selected, all-FoundNothing, FoundNothing-all,
}
use autonomous_llm_bot.Grounding.Warnings.{check-first_three}
use autonomous_llm_bot.Grounding.Steps.{AreStepsOf, IsAnchor, sorted-AreStepsOf, anchor_of-IsAnchor}

-- An item that is warned of, and the warning.
pub record Warned (lib : Library) (p : Patterns) (anchor : ℕ) (records : List Measurement)
    (e : NewEvidence) (w : Warning) : Type 0 where
  pub named : Text.strip e.id ≢ ""
  pub target : String
  pub measured : List Measurement
  pub contradicted : Contradicted lib p anchor records e target measured
  pub steps : List ℕ
  pub steps_of_measured : AreStepsOf measured steps
  pub shown : w ≡ record { id = e.id; target = Text.prefix 80 target; steps = take 6 steps }

module _ (lib : Library) (p : Patterns) (anchor : ℕ) (records : List Measurement) where
  -- The first warnings for the items, at most so many.
  pub data FirstWarnings : ℕ → List NewEvidence → List Warning → Type 0 where
    enough : {es : List NewEvidence} → FirstWarnings 0 es []
    ended : {k : ℕ} → FirstWarnings k [] []
    silent :
        {k : ℕ} {e : NewEvidence} {es : List NewEvidence} {ws : List Warning}
        → ((w : Warning) → ¬ Warned lib p anchor records e w)
        → FirstWarnings k es ws
        → FirstWarnings k (e ∷ es) ws
    warned :
        {k : ℕ} {e : NewEvidence} {w : Warning} {es : List NewEvidence} {ws : List Warning}
        → Warned lib p anchor records e w
        → FirstWarnings k es ws
        → FirstWarnings (suc k) (e ∷ es) (w ∷ ws)

  abbrev recent : List Measurement
  recent = keep (is_recent anchor) records

  target-Contradicted :
      (e : NewEvidence) (t : String)
      → has_positive_phone_claim p e.summary ≡ true
      → claim_targets lib e ≡ t ∷ []
      → contradicted lib p (keep (observes lib t) recent) ≡ true
      → Contradicted lib p anchor records e t (keep (observes lib t) recent)
  unfolding has_positive_phone_claim contradicted
  target-Contradicted e t claimed one h = record {
    claimed = ground arith;
    unnegated = ground arith;
    about_one = one;
    selected = observed-Selected lib anchor t records;
    twice = ground arith;
    empty = all-FoundNothing lib p (keep (observes lib t) recent) (ground arith);
  }

  Contradicted-target :
      (e : NewEvidence) (t : String) (measured : List Measurement)
      → Contradicted lib p anchor records e t measured
      → contradicted lib p (keep (observes lib t) recent) ≡ true
  unfolding contradicted
  Contradicted-target e t measured c =
      let same : measured ≡ keep (observes lib t) recent =
        Selected-unique (Measures lib anchor t) c.selected
          (observed-Selected lib anchor t records) in
      subst (λ ms. (leb 2 (length ms) && all (observation_is_clean_negative lib p) ms) ≡ true) same
        (rw (le→leb 2 (length measured) c.twice, FoundNothing-all lib p measured c.empty) refl)

  warn_target-Warned :
      (e : NewEvidence) (ts : List String) (w : Warning)
      → has_id e ≡ true
      → has_positive_phone_claim p e.summary ≡ true
      → claim_targets lib e ≡ ts
      → warn_target lib p recent e ts ≡ some w
      → Warned lib p anchor records e w
  unfolding warn_target
  warn_target-Warned e [] w i claimed one h = absurd (cc)
  warn_target-Warned e (t ∷ s ∷ ts) w i claimed one h = absurd (cc)
  warn_target-Warned e (t ∷ []) w i claimed one h =
      elim (Bool-cases (contradicted lib p (keep (observes lib t) recent))) [
        | inl yes_all ↦ record {
          named = λ blank. absurd (ground (arith, eq_iff (Text.strip e.id) ""));
          target = t;
          measured = keep (observes lib t) recent;
          contradicted = target-Contradicted e t claimed one yes_all;
          steps = sorted_steps (steps_of (keep (observes lib t) recent));
          steps_of_measured = sorted-AreStepsOf (keep (observes lib t) recent);
          shown = ground arith;
        }
        | inr not_all ↦ absurd (ground arith)
      ]

  warn-Warned :
      (e : NewEvidence) (w : Warning)
      → has_id e ≡ true
      → warn lib p recent e ≡ some w
      → Warned lib p anchor records e w
  unfolding warn
  warn-Warned e w i h = elim (Bool-cases (has_positive_phone_claim p e.summary)) [
    | inl claimed ↦ warn_target-Warned e (claim_targets lib e) w i claimed refl (rw claimed at h)
    | inr unclaimed ↦ absurd (cc (rw unclaimed at h))
  ]

  Warned-warn :
      (e : NewEvidence) (w : Warning)
      → Warned lib p anchor records e w
      → (warn lib p recent e ≡ none)
      → ⊥
  unfolding warn warn_target has_positive_phone_claim
  Warned-warn e w v h =
      let c = v.contradicted in
      let all_empty = Contradicted-target e v.target v.measured c in
      let given : warn lib p recent e
          ≡ some (warning e v.target (keep (observes lib v.target) recent)) =
        rw (warn, c.claimed, c.unnegated, c.about_one, warn_target, all_empty) refl in
      cc (given, h)

  unwarned :
      (e : NewEvidence) → has_id e ≡ false → (w : Warning) → ¬ Warned lib p anchor records e w
  unwarned e h w v = absurd (ground (arith, eq_iff (Text.strip e.id) "", v.named))

  first-FirstWarnings :
      (k : ℕ) (es : List NewEvidence)
      → FirstWarnings k es (take k (filter_map (warn lib p recent) (keep has_id es)))
  unfolding take keep filter_map
  first-FirstWarnings zero es = enough
  first-FirstWarnings (suc k) [] = ended
  first-FirstWarnings (suc k) (e ∷ es) = elim (Bool-cases (has_id e)) [
    | inr unnamed ↦ rw unnamed (silent (unwarned e unnamed) (first-FirstWarnings (suc k) es))
    | inl named ↦ elim (Option-cases (warn lib p recent e)) [
      | inl quiet ↦ rw named (
          rw (filter_map-cons-none (warn lib p recent) e (keep has_id es) quiet)
            (silent (λ w v. Warned-warn e w v quiet) (first-FirstWarnings (suc k) es)))
      | inr (w, given) ↦ rw named (
          rw (filter_map-cons-some (warn lib p recent) e (keep has_id es) given)
            (warned (warn-Warned e w named given) (first-FirstWarnings k es)))
    ]
  ]

-- The check warns of the items, in their order, that have an id and claim a telephone number, without a
-- negation, about exactly one target that at least two shell commands were run on in the window, all of
-- which found nothing: of the first three of these items, and of no other. The window is the ten steps
-- up to the current one, or else up to the last one of the records. A warning shows the id, the first 80
-- characters of the target, and the first six of the steps, each once and in ascending order.
pub check-FirstWarnings :
    (lib : Library) (p : Patterns) (records : List Measurement) (es : List NewEvidence)
    (current_step : Option ℕ)
    → (anchor : ℕ) × IsAnchor current_step records anchor
      × FirstWarnings lib p anchor records 3 es
          (check_evidence_grounding lib p records es current_step)
check-FirstWarnings lib p records es current_step =
    let anchor = anchor_of current_step (steps_of records) in
    (
      anchor,
      anchor_of-IsAnchor current_step records,
      subst (FirstWarnings lib p anchor records 3 es)
          (sym (check-first_three lib p records es current_step))
          (first-FirstWarnings lib p anchor records 3 es),
    )
