-- ===== src/Ledger/Declaring.antt =====
-- How each call of the code changes the hypotheses that are there, for any relation that its writes
-- keep.
use autonomous_llm_bot.Prelude.{
  String, ◌≡◌, refl, inl, inr, Bool, true, false, not, ◌&&◌, Option, none, some, ◌==◌, string_eq,
  Option-cases, contains, Result, ok, raise, if_induction, result_induction,
}
use autonomous_llm_bot.Dict.{lookup, insert, lookup-insert_self}
use autonomous_llm_bot.Ledger.State.{
  ResearchLedger, active, Hypothesis, id_of, transition_statuses, statement_chars, Refusal, clip,
}
use autonomous_llm_bot.Ledger.Hypotheses.{
  transition, require_hypothesis, moved, may_transition, commit_transition, restated,
  later_declaration, declare_hypothesis, reopen_hypothesis, require_evidence, first_declaration,
}
use autonomous_llm_bot.Ledger.Evolution.{
  Evolves, Evolves-refl, Evolves-insert, Evolves-join, Evolves-insert_new,
}

-- A corrected statement, and nothing else.
abbrev pub Restates : Hypothesis → Hypothesis → Type 0
Restates h h' = (s : String) × (h' ≡ record h { statement = s })

module _ (R : Hypothesis → Hypothesis → Type 0) (same : (h : Hypothesis) → R h h) where
  -- A transition: either it was refused and nothing changed, or the hypothesis moved.
  pub transition-Evolves :
      (k : String) (h : Hypothesis) (status : String) (evidence_id change_note : Option String)
      (is_reopen : Bool) (l : ResearchLedger)
      → lookup k l.hypotheses ≡ some h
      → (may_transition h status evidence_id is_reopen l ≡ ok tt
          → R h (moved h status (id_of evidence_id) change_note))
      → Evolves R l.hypotheses
          (transition k h status evidence_id change_note is_reopen l).0.hypotheses
  unfolding transition
  transition-Evolves k h status evidence_id change_note is_reopen l there step =
      result_induction
        (λ r.
          Evolves R l.hypotheses
            (commit_transition k h status evidence_id change_note r l).0.hypotheses)
        (may_transition h status evidence_id is_reopen l) (λ e _. Evolves-refl R same l.hypotheses)
        λ _ passed.
          Evolves-insert R same k h (moved h status (id_of evidence_id) change_note) l.hypotheses
            there (step passed)

  pub reopen-Evolves :
      (hypothesis_id evidence_id change_note : Option String) (l : ResearchLedger)
      → ((h : Hypothesis)
          → may_transition h active evidence_id true l ≡ ok tt
          → R h (moved h active (id_of evidence_id) change_note))
      → Evolves R l.hypotheses
          (reopen_hypothesis hypothesis_id evidence_id change_note l).0.hypotheses
  unfolding reopen_hypothesis require_hypothesis
  reopen-Evolves hypothesis_id evidence_id change_note l step =
      elim (Option-cases (lookup (id_of hypothesis_id) l.hypotheses)) [
        | inl absent ↦ rw absent (Evolves-refl R same l.hypotheses)
        | inr (h, there) ↦ rw there (
            transition-Evolves (id_of hypothesis_id) h active evidence_id change_note true l there
              (step h))
      ]

  module _ (restate : (a b c : Hypothesis) → Restates a b → R b c → R a c) (status : String)
      (evidence_id change_note : Option String)
      (step : (g : Hypothesis) (m : ResearchLedger)
        → may_transition g status evidence_id false m ≡ ok tt
        → R g (moved g status (id_of evidence_id) change_note)) where
    later-Evolves :
        (k : String) (g : Hypothesis) (m : ResearchLedger)
        → lookup k m.hypotheses ≡ some g
        → Evolves R m.hypotheses
            (later_declaration k status evidence_id change_note (g, m)).0.hypotheses
    unfolding later_declaration
    later-Evolves k g m there =
        if_induction
          (λ (r : ResearchLedger × Result Refusal Hypothesis).
            Evolves R m.hypotheses r.0.hypotheses)
          (not (status == g.status))
          (λ _. transition-Evolves k g status evidence_id change_note false m there (step g m))
          (λ _. Evolves-refl R same m.hypotheses)

    known-Evolves :
        (k : String) (h : Hypothesis) (s : String) (l : ResearchLedger)
        → lookup k l.hypotheses ≡ some h
        → Evolves R l.hypotheses
            (later_declaration k status evidence_id change_note (restated k h s l)).0.hypotheses
    unfolding restated
    known-Evolves k h s l there =
        if_induction
          (λ r.
            Evolves R l.hypotheses
              (later_declaration k status evidence_id change_note r).0.hypotheses)
          (not (s == "") && not (s == h.statement))
          (λ _.
            Evolves-join Restates R R restate l.hypotheses (insert k h' l.hypotheses) _
              (Evolves-insert Restates (λ g. (g.statement, refl)) k h h' l.hypotheses there
                (s, refl))
              (later-Evolves k h' _ (lookup-insert_self k h' l.hypotheses)))
          (λ _. later-Evolves k h l there)
      where
        h' : Hypothesis
        h' = record h { statement = s }

    first-Evolves :
        (k : String) (statement : Option String) (r : Result Refusal Unit) (l : ResearchLedger)
        → lookup k l.hypotheses ≡ none
        → Evolves R l.hypotheses
            (first_declaration k statement status evidence_id change_note r l).0.hypotheses
    unfolding first_declaration
    first-Evolves k statement (raise e) l absent = Evolves-refl R same l.hypotheses
    first-Evolves k statement (ok _) l absent = Evolves-insert_new R same k _ l.hypotheses absent

    pub declare-Evolves :
        (hypothesis_id statement : Option String) (l : ResearchLedger)
        → Evolves R l.hypotheses
            (declare_hypothesis hypothesis_id statement status evidence_id change_note
              l).0.hypotheses
    unfolding declare_hypothesis
    declare-Evolves hypothesis_id statement l =
        if_induction P (id_of hypothesis_id == "") (λ _. Evolves-refl R same l.hypotheses)
          λ _.
            if_induction P (not (contains transition_statuses status))
              (λ _. Evolves-refl R same l.hypotheses)
              λ _. elim (Option-cases (lookup (id_of hypothesis_id) l.hypotheses)) [
                | inl absent ↦ rw absent (
                    first-Evolves (id_of hypothesis_id) statement
                      (require_evidence evidence_id true l) l absent)
                | inr (h, there) ↦
                    rw there (
                      known-Evolves (id_of hypothesis_id) h (clip statement statement_chars) l
                        there)
              ]
      where
        P : ResearchLedger × Result Refusal Hypothesis → Type 0
        P r = Evolves R l.hypotheses r.0.hypotheses
