-- ===== src/Ledger/Refinement.antt =====
-- A batch is a sequence of calls of the ledger's methods, so what survives any calls survives any
-- batch.
use autonomous_llm_bot.Prelude.{
  String, ◌≡◌, refl, sym, ap, ◌∙◌, Bool, true, Option, none, some, List, [], ◌∷◌, ◌++◌, arith, ◌==◌,
  nat_eq, string_eq, All, Result, ok, raise, if_induction, All-append,
}
use autonomous_llm_bot.Dict.{lookup}
use autonomous_llm_bot.Ledger.State.{
  ResearchLedger, reopen, Hypothesis, Refusal, text_or_empty, id_of, set_goal, EvidenceRecord,
  Conclusion,
}
use autonomous_llm_bot.Ledger.Duplicates.{Unicode}
use autonomous_llm_bot.Ledger.AddEvidence.{add_evidence, bool_of}
use autonomous_llm_bot.Ledger.Premises.{add_conclusion}
use autonomous_llm_bot.Ledger.Batch.{
  Progress, EvidenceItem, HypothesisItem, ConclusionItem, apply_goal, Payload, no_target, Refused,
  malformed_evidence, malformed_hypothesis, malformed_conclusion, refuse, report, check_item,
  reason_of, retract_target, register_outcome, register, accept_item, apply_evidence,
}
use autonomous_llm_bot.Ledger.Apply.{
  each, hypothesis_outcome, status_of, apply_hypothesis, update_hypothesis, conclusion_outcome,
  apply_conclusion, begin, progress,
}
use autonomous_llm_bot.Ledger.Calls.{
  Call, run, sets_goal, adds_evidence, declares, reopens, concludes, call, run-append,
}

-- The calls that lead from the ledger of `p` to that of `q`, all of them in `P`.
pub record Calls (P : Call → Type 0) (p q : Progress) : Type 0 where
  pub calls : List Call
  pub each_in : All P calls
  pub leads : q.ledger ≡ run calls p.ledger

hypothesis_outcome-ledger :
    (u : Unicode) (old : Option Hypothesis) (r : ResearchLedger × Result Refusal Hypothesis)
    (p : Progress)
    → (hypothesis_outcome u old r p).ledger ≡ r.0
unfolding hypothesis_outcome
hypothesis_outcome-ledger u old (l, ok h) p = refl
hypothesis_outcome-ledger u old (l, raise why) p = refl

All-Unit : {A : Type 0} (xs : List A) → All (λ _. Unit {0}) xs
All-Unit [] = tt
All-Unit (x ∷ xs) = (tt, All-Unit xs)

-- What the items of a payload make the batch call.
abbrev pub EvidenceIn : (Call → Type 0) → Option EvidenceItem → Type 0
EvidenceIn P none = Unit
EvidenceIn P (some item) =
    P (adds_evidence item.id item.summary item.source item.retracted item.note)

abbrev pub ConclusionIn : (Call → Type 0) → Option ConclusionItem → Type 0
ConclusionIn P none = Unit
ConclusionIn P (some item) = P (concludes item.id item.statement item.premises)

module _ (P : Call → Type 0) where
  no-Calls : (p q : Progress) → q.ledger ≡ p.ledger → Calls P p q
  unfolding run
  no-Calls p q e = record { calls = []; each_in = tt; leads = e }

  one-Calls : (c : Call) (p q : Progress) → P c → q.ledger ≡ call c p.ledger → Calls P p q
  unfolding run
  one-Calls c p q h e = record { calls = c ∷ []; each_in = (h, tt); leads = e }

  run_one : (c : Call) (l : ResearchLedger) → run (c ∷ []) l ≡ call c l
  unfolding run
  run_one c l = refl

  Calls-trans : (p q r : Progress) → Calls P p q → Calls P q r → Calls P p r
  Calls-trans p q r a b = record {
    calls = a.calls ++ b.calls;
    each_in = All-append P a.calls b.calls a.each_in b.each_in;
    leads = b.leads ∙ (ap (run b.calls) a.leads ∙ sym (run-append a.calls b.calls p.ledger));
  }

  each-Calls :
      {A : Type 0} (Q : A → Type 0) (step : A → Progress → Progress)
      → ((a : A) (p : Progress) → Q a → Calls P p (step a p))
      → (items : List A) (p : Progress) → All Q items
      → Calls P p (each step items p)
  unfolding each
  each-Calls Q step one [] p h = no-Calls p p refl
  each-Calls Q step one (a ∷ items) p h =
      Calls-trans p (step a p) _ (one a p h.0) (each-Calls Q step one items (step a p) h.1)

  module _ (u : Unicode) (sets : (goal : Option String) → P (sets_goal goal))
      (corrects : (id summary source text : Option String)
        → P (adds_evidence id summary source (some true) text))
      (declare_in : (id statement : Option String) (status : String)
          (evidence_id text : Option String)
        → P (declares id statement status evidence_id text))
      (reopen_in : (id evidence_id text : Option String) → P (reopens id evidence_id text)) where
    apply_goal-Calls : (goal : Option String) (p : Progress) → Calls P p (apply_goal u goal p)
    unfolding apply_goal call
    apply_goal-Calls goal p =
        if_induction (Calls P p) (text_or_empty goal == "") (λ _. no-Calls p p refl)
          λ _.
            if_induction (Calls P p) ((set_goal goal p.ledger).goal == p.ledger.goal)
              (λ _.
                one-Calls (sets_goal goal) p (record p { ledger = set_goal goal p.ledger })
                  (sets goal) refl)
              (λ _. record {
                calls = sets_goal goal ∷ [];
                each_in = (sets goal, tt);
                leads = set_leads;
              })
      where
        set_leads : set_goal goal p.ledger ≡ run (sets_goal goal ∷ []) p.ledger
        set_leads = sym (run_one (sets_goal goal) p.ledger)

    updates :
        (item : HypothesisItem) (status : String) (l : ResearchLedger)
        → (c : Call) × P c × ((update_hypothesis item status l).0 ≡ call c l)
    unfolding update_hypothesis call
    updates item status l =
        if_induction
          (λ (r : ResearchLedger × Result Refusal Hypothesis). (c : Call) × P c × (r.0 ≡ call c l))
          (status == reopen)
          (λ _. (
            reopens item.id item.evidence_id item.note,
            reopen_in item.id item.evidence_id item.note,
            refl,
          ))
          (λ _. (
            declares item.id item.statement status item.evidence_id item.note,
            declare_in item.id item.statement status item.evidence_id item.note,
            refl,
          ))

    hypothesis_outcome-Calls :
        (old : Option Hypothesis) (r : ResearchLedger × Result Refusal Hypothesis) (p : Progress)
        → (c : Call) × P c × (r.0 ≡ call c p.ledger)
        → Calls P p (hypothesis_outcome u old r p)
    hypothesis_outcome-Calls old r p (c, h, e) =
        one-Calls c p (hypothesis_outcome u old r p) h (hypothesis_outcome-ledger u old r p ∙ e)

    apply_hypothesis-Calls :
        (item : Option HypothesisItem) (p : Progress) → Calls P p (apply_hypothesis u item p)
    unfolding apply_hypothesis
    apply_hypothesis-Calls none p = no-Calls p (refuse malformed_hypothesis p) refl
    apply_hypothesis-Calls (some item) p =
        hypothesis_outcome-Calls (lookup (id_of item.id) p.ledger.hypotheses)
          (update_hypothesis item (status_of u item.status) p.ledger) p
          (updates item (status_of u item.status) p.ledger)

    conclusion_outcome-ledger :
        (old : Option Conclusion) (r : ResearchLedger × Result Refusal Conclusion) (p : Progress)
        → (conclusion_outcome u old r p).ledger ≡ r.0
    unfolding conclusion_outcome
    conclusion_outcome-ledger old (l, ok c) p = refl
    conclusion_outcome-ledger old (l, raise why) p = refl

    apply_conclusion-Calls :
        (item : Option ConclusionItem) (p : Progress)
        → ConclusionIn P item
        → Calls P p (apply_conclusion u item p)
    unfolding apply_conclusion call
    apply_conclusion-Calls none p h = no-Calls p (refuse malformed_conclusion p) refl
    apply_conclusion-Calls (some item) p h =
        one-Calls (concludes item.id item.statement item.premises) p (conclusion_outcome u old r p)
          h (conclusion_outcome-ledger old r p)
      where
        old : Option Conclusion
        old = lookup (id_of item.id) p.ledger.conclusions

        r : ResearchLedger × Result Refusal Conclusion
        r = add_conclusion item.id item.statement item.premises p.ledger

    retract_target-Calls :
        (eid retracts : String) (change_note summary : Option String)
        (target : Option EvidenceRecord) (p : Progress)
        → Calls P p (retract_target eid retracts change_note summary target p)
    unfolding retract_target call
    retract_target-Calls eid retracts change_note summary none p =
        no-Calls p (report (no_target eid retracts) p) refl
    retract_target-Calls eid retracts change_note summary (some target) p =
        one-Calls
          (adds_evidence (some retracts) (some target.summary) (some target.source) (some true)
            (some (reason_of change_note summary target.note)))
          p (retract_target eid retracts change_note summary (some target) p)
          (corrects (some retracts) (some target.summary) (some target.source)
            (some (reason_of change_note summary target.note)))
          refl

    register-ledger :
        (live_before is_dup identical : Bool) (r : ResearchLedger × Result Refusal EvidenceRecord)
        (p : Progress)
        → (register_outcome live_before is_dup identical r p).ledger ≡ r.0
    unfolding register_outcome
    register-ledger live_before is_dup identical (l, ok e) p = ground arith
    register-ledger live_before is_dup identical (l, raise why) p = refl

    register-Calls :
        (item : EvidenceItem) (eid : String) (existing : Option EvidenceRecord) (p : Progress)
        → P (adds_evidence item.id item.summary item.source item.retracted item.note)
        → Calls P p (register u item eid existing p)
    unfolding register call
    register-Calls item eid existing p h =
        one-Calls (adds_evidence item.id item.summary item.source item.retracted item.note) p
          (register u item eid existing p) h
          (register-ledger _ _ _
            (add_evidence item.id item.summary item.source item.retracted item.note p.ledger) p)

    accept_item-Calls :
        (item : EvidenceItem) (eid retracts : String) (existing : Option EvidenceRecord)
        (verdict : Option Refused) (p : Progress)
        → P (adds_evidence item.id item.summary item.source item.retracted item.note)
        → Calls P p (accept_item u item eid retracts existing verdict p)
    unfolding accept_item
    accept_item-Calls item eid retracts existing (some why) p h = no-Calls p (refuse why p) refl
    accept_item-Calls item eid retracts existing none p h =
        if_induction (λ q. Calls P p (register u item eid existing q)) (retracts == "")
          (λ _. register-Calls item eid existing p h)
          (λ _.
            Calls-trans p q (register u item eid existing q)
              (retract_target-Calls eid retracts item.note item.summary
                (lookup retracts p.ledger.evidence) p)
              (register-Calls item eid existing q h))
      where
        q : Progress
        q = retract_target eid retracts item.note item.summary (lookup retracts p.ledger.evidence) p

    apply_evidence-Calls :
        (item : Option EvidenceItem) (p : Progress)
        → EvidenceIn P item
        → Calls P p (apply_evidence u item p)
    unfolding apply_evidence
    apply_evidence-Calls none p h = no-Calls p (refuse malformed_evidence p) refl
    apply_evidence-Calls (some item) p h =
        accept_item-Calls item (id_of item.id) (id_of item.retracts)
          (lookup (id_of item.id) p.ledger.evidence)
          (check_item (id_of item.id) (bool_of item.retracted) (id_of item.retracts)
            (lookup (id_of item.id) p.ledger.evidence))
          p h

    pub progress-Calls :
        (payload : Payload) (l : ResearchLedger)
        → All (EvidenceIn P) payload.evidence
        → All (ConclusionIn P) payload.conclusions
        → Calls P (begin l) (progress u payload l)
    unfolding progress
    progress-Calls payload l evidence conclusions =
        let p₁ = apply_goal u payload.goal (begin l) in
        let p₂ = each (apply_evidence u) payload.evidence p₁ in
        let p₃ = each (apply_hypothesis u) payload.hypotheses p₂ in
        Calls-trans (begin l) p₁ _ (apply_goal-Calls payload.goal (begin l)) (
          Calls-trans p₁ p₂ _
            (each-Calls (EvidenceIn P) (apply_evidence u) apply_evidence-Calls payload.evidence p₁
              evidence)
            (Calls-trans p₂ p₃ _
              (each-Calls (λ _. Unit) (apply_hypothesis u)
                (λ item p _. apply_hypothesis-Calls item p) payload.hypotheses p₂
                (All-Unit payload.hypotheses))
              (each-Calls (ConclusionIn P) (apply_conclusion u) apply_conclusion-Calls
                payload.conclusions p₃ conclusions)))
