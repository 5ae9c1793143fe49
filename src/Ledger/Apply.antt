-- ===== src/Ledger/Apply.antt =====
-- ledger.py: the hypotheses and the conclusions of `apply_updates_with_status`, and the whole batch.
use autonomous_llm_bot.Prelude.{
  String, Bool, true, false, not, ◌&&◌, ◌||◌, Option, none, some, List, [], ◌∷◌, ◌++◌,
  if◌then◌else◌, ◌==◌, nat_eq, string_eq, Result, ok, raise, is_nil,
}
use autonomous_llm_bot.Dict.{lookup}
use autonomous_llm_bot.Text
use autonomous_llm_bot.Ledger.State.{
  ResearchLedger, active, reopen, Hypothesis, Conclusion, Refusal, text_or_empty, id_of, or_text,
}
use autonomous_llm_bot.Ledger.Duplicates.{Unicode, is_near_duplicate_text}
use autonomous_llm_bot.Ledger.Hypotheses.{declare_hypothesis, reopen_hypothesis}
use autonomous_llm_bot.Ledger.Premises.{add_conclusion, premises_beq, conclusion_is_valid}
use autonomous_llm_bot.Ledger.Batch.{
  Progress, HypothesisItem, ConclusionItem, Payload, LedgerDelta, no_delta, substantive, Applied,
  hypothesis_at, conclusion_marked, Refused, malformed_hypothesis, malformed_conclusion, by_ledger,
  refuse, apply_goal, apply_evidence,
}

-- Whether an accepted hypothesis item counts as a change.
unfoldable pub hypothesis_changed : Unicode → Option Hypothesis → Hypothesis → Bool
hypothesis_changed u none h = true
hypothesis_changed u (some old) h =
    not (old.status == h.status)
    || (not (old.statement == h.statement)
        && not (is_near_duplicate_text u 85 old.statement h.statement))

unfoldable pub hypothesis_outcome :
    Unicode → Option Hypothesis → ResearchLedger × Result Refusal Hypothesis → Progress → Progress
unfolding hypothesis_changed
hypothesis_outcome u old (l, raise why) p = refuse (by_ledger why) (record p { ledger = l })
hypothesis_outcome u old (l, ok h) p = record p {
  ledger = l;
  delta = record (p.delta) {
    hypotheses_changed =
        if hypothesis_changed u old h
        then p.delta.hypotheses_changed ++ h.id ∷ []
        else p.delta.hypotheses_changed;
  };
  applied = p.applied ++ hypothesis_at h.id h.status h.revision ∷ [];
}

-- str(item.get("status") or ACTIVE).strip().lower()
unfoldable pub status_of : Unicode → Option String → String
status_of u status = u.lower (Text.strip (or_text (text_or_empty status) active))

unfoldable pub update_hypothesis :
    HypothesisItem → String → ResearchLedger → ResearchLedger × Result Refusal Hypothesis
update_hypothesis item status l =
    if status == reopen
    then reopen_hypothesis item.id item.evidence_id item.note l
    else declare_hypothesis item.id item.statement status item.evidence_id item.note l

unfoldable pub apply_hypothesis : Unicode → Option HypothesisItem → Progress → Progress
unfolding hypothesis_outcome update_hypothesis
apply_hypothesis u none p = refuse malformed_hypothesis p
apply_hypothesis u (some item) p =
    hypothesis_outcome u (lookup (id_of item.id) p.ledger.hypotheses)
      (update_hypothesis item (status_of u item.status) p.ledger) p

unfoldable pub conclusion_changed : Unicode → Option Conclusion → Conclusion → Bool
conclusion_changed u none c = true
conclusion_changed u (some old) c =
    not (premises_beq old.premises c.premises)
    || (not (old.statement == c.statement)
        && not (is_near_duplicate_text u 85 old.statement c.statement))

unfoldable pub conclusion_outcome :
    Unicode → Option Conclusion → ResearchLedger × Result Refusal Conclusion → Progress → Progress
unfolding conclusion_changed
conclusion_outcome u old (l, raise why) p = refuse (by_ledger why) (record p { ledger = l })
conclusion_outcome u old (l, ok c) p = record p {
  ledger = l;
  delta = record (p.delta) {
    conclusions_changed =
        if conclusion_changed u old c
        then p.delta.conclusions_changed ++ c.id ∷ []
        else p.delta.conclusions_changed;
  };
  applied = p.applied ++ conclusion_marked c.id (conclusion_is_valid (some c.id) l) ∷ [];
}

unfoldable pub apply_conclusion : Unicode → Option ConclusionItem → Progress → Progress
unfolding conclusion_outcome
apply_conclusion u none p = refuse malformed_conclusion p
apply_conclusion u (some item) p =
    conclusion_outcome u (lookup (id_of item.id) p.ledger.conclusions)
      (add_conclusion item.id item.statement item.premises p.ledger) p

-- for item in items: ...
unfoldable pub each : {A : Type 0} → (A → Progress → Progress) → List A → Progress → Progress
each step [] p = p
each step (a ∷ as') p = each step as' (step a p)

-- `ApplyStatusResult` with the report's parts: the lists, the warning of duplicates, and whether
-- there was nothing to report.
pub record ApplyStatusResult : Type 0 where
  pub applied : List Applied
  pub refused : List Refused
  pub duplicates_only : Bool
  pub nothing_to_apply : Bool
  pub had_refusal : Bool
  pub delta : LedgerDelta

unfoldable pub finish : Progress → ResearchLedger × ApplyStatusResult
unfolding substantive
finish p =
    let duplicates_only = not (is_nil p.delta.duplicate_evidence) && not (substantive p.delta) in
    (
      p.ledger,
      record {
        applied = p.applied;
        refused = p.refused;
        duplicates_only = duplicates_only;
        nothing_to_apply = is_nil p.applied && (is_nil p.refused && not duplicates_only);
        had_refusal = not (is_nil p.refused);
        delta = p.delta;
      },
    )

abbrev pub begin : ResearchLedger → Progress
begin l = record { ledger = l; delta = no_delta; applied = []; refused = [] }

-- The loops of the batch, in order.
unfoldable pub progress : Unicode → Payload → ResearchLedger → Progress
progress u payload l = each (apply_conclusion u) payload.conclusions (
    each (apply_hypothesis u) payload.hypotheses
      (each (apply_evidence u) payload.evidence (apply_goal u payload.goal (begin l))))

-- A payload that is not an object is `none`.
unfoldable pub apply_updates :
    Unicode → Option Payload → ResearchLedger → ResearchLedger × ApplyStatusResult
apply_updates u none l = (
  l,
  record {
    applied = [];
    refused = [];
    duplicates_only = false;
    nothing_to_apply = false;
    had_refusal = true;
    delta = no_delta;
  },
)
apply_updates u (some payload) l = finish (progress u payload l)
