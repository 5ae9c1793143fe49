-- ===== src/Ledger/Markers.antt =====
-- ledger.py: the markers that a summary must keep, and the snapshot of the whole ledger.
use autonomous_llm_bot.Prelude.{
  ℕ, String, Option, some, List, [], ◌∷◌, ◌++◌, map, if◌then◌else◌, nat_eq, string_eq, Result, ok,
  ◌>>=◌,
}
use autonomous_llm_bot.Json.{
  boolean, number, text, array, object, Values, no_values, item, Fields, no_fields, field,
}
use autonomous_llm_bot.Dict.{Dict, keys, values}
use autonomous_llm_bot.Text
use autonomous_llm_bot.Ledger.State.{
  ResearchLedger, Transition, Hypothesis, EvidenceRecord, Conclusion, Refusal,
}
use autonomous_llm_bot.Ledger.Hypotheses.{require_hypothesis}
use autonomous_llm_bot.Ledger.Premises.{conclusion_is_valid}
use Prim.Native.String.{◌++◌ as append}

-- `Hypothesis.marker`
unfoldable pub marker : Hypothesis → String
marker h = append h.id (append "=" (append h.status (append "@v" (Text.decimal h.revision))))

unfoldable pub hypothesis_marker : Option String → ResearchLedger → Result Refusal String
hypothesis_marker hypothesis_id l = do h ← require_hypothesis hypothesis_id l; ok (marker h)

unfoldable pub conclusion_marker : String → ResearchLedger → Result Refusal String
conclusion_marker conclusion_id l = do
  valid ← conclusion_is_valid (some conclusion_id) l
  ok (append conclusion_id (append "=" (if valid then "유효" else "무효")))

unfoldable pub conclusion_markers : List String → ResearchLedger → Result Refusal (List String)
conclusion_markers [] l = ok []
conclusion_markers (c ∷ cs) l = do
  first ← conclusion_marker c l
  rest ← conclusion_markers cs l
  ok (first ∷ rest)

unfoldable pub state_markers : ResearchLedger → Result Refusal (List String)
state_markers l = do
  conclusions ← conclusion_markers (keys l.conclusions) l
  ok (map marker (values l.hypotheses) ++ (conclusions ++ keys l.evidence))

-- `asdict` of the records.
abbrev pub transition_fields : Transition → Fields
transition_fields t = field "revision" (number t.revision) (
    field "status" (text t.status)
      (field "evidence_id" (text t.evidence_id) (field "note" (text t.note) no_fields)))

abbrev pub evidence_fields : EvidenceRecord → Fields
evidence_fields e = field "id" (text e.id) (
    field "summary" (text e.summary) (
      field "source" (text e.source)
        (field "retracted" (boolean e.retracted) (field "note" (text e.note) no_fields))))

unfoldable pub objects : {A : Type 0} → (A → Fields) → List A → Values
objects fields [] = no_values
objects fields (a ∷ rest) = item (object (fields a)) (objects fields rest)

abbrev pub hypothesis_fields : Hypothesis → Fields
hypothesis_fields h = field "id" (text h.id) (
    field "statement" (text h.statement) (
      field "status" (text h.status) (
        field "revision" (number h.revision)
          (field "transitions" (array (objects transition_fields h.transitions)) no_fields))))

unfoldable pub premise_fields : Dict String ℕ → Fields
premise_fields [] = no_fields
premise_fields ((p, n) ∷ rest) = field p (number n) (premise_fields rest)

abbrev pub conclusion_fields : Conclusion → Fields
conclusion_fields c = field "id" (text c.id) (
    field "statement" (text c.statement)
      (field "premises" (object (premise_fields c.premises)) no_fields))

unfoldable pub to_dict : ResearchLedger → Fields
unfolding objects premise_fields
to_dict l = field "goal" (text l.goal) (
    field "revision" (number l.revision) (
      field "evidence" (array (objects evidence_fields (values l.evidence))) (
        field "hypotheses" (array (objects hypothesis_fields (values l.hypotheses))) (
          field "conclusions" (array (objects conclusion_fields (values l.conclusions)))
            no_fields))))
