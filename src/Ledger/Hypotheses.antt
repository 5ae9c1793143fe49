-- ===== src/Ledger/Hypotheses.antt =====
-- ledger.py: `declare_hypothesis`, `reopen_hypothesis`, `_transition` and what they check.
use autonomous_llm_bot.Prelude.{
  ◌+◌, String, Bool, true, false, not, ◌&&◌, Option, none, some, List, [], ◌∷◌, ◌++◌, if◌then◌else◌,
  ◌==◌, nat_eq, string_eq, contains, Result, ok, raise, ◌>>=◌,
}
use autonomous_llm_bot.Dict.{lookup, insert}
use autonomous_llm_bot.Ledger.State.{
  ResearchLedger, active, rejected, transition_statuses, statement_chars, note_chars, Transition,
  Hypothesis, EvidenceRecord, Refusal, empty_hypothesis_id, evidence_required, bad_status,
  already_rejected, already_cited, unknown_hypothesis, unknown_evidence, retracted_evidence, Update,
  text_or_empty, id_of, clip,
}

-- `_require_evidence`: no state is written, so only the verdict comes back.
abbrev pub live_verdict : String → Option EvidenceRecord → Result Refusal Unit
live_verdict k none = raise (unknown_evidence k)
live_verdict k (some e) = if e.retracted then raise (retracted_evidence k) else ok tt

unfoldable pub require_evidence : Option String → Bool → ResearchLedger → Result Refusal Unit
require_evidence evidence_id optional l =
    let k = id_of evidence_id in
    if k == ""
    then (if optional then ok tt else raise evidence_required)
    else live_verdict k (lookup k l.evidence)

abbrev pub found_hypothesis : Option String → Option Hypothesis → Result Refusal Hypothesis
found_hypothesis hypothesis_id none = raise (unknown_hypothesis hypothesis_id)
found_hypothesis hypothesis_id (some h) = ok h

unfoldable pub require_hypothesis : Option String → ResearchLedger → Result Refusal Hypothesis
require_hypothesis hypothesis_id l =
    found_hypothesis hypothesis_id (lookup (id_of hypothesis_id) l.hypotheses)

-- [t.evidence_id for t in transitions if t.evidence_id]
unfoldable pub cited_by : List Transition → List String
cited_by [] = []
cited_by (t ∷ ts) =
    let rest = cited_by ts in if t.evidence_id == "" then rest else t.evidence_id ∷ rest

unfoldable pub cited_evidence : Option String → ResearchLedger → Result Refusal (List String)
unfolding cited_by
cited_evidence hypothesis_id l = do
  h ← require_hypothesis hypothesis_id l
  ok (cited_by h.transitions)

-- The hypothesis that a transition leaves behind.
unfoldable pub moved : Hypothesis → String → String → Option String → Hypothesis
moved h status evidence_id note = record h {
  status = status;
  revision = h.revision + 1;
  transitions =
      h.transitions
      ++ record {
        revision = h.revision + 1;
        status = status;
        evidence_id = evidence_id;
        note = clip note note_chars;
      }
        ∷ [];
}

-- What `_transition` checks before it writes.
unfoldable pub may_transition :
    Hypothesis → String → Option String → Bool → ResearchLedger → Result Refusal Unit
unfolding require_evidence
may_transition h status evidence_id is_reopen l =
    if h.status == rejected && (status == active && not is_reopen)
    then raise (already_rejected h.id h.status h.revision)
    else (do
      _ ← require_evidence evidence_id (not is_reopen && status == active) l
      cited ← (if is_reopen then cited_evidence (some h.id) l else ok [])
      (if contains cited (id_of evidence_id)
          then raise (already_cited h.id h.status h.revision (id_of evidence_id))
          else ok tt))

unfoldable pub commit_transition :
    String
    → Hypothesis
    → String
    → Option String
    → Option String
    → Result Refusal Unit
    → Update Hypothesis
commit_transition k h status evidence_id _ (raise e) l = (l, raise e)
commit_transition k h status evidence_id note (ok _) l =
    let h' = moved h status (id_of evidence_id) note in
    (record l { hypotheses = insert k h' l.hypotheses; revision = l.revision + 1 }, ok h')

-- `_transition` on the hypothesis `h` that stands under the key `k`, and is written there in place.
unfoldable pub transition :
    String → Hypothesis → String → Option String → Option String → Bool → Update Hypothesis
unfolding commit_transition
transition k h status evidence_id note is_reopen l =
    commit_transition k h status evidence_id note (may_transition h status evidence_id is_reopen l)
      l

-- The hypothesis that a first declaration stores.
abbrev pub first_hypothesis : String → String → String → String → Option String → Hypothesis
first_hypothesis k statement status evidence_id note = record {
  id = k;
  statement = statement;
  status = status;
  revision = 1;
  transitions =
      record {
        revision = 1;
        status = status;
        evidence_id = evidence_id;
        note = clip note note_chars;
      }
      ∷ [];
}

-- The first branch of `declare_hypothesis`: the id is new.
unfoldable pub first_declaration :
    String
    → Option String
    → String
    → Option String
    → Option String
    → Result Refusal Unit
    → Update Hypothesis
first_declaration k statement status evidence_id _ (raise e) l = (l, raise e)
first_declaration k statement status evidence_id note (ok _) l =
    let h =
      first_hypothesis k (clip statement statement_chars) status (text_or_empty evidence_id) note in
    (record l { hypotheses = insert k h l.hypotheses; revision = l.revision + 1 }, ok h)

-- The corrected statement, which is written before the transition is tried.
unfoldable pub restated :
    String → Hypothesis → String → ResearchLedger → Hypothesis × ResearchLedger
restated k h statement l =
    if not (statement == "") && not (statement == h.statement)
    then (let h' = record h { statement = statement } in
        (h', record l { hypotheses = insert k h' l.hypotheses; revision = l.revision + 1 }))
    else (h, l)

unfoldable pub later_declaration :
    String
    → String
    → Option String
    → Option String
    → Hypothesis × ResearchLedger
    → ResearchLedger × Result Refusal Hypothesis
later_declaration k status evidence_id note (h, l) =
    if not (status == h.status) then transition k h status evidence_id note false l else (l, ok h)

unfoldable pub declare_known :
    String
    → Option Hypothesis
    → Option String
    → String
    → Option String
    → Option String
    → Update Hypothesis
unfolding first_declaration restated later_declaration
declare_known k none statement status evidence_id note l =
    first_declaration k statement status evidence_id note (require_evidence evidence_id true l) l
declare_known k (some h) statement status evidence_id note l =
    later_declaration k status evidence_id note (restated k h (clip statement statement_chars) l)

unfoldable pub declare_hypothesis :
    Option String → Option String → String → Option String → Option String → Update Hypothesis
unfolding declare_known
declare_hypothesis hypothesis_id statement status evidence_id note l =
    let k = id_of hypothesis_id in
    if k == ""
    then (l, raise empty_hypothesis_id)
    else if not (contains transition_statuses status)
    then (l, raise (bad_status status))
    else declare_known k (lookup k l.hypotheses) statement status evidence_id note l

unfoldable pub reopen_found :
    String → Option String → Option String → Result Refusal Hypothesis → Update Hypothesis
reopen_found k evidence_id _ (raise e) l = (l, raise e)
reopen_found k evidence_id note (ok h) l = transition k h active evidence_id note true l

unfoldable pub reopen_hypothesis : Option String → Option String → Option String → Update Hypothesis
unfolding reopen_found
reopen_hypothesis hypothesis_id evidence_id note l =
    reopen_found (id_of hypothesis_id) evidence_id note (require_hypothesis hypothesis_id l) l
