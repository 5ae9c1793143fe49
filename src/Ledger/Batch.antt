-- ===== src/Ledger/Batch.antt =====
-- ledger.py: the goal and the evidence of `apply_updates_with_status`, and the data of the batch. An item that is not an object is `none`; a key that an
-- object lacks is `none`. The report is kept as data: what it lists under 반영 and under 거부, and
-- whether it warns of duplicates.
use autonomous_llm_bot.Prelude.{
  ℕ, String, Bool, true, false, not, ◌&&◌, ◌||◌, Option, none, some, List, [], ◌∷◌, ◌++◌,
  if◌then◌else◌, ◌==◌, nat_eq, string_eq, Result, ok, raise, bool_beq, is_nil,
}
use autonomous_llm_bot.Dict.{Dict, lookup}
use autonomous_llm_bot.Text
use autonomous_llm_bot.Ledger.State.{
  ResearchLedger, EvidenceRecord, Refusal, text_or_empty, id_of, or_text, set_goal,
}
use autonomous_llm_bot.Ledger.Duplicates.{
  Unicode, is_near_duplicate_text, contained, is_duplicate_evidence,
}
use autonomous_llm_bot.Ledger.AddEvidence.{add_evidence, bool_of}

pub record EvidenceItem : Type 0 where
  pub id : Option String
  pub summary : Option String
  pub source : Option String
  pub retracted : Option Bool
  pub retracts : Option String
  pub note : Option String

pub record HypothesisItem : Type 0 where
  pub id : Option String
  pub statement : Option String
  pub status : Option String
  pub evidence_id : Option String
  pub note : Option String

pub record ConclusionItem : Type 0 where
  pub id : Option String
  pub statement : Option String
  pub premises : List (Option String)

pub record Payload : Type 0 where
  pub goal : Option String
  pub evidence : List (Option EvidenceItem)
  pub hypotheses : List (Option HypothesisItem)
  pub conclusions : List (Option ConclusionItem)

-- `LedgerDelta`
pub record LedgerDelta : Type 0 where
  pub new_evidence : List String
  pub duplicate_evidence : List String
  pub retracted_evidence : List String
  pub hypotheses_changed : List String
  pub conclusions_changed : List String
  pub goal_changed : Bool

abbrev pub no_delta : LedgerDelta
no_delta = record {
  new_evidence = [];
  duplicate_evidence = [];
  retracted_evidence = [];
  hypotheses_changed = [];
  conclusions_changed = [];
  goal_changed = false;
}

unfoldable pub substantive : LedgerDelta → Bool
substantive d =
    not (is_nil d.new_evidence)
    || (not (is_nil d.retracted_evidence)
        || (not (is_nil d.hypotheses_changed)
            || (not (is_nil d.conclusions_changed) || d.goal_changed)))

-- The entries of `applied`.
pub data Applied : Type 0 where
  goal_updated : String → Applied
  evidence_recorded evidence_retracted evidence_duplicate : String → Applied
  no_target : String → String → Applied
  hypothesis_at : String → String → ℕ → Applied
  conclusion_marked : String → Result Refusal Bool → Applied

-- The entries of `refused`.
pub data Refused : Type 0 where
  malformed_evidence malformed_hypothesis malformed_conclusion : Refused
  retracted_and_retracts : String → String → Refused
  retracts_itself : String → Refused
  corrects_by_retracted : String → Refused
  nothing_to_retract : String → Refused
  correction_without_id : String → Refused
  by_ledger : Refusal → Refused

pub record Progress : Type 0 where
  pub ledger : ResearchLedger
  pub delta : LedgerDelta
  pub applied : List Applied
  pub refused : List Refused

abbrev pub refuse : Refused → Progress → Progress
refuse why p = record p { refused = p.refused ++ why ∷ [] }

abbrev pub report : Applied → Progress → Progress
report what p = record p { applied = p.applied ++ what ∷ [] }

unfoldable pub apply_goal : Unicode → Option String → Progress → Progress
apply_goal u goal p =
    if text_or_empty goal == ""
    then p
    else (let l = set_goal goal p.ledger in
        if l.goal == p.ledger.goal then record p { ledger = l } else record p {
          ledger = l;
          delta = record (p.delta) {
            goal_changed = not (
                is_near_duplicate_text u 85 p.ledger.goal l.goal
                || contained u 80 p.ledger.goal l.goal);
          };
          applied = p.applied ++ goal_updated l.goal ∷ [];
        })

abbrev pub is_some {ℓ} : {A : Type ℓ} → Option A → Bool
is_some none = false
is_some (some a) = true

abbrev pub was_retracted : Option EvidenceRecord → Bool
was_retracted none = false
was_retracted (some e) = e.retracted

-- The checks that come before any change, first match first.
unfoldable pub check_item : String → Bool → String → Option EvidenceRecord → Option Refused
check_item eid is_retract retracts existing =
    if not (retracts == "") && is_retract
    then some (retracted_and_retracts eid retracts)
    else if not (retracts == "") && retracts == eid
    then some (retracts_itself eid)
    else if not (retracts == "") && was_retracted existing
    then some (corrects_by_retracted eid)
    else if is_retract && not (is_some existing)
    then some (nothing_to_retract eid)
    else if not (retracts == "") && eid == ""
    then some (correction_without_id retracts)
    else none

-- str(note or summary or "").strip(), or else the old note
abbrev pub reason_of : Option String → Option String → String → String
reason_of note summary old =
    or_text (Text.strip (or_text (text_or_empty note) (text_or_empty summary))) old

-- What a correction does to the item that it points at.
unfoldable pub retract_target :
    String → String → Option String → Option String → Option EvidenceRecord → Progress → Progress
retract_target eid retracts _ summary none p = report (no_target eid retracts) p
retract_target eid retracts note summary (some target) p = record p {
  ledger =
      (add_evidence (some retracts) (some target.summary) (some target.source) (some true)
        (some (reason_of note summary target.note)) p.ledger).0;
  delta = record (p.delta) {
    retracted_evidence =
        if target.retracted
        then p.delta.retracted_evidence
        else p.delta.retracted_evidence ++ retracts ∷ [];
  };
  applied = p.applied ++ evidence_retracted retracts ∷ [];
}

abbrev pub is_existing_identical : EvidenceItem → Option EvidenceRecord → Bool
is_existing_identical item none = false
is_existing_identical item (some e) =
    e.summary == text_or_empty item.summary
    && (e.source == text_or_empty item.source
        && (bool_beq e.retracted (bool_of item.retracted) && e.note == text_or_empty item.note))

unfoldable pub duplicates_any : Unicode → String → String → Dict String EvidenceRecord → Bool
duplicates_any u eid summary [] = false
duplicates_any u eid summary ((ext_id, e) ∷ rest) =
    (not (e.retracted || ext_id == eid) && is_duplicate_evidence u eid summary ext_id e.summary)
    || duplicates_any u eid summary rest

-- How a registered item counts.
unfoldable pub classify : Bool → Bool → Bool → EvidenceRecord → Progress → Progress
classify live_before is_dup identical e p =
    if e.retracted
    then record p {
      delta = record (p.delta) {
        retracted_evidence =
            if live_before
            then p.delta.retracted_evidence ++ e.id ∷ []
            else p.delta.retracted_evidence;
      };
      applied = p.applied ++ evidence_retracted e.id ∷ [];
    }
    else if is_dup
    then record p {
      delta = record (p.delta) { duplicate_evidence = p.delta.duplicate_evidence ++ e.id ∷ [] };
      applied = p.applied ++ evidence_duplicate e.id ∷ [];
    }
    else if identical
    then report (evidence_recorded e.id) p
    else record p {
      delta = record (p.delta) { new_evidence = p.delta.new_evidence ++ e.id ∷ [] };
      applied = p.applied ++ evidence_recorded e.id ∷ [];
    }

unfoldable pub register_outcome :
    Bool → Bool → Bool → ResearchLedger × Result Refusal EvidenceRecord → Progress → Progress
unfolding classify
register_outcome live_before is_dup identical (l, raise why) p =
    refuse (by_ledger why) (record p { ledger = l })
register_outcome live_before is_dup identical (l, ok e) p =
    classify live_before is_dup identical e (record p { ledger = l })

-- An item that passed the checks. `existing` is the record from before the target was retracted.
unfoldable pub register :
    Unicode → EvidenceItem → String → Option EvidenceRecord → Progress → Progress
unfolding duplicates_any register_outcome
register u item eid existing p =
    register_outcome (not (was_retracted existing))
      (not (bool_of item.retracted || was_retracted existing)
        && duplicates_any u eid (text_or_empty item.summary) p.ledger.evidence)
      (is_existing_identical item existing)
      (add_evidence item.id item.summary item.source item.retracted item.note p.ledger) p

unfoldable pub accept_item :
    Unicode
    → EvidenceItem
    → String
    → String
    → Option EvidenceRecord
    → Option Refused
    → Progress
    → Progress
unfolding retract_target register
accept_item u item eid retracts existing (some why) p = refuse why p
accept_item u item eid retracts existing none p = register u item eid existing (
    if retracts == ""
    then p
    else retract_target eid retracts item.note item.summary (lookup retracts p.ledger.evidence) p)

unfoldable pub apply_evidence : Unicode → Option EvidenceItem → Progress → Progress
unfolding check_item accept_item
apply_evidence u none p = refuse malformed_evidence p
apply_evidence u (some item) p =
    let eid = id_of item.id in
    let retracts = id_of item.retracts in
    let existing = lookup eid p.ledger.evidence in
    accept_item u item eid retracts existing
      (check_item eid (bool_of item.retracted) retracts existing) p
