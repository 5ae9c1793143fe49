-- ===== src/Ledger/Tests.antt =====
-- The theorems of ledger.py at one small ledger: a hypothesis that evidence rejected, a second one
-- that a conclusion rests on, and retracted evidence.
use autonomous_llm_bot.Prelude.{
  code, ◌≡◌, refl, subst, ◌≢◌, ◌↔◌, inr, true, false, not, none, some, List, [], ◌∷◌, arith, ◌==◌,
  nat_eq, string_eq, All, contains, ok, raise, eq_iff,
}
use autonomous_llm_bot.Dict.{lookup, insert}
use autonomous_llm_bot.Text.{strip, prefix, split, join, is_space}
use autonomous_llm_bot.Text
use autonomous_llm_bot.Json.{object}
use autonomous_llm_bot.Ledger.Markers.{to_dict}
use autonomous_llm_bot.Ledger.Restore.{Convert, untyped, from_dict}
use autonomous_llm_bot.Ledger.Restoring.{run-restored}
use autonomous_llm_bot.Ledger.State.{
  ResearchLedger, new, active, rejected, Hypothesis, id_of, clip, EvidenceRecord, Conclusion,
  already_cited, confirmed, statement_chars, already_rejected,
}
use autonomous_llm_bot.Ledger.AddEvidence.{add_evidence}
use autonomous_llm_bot.Ledger.Hypotheses.{
  transition, first_hypothesis, require_evidence, declare_hypothesis, require_hypothesis,
  cited_evidence, moved, may_transition, reopen_hypothesis,
}
use autonomous_llm_bot.Ledger.Premises.{
  add_conclusion, is_stale, stale_premises, conclusion_is_valid,
}
use autonomous_llm_bot.Ledger.Duplicates.{Unicode}
use autonomous_llm_bot.Ledger.Batch.{Payload}
use autonomous_llm_bot.Ledger.Apply.{apply_updates}
use autonomous_llm_bot.Ledger.Calls.{
  Call, adds_evidence, declares, concludes, run, run-new-IsConsistent, call,
}
use autonomous_llm_bot.Ledger.Evolution.{Evolves}
use autonomous_llm_bot.Ledger.Invariant.{Every}
use autonomous_llm_bot.Ledger.History.{IsConsistent}
use autonomous_llm_bot.Ledger.Rules.{NotRevived, Grows, declare-NotRevived}
use autonomous_llm_bot.Ledger.Reopening.{IsLive, IsFresh, reopen-ok_iff}
use autonomous_llm_bot.Ledger.Validity.{Holds, conclusion_is_valid_iff}
use autonomous_llm_bot.Ledger.Retraction.{IsRetracted, NotRestoring}
use autonomous_llm_bot.Ledger.Batches.{
  batch-Grows, batch-IsConsistent, batch-IsRetracted, batch-invalidates,
}
use autonomous_llm_bot.Ledger.Loopholes.{
  revived_by_declarations, padded_evidence_reused, refused_declaration_writes,
}

abbrev calls : List Call
calls =
    adds_evidence (some "e1") (some "log line") (some "src") none none
    ∷ adds_evidence (some "e2") (some "trace") none none none
    ∷ adds_evidence (some "e3") (some "gone") none (some true) none
    ∷ declares (some "h1") (some "cache is stale") rejected (some "e1") none
    ∷ declares (some "h2") (some "clock is slow") active (some "e2") none
    ∷ concludes (some "c1") (some "blame the clock") (some "h2" ∷ [])
    ∷ []

abbrev h1 : Hypothesis
h1 = first_hypothesis "h1" "cache is stale" rejected "e1" none

abbrev h2 : Hypothesis
h2 = first_hypothesis "h2" "clock is slow" active "e2" none

abbrev log_line : EvidenceRecord
log_line = record { id = "e1"; summary = "log line"; source = "src"; retracted = false; note = "" }

abbrev trace : EvidenceRecord
trace = record { id = "e2"; summary = "trace"; source = ""; retracted = false; note = "" }

abbrev gone : EvidenceRecord
gone = record { id = "e3"; summary = "gone"; source = ""; retracted = true; note = "" }

abbrev c1 : Conclusion
c1 = record { id = "c1"; statement = "blame the clock"; premises = ("h2", 1) ∷ [] }

abbrev small : ResearchLedger
small = record {
  goal = "";
  revision = 6;
  evidence = ("e1", log_line) ∷ ("e2", trace) ∷ ("e3", gone) ∷ [];
  hypotheses = ("h1", h1) ∷ ("h2", h2) ∷ [];
  conclusions = ("c1", c1) ∷ [];
}

built : run calls new ≡ small
unfolding run call add_evidence declare_hypothesis add_conclusion transition require_evidence insert
    lookup clip id_of strip contains Text.split Text.join Text.prefix Text.is_space
built = refl

small-IsConsistent : Every IsConsistent small.hypotheses
small-IsConsistent =
    subst (λ (l : ResearchLedger). Every IsConsistent l.hypotheses) built
      (run-new-IsConsistent calls)

h1_there : lookup (id_of (some "h1")) small.hypotheses ≡ some h1
unfolding lookup id_of strip Text.is_space
h1_there = refl

c1_there : lookup (id_of (some "c1")) small.conclusions ≡ some c1
unfolding lookup id_of strip Text.is_space
c1_there = refl

e2-IsLive : IsLive (id_of (some "e2")) small
unfolding lookup id_of strip Text.is_space
e2-IsLive = (trace, refl, refl)

e3-IsRetracted : IsRetracted "e3" small
unfolding lookup
e3-IsRetracted = (gone, refl, refl)

declare-NotRevived_example :
    Evolves NotRevived small.hypotheses
      (declare_hypothesis (some "h1") none active (some "e2") none small).0.hypotheses
declare-NotRevived_example = declare-NotRevived (some "h1") none active (some "e2") none small

-- The old evidence is refused, the new evidence is not.
e1_refused :
    (reopen_hypothesis (some "h1") (some "e1") none small).1
    ≡ raise (already_cited "h1" rejected 1 "e1")
unfolding reopen_hypothesis require_hypothesis transition may_transition require_evidence
    cited_evidence lookup contains id_of strip Text.is_space
e1_refused = refl

reopen-ok_iff_example :
    ((reopen_hypothesis (some "h1") (some "e2") none small).1
      ≡ ok (moved h1 active (id_of (some "e2")) none))
    ↔ IsFresh h1 (id_of (some "e2")) small
reopen-ok_iff_example =
    reopen-ok_iff (some "h1") (some "e2") none h1 small small-IsConsistent h1_there

abbrev convert : Convert
convert = record { str = λ v. "?"; to_int = λ v. raise untyped }

run-restored_example : from_dict convert (object (to_dict (run calls new))) ≡ ok (run calls new)
run-restored_example = run-restored convert calls

abbrev later : List Call
later =
    adds_evidence (some "e3") (some "once more") none none none
    ∷ declares (some "h2") none rejected (some "e1") none
    ∷ []

later-NotRestoring : All (NotRestoring "e3") later
later-NotRestoring = (inr (λ e. cc), (tt, tt))

conclusion_is_valid_iff_example :
    (conclusion_is_valid (some "c1") small ≡ ok true)
    ↔ All (Holds small.hypotheses) (("h2", 1) ∷ [])
conclusion_is_valid_iff_example = conclusion_is_valid_iff (some "c1") c1 small c1_there

c1_valid : conclusion_is_valid (some "c1") small ≡ ok true
unfolding conclusion_is_valid stale_premises is_stale lookup id_of strip Text.is_space
c1_valid = refl

-- The small ledger, once the hypothesis behind the conclusion was rejected.
abbrev h2_rejected : Hypothesis
h2_rejected = record h2 { status = rejected; revision = 2 }

abbrev overtaken : ResearchLedger
overtaken = record small { hypotheses = ("h1", h1) ∷ ("h2", h2_rejected) ∷ [] }

h2_there : lookup "h2" overtaken.hypotheses ≡ some h2_rejected
unfolding lookup
h2_there = refl

c1_still_there : lookup (id_of (some "c1")) overtaken.conclusions ≡ some c1
unfolding lookup id_of strip Text.is_space
c1_still_there = refl

h2_pinned : lookup "h2" c1.premises ≡ some 1
unfolding lookup
h2_pinned = refl

abbrev unicode : Unicode
unicode = record { lower = λ s. s; is_word = λ c. not (code c == 45) }

abbrev batch_payload : Payload
batch_payload = record {
  goal = some "find the fault";
  evidence =
      some (record {
        id = some "e4";
        summary = some "a fresh trace";
        source = none;
        retracted = none;
        retracts = some "e2";
        note = none;
      })
      ∷ none
      ∷ [];
  hypotheses =
      some (record {
        id = some "h1";
        statement = none;
        status = some "reopen";
        evidence_id = some "e4";
        note = none;
      })
      ∷ [];
  conclusions =
      some (record { id = some "c2"; statement = some "both"; premises = some "h1" ∷ [] }) ∷ [];
}

batch-Grows_example :
    Evolves Grows small.hypotheses (apply_updates unicode (some batch_payload) small).0.hypotheses
batch-Grows_example = batch-Grows unicode (some batch_payload) small

batch-IsConsistent_example :
    Every IsConsistent (apply_updates unicode (some batch_payload) small).0.hypotheses
batch-IsConsistent_example =
    batch-IsConsistent unicode (some batch_payload) small small-IsConsistent

batch-IsRetracted_example : IsRetracted "e3" (apply_updates unicode (some batch_payload) small).0
batch-IsRetracted_example =
    batch-IsRetracted unicode "e3" batch_payload small (inr (λ e. cc), (tt, tt)) e3-IsRetracted

other_conclusion : id_of (some "c2") ≢ id_of (some "c1")
unfolding id_of strip Text.is_space
other_conclusion e = ground (arith, eq_iff "c2" "c1")

batch-invalidates_example :
    conclusion_is_valid (some "c1") (apply_updates unicode (some batch_payload) overtaken).0
    ≢ ok true
batch-invalidates_example =
    batch-invalidates unicode (some "c1") c1 "h2" 1 h2_rejected batch_payload overtaken
      c1_still_there h2_pinned h2_there (omega arith) (other_conclusion, tt)

h1_named : id_of (some "h1") ≢ ""
unfolding id_of strip Text.is_space
h1_named e = ground (arith, eq_iff "h1" "")

e1_named : id_of (some "e1") ≢ ""
unfolding id_of strip Text.is_space
e1_named e = ground (arith, eq_iff "e1" "")

e1-IsLive : IsLive (id_of (some "e1")) small
unfolding lookup id_of strip Text.is_space
e1-IsLive = (log_line, refl, refl)

-- The hypothesis comes back by the evidence that rejected it.
revived_by_declarations_example :
    let m = (declare_hypothesis (some "h1") none confirmed (some "e1") none small).0 in
    let n = (declare_hypothesis (some "h1") none active none none m).0 in
    (h' : Hypothesis) × (lookup (id_of (some "h1")) n.hypotheses ≡ some h') × (h'.status ≡ active)
revived_by_declarations_example =
    revived_by_declarations (some "h1") (some "e1") h1 small h1_named h1_there refl e1_named
      e1-IsLive

h3_named : id_of (some "h3") ≢ ""
unfolding id_of strip Text.is_space
h3_named e = ground (arith, eq_iff "h3" "")

h3_absent : lookup (id_of (some "h3")) small.hypotheses ≡ none
unfolding lookup id_of strip Text.is_space
h3_absent = refl

padded : strip " e2" ≢ " e2"
unfolding strip Text.is_space
padded e = ground (arith, eq_iff "e2" " e2")

padded_named : strip " e2" ≢ ""
unfolding strip Text.is_space
padded_named e = ground (arith, eq_iff "e2" "")

padded-IsLive : IsLive (strip " e2") small
unfolding lookup strip Text.is_space
padded-IsLive = (trace, refl, refl)

padded_evidence_reused_example :
    let m = (declare_hypothesis (some "h3") none rejected (some " e2") none small).0 in
    (h' : Hypothesis) × ((reopen_hypothesis (some "h3") (some " e2") none m).1 ≡ ok h')
    × (h'.status ≡ active)
padded_evidence_reused_example =
    padded_evidence_reused (some "h3") " e2" small small-IsConsistent h3_named h3_absent padded
      padded_named padded-IsLive

new_statement : clip (some "cache was stale") statement_chars ≢ ""
unfolding clip Text.split Text.join Text.prefix Text.is_space
new_statement e = ground (arith, eq_iff "cache was stale" "")

other_statement : clip (some "cache was stale") statement_chars ≢ h1.statement
unfolding clip Text.split Text.join Text.prefix Text.is_space
other_statement e = ground (arith, eq_iff "cache was stale" "cache is stale")

refused_declaration_writes_example :
    let (m, result) =
      declare_hypothesis (some "h1") (some "cache was stale") active none none small in
    (result ≡ raise (already_rejected "h1" rejected 1))
    × (m.revision ≡ 7)
    × (lookup (id_of (some "h1")) m.hypotheses
        ≡ some (record h1 { statement = clip (some "cache was stale") statement_chars }))
refused_declaration_writes_example =
    refused_declaration_writes (some "h1") (some "cache was stale") none none h1 small h1_named
      h1_there refl new_statement other_statement
