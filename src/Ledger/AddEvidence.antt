-- ===== src/Ledger/AddEvidence.antt =====
-- ledger.py: `add_evidence`.
use autonomous_llm_bot.Prelude.{
  ◌+◌, String, Bool, true, false, ◌&&◌, Option, none, some, if◌then◌else◌, ◌==◌, nat_eq, string_eq,
  ok, raise, bool_beq,
}
use autonomous_llm_bot.Dict.{lookup, insert}
use autonomous_llm_bot.Ledger.State.{
  ResearchLedger, summary_chars, source_chars, note_chars, EvidenceRecord, empty_evidence_id,
  Update, id_of, clip, or_text,
}

-- The equality of the dataclass.
unfoldable pub evidence_beq : EvidenceRecord → EvidenceRecord → Bool
evidence_beq a b =
    a.id == b.id
    && (a.summary == b.summary
        && (a.source == b.source && (bool_beq a.retracted b.retracted && a.note == b.note)))

unfoldable pub bool_of : Option Bool → Bool
bool_of none = false
bool_of (some b) = b

unfoldable pub keep_flag : Option Bool → Bool → Bool
keep_flag none old = old
keep_flag (some b) old = b

-- The record that `add_evidence` builds, from the one that is there.
unfoldable pub evidence_record :
    String
    → Option EvidenceRecord
    → Option String
    → Option String
    → Option Bool
    → Option String
    → EvidenceRecord
unfolding bool_of keep_flag
evidence_record k none summary source retracted note = record {
  id = k;
  summary = clip summary summary_chars;
  source = clip source source_chars;
  retracted = bool_of retracted;
  note = clip note note_chars;
}
evidence_record k (some old) summary source retracted note = record {
  id = k;
  summary = or_text (clip summary summary_chars) old.summary;
  source = or_text (clip source source_chars) old.source;
  retracted = keep_flag retracted old.retracted;
  note = or_text (clip note note_chars) old.note;
}

abbrev pub same_evidence : Option EvidenceRecord → EvidenceRecord → Bool
same_evidence none r = false
same_evidence (some old) r = evidence_beq old r

unfoldable pub store_evidence : String → EvidenceRecord → Bool → ResearchLedger → ResearchLedger
store_evidence k r true l = l
store_evidence k r false l = record l {
  evidence = insert k r l.evidence;
  revision = l.revision + 1;
}

unfoldable pub add_evidence :
    Option String
    → Option String
    → Option String
    → Option Bool
    → Option String
    → Update EvidenceRecord
unfolding evidence_record store_evidence
add_evidence evidence_id summary source retracted note l =
    let k = id_of evidence_id in
    if k == ""
    then (l, raise empty_evidence_id)
    else (let old = lookup k l.evidence in
        let r = evidence_record k old summary source retracted note in
        (store_evidence k r (same_evidence old r) l, ok r))
