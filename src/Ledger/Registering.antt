-- ===== src/Ledger/Registering.antt =====
-- Registering evidence twice.
use autonomous_llm_bot.Prelude.{
  String, ◌≡◌, sym, subst, inl, inr, Bool, false, Option, none, some, arith, ◌==◌, nat_eq,
  string_eq, Bool-cases, eq_iff,
}
use autonomous_llm_bot.Dict.{lookup, lookup-insert_self}
use autonomous_llm_bot.Ledger.State.{
  ResearchLedger, EvidenceRecord, id_of, summary_chars, source_chars, note_chars, clip, or_text,
}
use autonomous_llm_bot.Ledger.AddEvidence.{
  add_evidence, evidence_record, same_evidence, store_evidence,
}
use autonomous_llm_bot.Ledger.Retraction.{evidence_beq_refl, add_evidence-evidence, unnamed}

or_text_twice : (x y : String) → or_text x (or_text x y) ≡ or_text x y
or_text_twice x y = ground (arith, eq_iff x "")

or_text_same : (x : String) → or_text x x ≡ x
or_text_same x = ground (arith, eq_iff x "")

record_twice :
    (k : String) (old : Option EvidenceRecord) (summary source : Option String)
    (retracted : Option Bool) (text : Option String)
    → let r = evidence_record k old summary source retracted text in
      evidence_record k (some r) summary source retracted text ≡ r
unfolding evidence_record
record_twice k none summary source retracted text = ground (
  arith,
  or_text_same (clip summary summary_chars),
  or_text_same (clip source source_chars),
  or_text_same (clip text note_chars),
)
record_twice k (some old) summary source retracted text = ground (
  arith,
  or_text_twice (clip summary summary_chars) old.summary,
  or_text_twice (clip source source_chars) old.source,
  or_text_twice (clip text note_chars) old.note,
)

stored_twice :
    (k : String) (r : EvidenceRecord) (l : ResearchLedger)
    → store_evidence k r (same_evidence (some r) r) l ≡ l
unfolding store_evidence
stored_twice k r l = rw (evidence_beq_refl r)

settled :
    (id summary source : Option String) (retracted : Option Bool) (text : Option String)
    (m : ResearchLedger) (r : EvidenceRecord)
    → (id_of id == "") ≡ false
    → lookup (id_of id) m.evidence ≡ some r
    → evidence_record (id_of id) (some r) summary source retracted text ≡ r
    → (add_evidence id summary source retracted text m).0 ≡ m
unfolding add_evidence
settled id summary source retracted text m r full there fixed =
    rw (full, there)
      (subst (λ (x : EvidenceRecord). store_evidence (id_of id) x (same_evidence (some r) x) m ≡ m)
        (sym fixed) (stored_twice (id_of id) r m))

-- Registering the same evidence twice is registering it once: the second call changes nothing, not
-- even the revision.
pub add_evidence_idem :
    (id summary source : Option String) (retracted : Option Bool) (text : Option String)
    (l : ResearchLedger)
    → let m = (add_evidence id summary source retracted text l).0 in
      (add_evidence id summary source retracted text m).0 ≡ m
add_evidence_idem id summary source retracted text l = elim (Bool-cases (id_of id == "")) [
  | inl empty ↦ unnamed id summary source retracted text m ((eq_iff (id_of id) "").0 empty)
  | inr full ↦ again full
]
  where
    m : ResearchLedger
    m = (add_evidence id summary source retracted text l).0

    r : EvidenceRecord
    r = evidence_record (id_of id) (lookup (id_of id) l.evidence) summary source retracted text

    there : (id_of id == "") ≡ false → lookup (id_of id) m.evidence ≡ some r
    there full =
        rw
          (add_evidence-evidence id summary source retracted text l
            (λ e. ground (arith, eq_iff (id_of id) "")))
          (lookup-insert_self (id_of id) r l.evidence)

    again : (id_of id == "") ≡ false → (add_evidence id summary source retracted text m).0 ≡ m
    again full =
        settled id summary source retracted text m r full (there full)
          (record_twice (id_of id) (lookup (id_of id) l.evidence) summary source retracted text)
