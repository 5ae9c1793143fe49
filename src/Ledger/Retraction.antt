-- ===== src/Ledger/Retraction.antt =====
-- Evidence is never deleted, and a retraction holds until a call takes it back in so many words.
use autonomous_llm_bot.Prelude.{
  String, ◌≡◌, refl, sym, ap, ◌∙◌, ◌≢◌, ◌⊎◌, inl, inr, Bool, true, false, Option, none, some, List,
  [], ◌∷◌, arith, ◌==◌, nat_eq, string_eq, ==_false, Bool-cases, All, eq_iff,
}
use autonomous_llm_bot.Dict.{lookup, insert, lookup-insert, insert_same}
use autonomous_llm_bot.Ledger.State.{ResearchLedger, EvidenceRecord, id_of, new}
use autonomous_llm_bot.Ledger.AddEvidence.{
  add_evidence, evidence_beq, evidence_record, same_evidence, store_evidence,
}
use autonomous_llm_bot.Ledger.Frames.{
  declare-OnlyHypotheses, reopen-OnlyHypotheses, set_goal-evidence, add_conclusion-evidence,
}
use autonomous_llm_bot.Ledger.Calls.{
  Call, adds_evidence, sets_goal, declares, reopens, concludes, call, run,
}

-- The call does not register the id `k` with an explicit `retracted=False`.
abbrev pub NotRestoring : String → Call → Type 0
NotRestoring k (adds_evidence id summary source retracted text) =
    (id_of id ≢ k) ⊎ (retracted ≢ some false)
NotRestoring k _ = Unit

-- Registered under `k`, and retracted.
abbrev pub IsRetracted : String → ResearchLedger → Type 0
IsRetracted k l = (e : EvidenceRecord) × (lookup k l.evidence ≡ some e) × (e.retracted ≡ true)

pub evidence_beq-eq : (a b : EvidenceRecord) → evidence_beq a b ≡ true → a ≡ b
unfolding evidence_beq
evidence_beq-eq a b h = ground (
  arith,
  eq_iff a.id b.id,
  eq_iff a.summary b.summary,
  eq_iff a.source b.source,
  eq_iff a.note b.note,
)

pub evidence_beq_refl : (a : EvidenceRecord) → evidence_beq a a ≡ true
unfolding evidence_beq
evidence_beq_refl a = ground (
  arith,
  eq_iff a.id a.id,
  eq_iff a.summary a.summary,
  eq_iff a.source a.source,
  eq_iff a.note a.note,
)

store_evidence-evidence :
    (k : String) (r : EvidenceRecord) (old : Option EvidenceRecord) (l : ResearchLedger)
    → lookup k l.evidence ≡ old
    → (store_evidence k r (same_evidence old r) l).evidence ≡ insert k r l.evidence
unfolding store_evidence
store_evidence-evidence k r none l there = refl
store_evidence-evidence k r (some old) l there = elim (Bool-cases (evidence_beq old r)) [
  | inl same ↦
      rw same (sym (insert_same k r l.evidence (there ∙ ap some (evidence_beq-eq old r same))))
  | inr new ↦ rw new refl
]

-- Whether or not the record is written, the evidence is as if it had been.
pub add_evidence-evidence :
    (id summary source : Option String) (retracted : Option Bool) (text : Option String)
    (l : ResearchLedger)
    → id_of id ≢ ""
    → (add_evidence id summary source retracted text l).0.evidence
      ≡ insert
          (id_of id)
          (evidence_record (id_of id) (lookup (id_of id) l.evidence) summary source retracted text)
          l.evidence
unfolding add_evidence
add_evidence-evidence id summary source retracted text l named =
    rw (==_false (id_of id) "" named)
      (store_evidence-evidence (id_of id) _ (lookup (id_of id) l.evidence) l refl)

evidence_record-retracted :
    (k : String) (old : EvidenceRecord) (summary source : Option String) (retracted : Option Bool)
    (text : Option String)
    → retracted ≢ some false
    → old.retracted ≡ true
    → (evidence_record k (some old) summary source retracted text).retracted ≡ true
unfolding evidence_record
evidence_record-retracted k old summary source none text asks flag = flag
evidence_record-retracted k old summary source (some true) text asks flag = refl
evidence_record-retracted k old summary source (some false) text asks flag = absurd (asks refl)

pub unnamed :
    (id summary source : Option String) (retracted : Option Bool) (text : Option String)
    (l : ResearchLedger)
    → id_of id ≡ ""
    → (add_evidence id summary source retracted text l).0 ≡ l
unfolding add_evidence
unnamed id summary source retracted text l e = ground (arith, eq_iff (id_of id) "")

add_evidence-IsRetracted :
    (k : String) (id summary source : Option String) (retracted : Option Bool)
    (text : Option String) (l : ResearchLedger)
    → (id_of id ≢ k) ⊎ (retracted ≢ some false)
    → IsRetracted k l
    → IsRetracted k (add_evidence id summary source retracted text l).0
add_evidence-IsRetracted k id summary source retracted text l asks (e, there, flag) =
    elim (Bool-cases (id_of id == "")) [
      | inl empty ↦
          rw (unnamed id summary source retracted text l ((eq_iff (id_of id) "").0 empty))
            (e, there, flag)
      | inr full ↦ elim (Bool-cases (id_of id == k)) [
        | inl same ↦ (r, written full same, still same)
        | inr other ↦ (e, kept full other, flag)
      ]
    ]
  where
    r : EvidenceRecord
    r = evidence_record (id_of id) (lookup (id_of id) l.evidence) summary source retracted text

    named : (id_of id == "") ≡ false → id_of id ≢ ""
    named full empty = ground (arith, eq_iff (id_of id) "")

    written :
        (id_of id == "") ≡ false
        → (id_of id == k) ≡ true
        → lookup k (add_evidence id summary source retracted text l).0.evidence ≡ some r
    written full same =
        rw (add_evidence-evidence id summary source retracted text l (named full))
          (ground (arith, lookup-insert (id_of id) k r l.evidence))

    kept :
        (id_of id == "") ≡ false
        → (id_of id == k) ≡ false
        → lookup k (add_evidence id summary source retracted text l).0.evidence ≡ some e
    kept full other =
        rw (add_evidence-evidence id summary source retracted text l (named full))
          (ground (arith, lookup-insert (id_of id) k r l.evidence))

    here : (id_of id == k) ≡ true → lookup (id_of id) l.evidence ≡ some e
    here same = ground (arith, eq_iff (id_of id) k)

    not_false : (id_of id == k) ≡ true → retracted ≢ some false
    not_false same = elim asks [ inl ne ↦ absurd (ne ((eq_iff (id_of id) k).0 same)) | inr r ↦ r ]

    still : (id_of id == k) ≡ true → r.retracted ≡ true
    still same =
        rw (here same) (
          evidence_record-retracted (id_of id) e summary source retracted text (not_false same)
            flag)

call-IsRetracted :
    (k : String) (c : Call) (l : ResearchLedger)
    → NotRestoring k c
    → IsRetracted k l
    → IsRetracted k (call c l)
unfolding call
call-IsRetracted k (sets_goal goal) l h r = rw set_goal-evidence r
call-IsRetracted k (adds_evidence id summary source retracted text) l h r =
    add_evidence-IsRetracted k id summary source retracted text l h r
call-IsRetracted k (declares id statement status evidence_id text) l h r =
    rw (declare-OnlyHypotheses id statement status evidence_id text l).evidence r
call-IsRetracted k (reopens id evidence_id text) l h r =
    rw (reopen-OnlyHypotheses id evidence_id text l).evidence r
call-IsRetracted k (concludes id statement premises) l h r = rw add_conclusion-evidence r

-- Retracted evidence is still registered and retracted after any calls that do not register its id
-- with an explicit `retracted=False`.
pub run-IsRetracted :
    (k : String) (cs : List Call) (l : ResearchLedger)
    → All (NotRestoring k) cs
    → IsRetracted k l
    → IsRetracted k (run cs l)
unfolding run
run-IsRetracted k [] l h r = r
run-IsRetracted k (c ∷ cs) l h r =
    run-IsRetracted k cs (call c l) h.1 (call-IsRetracted k c l h.0 r)
