-- ===== src/Ledger/Reopening.antt =====
-- What `reopen_hypothesis` asks for, and what it leaves behind.
use autonomous_llm_bot.Prelude.{
  String, ◌≡◌, refl, ◌≢◌, ◌↔◌, inl, inr, true, false, Option, some, arith, nat_eq, string_eq,
  Option-cases, contains, Result, ok, raise, eq_iff, result_induction,
}
use autonomous_llm_bot.Dict.{lookup}
use autonomous_llm_bot.Text.{strip}
use autonomous_llm_bot.Ledger.State.{
  ResearchLedger, Hypothesis, EvidenceRecord, id_of, active, Refusal,
}
use autonomous_llm_bot.Ledger.Hypotheses.{
  transition, require_evidence, require_hypothesis, cited_by, cited_evidence, may_transition, moved,
  reopen_hypothesis, commit_transition, reopen_found,
}
use autonomous_llm_bot.Ledger.Invariant.{Every}
use autonomous_llm_bot.Ledger.History.{IsConsistent}

-- Registered evidence that is not retracted.
abbrev pub IsLive : String → ResearchLedger → Type 0
IsLive e l = (r : EvidenceRecord) × (lookup e l.evidence ≡ some r) × (r.retracted ≡ false)

require_evidence-IsLive :
    (evidence_id : Option String) (l : ResearchLedger)
    → require_evidence evidence_id false l ≡ ok tt
    → IsLive (id_of evidence_id) l
unfolding require_evidence
require_evidence-IsLive evidence_id l h =
    elim (Option-cases (lookup (id_of evidence_id) l.evidence)) [
      | inl absent ↦ ground arith
      | inr (r, there) ↦ (r, there, ground arith)
    ]

-- The evidence that the hypothesis under `k` has cited so far.
cited_evidence_lem :
    (k : String) (h : Hypothesis) (l : ResearchLedger)
    → IsConsistent k h
    → lookup k l.hypotheses ≡ some h
    → cited_evidence (some h.id) l ≡ ok (cited_by h.transitions)
unfolding cited_evidence require_hypothesis id_of
cited_evidence_lem k h l v there = rw found refl
  where
    found : lookup (strip h.id) l.hypotheses ≡ some h
    found = ground arith

-- Evidence that may reopen `h`: named, live, and cited by no earlier transition.
pub record IsFresh (h : Hypothesis) (e : String) (l : ResearchLedger) : Type 0 where
  pub named : e ≢ ""
  pub live : IsLive e l
  pub uncited : contains (cited_by h.transitions) e ≡ false

module _ (k : String) (h : Hypothesis) (evidence_id : Option String) (l : ResearchLedger)
    (v : IsConsistent k h) (there : lookup k l.hypotheses ≡ some h) where
  may_reopen-IsFresh :
      may_transition h active evidence_id true l ≡ ok tt → IsFresh h (id_of evidence_id) l
  unfolding may_transition require_evidence
  may_reopen-IsFresh passed = elim (Option-cases (lookup (id_of evidence_id) l.evidence)) [
    | inl absent ↦ ground (arith, cited_evidence_lem k h l v there)
    | inr (r, here) ↦ record {
      named = ground (arith, eq_iff (id_of evidence_id) "");
      live = (r, here, ground (arith, cited_evidence_lem k h l v there));
      uncited = ground (arith, cited_evidence_lem k h l v there);
    }
  ]

  IsFresh-may_reopen :
      IsFresh h (id_of evidence_id) l → may_transition h active evidence_id true l ≡ ok tt
  unfolding may_transition require_evidence
  IsFresh-may_reopen f = ground (
    arith,
    cited_evidence_lem k h l v there,
    eq_iff (id_of evidence_id) "",
    f.live.1,
    f.live.2,
    f.uncited,
    f.named,
  )

commit_ok :
    (k : String) (h g : Hypothesis) (status : String) (evidence_id change_note : Option String)
    (r : Result Refusal Unit) (l : ResearchLedger)
    → (commit_transition k h status evidence_id change_note r l).1 ≡ ok g
    → r ≡ ok tt
unfolding commit_transition
commit_ok k h g status evidence_id change_note (ok _) l e = refl
commit_ok k h g status evidence_id change_note (raise _) l e = cc

commit_refused :
    (k : String) (h : Hypothesis) (status : String) (evidence_id change_note : Option String)
    (r : Result Refusal Unit) (l : ResearchLedger) (why : Refusal)
    → (commit_transition k h status evidence_id change_note r l).1 ≡ raise why
    → (commit_transition k h status evidence_id change_note r l).0 ≡ l
unfolding commit_transition
commit_refused k h status evidence_id change_note (ok _) l why e = cc
commit_refused k h status evidence_id change_note (raise _) l why e = refl

-- For a ledger whose hypotheses are consistent, reopening a hypothesis that is there succeeds
-- exactly when the evidence is named, registered, not retracted, and cited by no earlier transition
-- of that hypothesis.
pub reopen-ok_iff :
    (hypothesis_id evidence_id change_note : Option String) (h : Hypothesis) (l : ResearchLedger)
    → Every IsConsistent l.hypotheses
    → lookup (id_of hypothesis_id) l.hypotheses ≡ some h
    → ((reopen_hypothesis hypothesis_id evidence_id change_note l).1
        ≡ ok (moved h active (id_of evidence_id) change_note))
      ↔ IsFresh h (id_of evidence_id) l
unfolding reopen_hypothesis require_hypothesis transition
reopen-ok_iff hypothesis_id evidence_id change_note h l v there = rw there (
  (λ done.
      may_reopen-IsFresh k h evidence_id l c there
        (commit_ok k h _ active evidence_id change_note _ l done)),
  (λ fresh. rw (IsFresh-may_reopen k h evidence_id l c there fresh) refl),
)
  where
    k : String
    k = id_of hypothesis_id

    c : IsConsistent (id_of hypothesis_id) h
    c = v (id_of hypothesis_id) h there

-- A reopening that is refused, for whatever reason, changes nothing.
pub reopen_refused_unchanged :
    (hypothesis_id evidence_id change_note : Option String) (l : ResearchLedger) (why : Refusal)
    → (reopen_hypothesis hypothesis_id evidence_id change_note l).1 ≡ raise why
    → (reopen_hypothesis hypothesis_id evidence_id change_note l).0 ≡ l
unfolding reopen_hypothesis transition
reopen_refused_unchanged hypothesis_id evidence_id change_note l why =
    result_induction
      (λ r.
        (reopen_found (id_of hypothesis_id) evidence_id change_note r l).1 ≡ raise why
        → (reopen_found (id_of hypothesis_id) evidence_id change_note r l).0 ≡ l)
      (require_hypothesis hypothesis_id l) (λ _ _ _. refl)
      λ h _.
        commit_refused (id_of hypothesis_id) h active evidence_id change_note
          (may_transition h active evidence_id true l) l why
