-- ===== src/Ledger/Restoring.antt =====
-- Whatever has been called on a ledger, its snapshot is restored as the ledger that it was.
use autonomous_llm_bot.Prelude.{◌≡◌, sym, subst, List, [], ◌∷◌, nat_eq, string_eq, ok}
use autonomous_llm_bot.Dict.Unique.{IsUnique}
use autonomous_llm_bot.Json.{object}
use autonomous_llm_bot.Ledger.State.{ResearchLedger, new}
use autonomous_llm_bot.Ledger.Markers.{to_dict}
use autonomous_llm_bot.Ledger.Restore.{Convert, from_dict}
use autonomous_llm_bot.Ledger.Frames.{
  declare-OnlyHypotheses, reopen-OnlyHypotheses, add_evidence-conclusions, set_goal-conclusions,
  set_goal-evidence, add_conclusion-evidence,
}
use autonomous_llm_bot.Ledger.Calls.{
  Call, sets_goal, adds_evidence, declares, reopens, concludes, call, run, set_goal-hypotheses,
  add_evidence-hypotheses, add_conclusion-hypotheses, run-new-IsConsistent,
}
use autonomous_llm_bot.Ledger.Keyed.{
  IsEvidence, IsConclusions, add_evidence-IsEvidence, add_conclusion-IsConclusions, declare-Unique,
  reopen-Unique, IsFiled-lookup,
}
use autonomous_llm_bot.Ledger.Snapshot.{IsLedger, from_dict-to_dict}

-- What the calls keep of the three dicts; that hypotheses stand under their ids is known already.
record IsKept (l : ResearchLedger) : Type 0 where
  evidence : IsEvidence l.evidence
  hypotheses : IsUnique l.hypotheses
  conclusions : IsConclusions l.conclusions

call-IsKept : (c : Call) (l : ResearchLedger) → IsKept l → IsKept (call c l)
unfolding call
call-IsKept (sets_goal goal) l v = record {
  evidence = subst IsEvidence (sym (set_goal-evidence goal l)) v.evidence;
  hypotheses = rw set_goal-hypotheses v.hypotheses;
  conclusions = subst IsConclusions (sym (set_goal-conclusions goal l)) v.conclusions;
}
call-IsKept (adds_evidence id summary source retracted text) l v = record {
  evidence = add_evidence-IsEvidence id summary source retracted text l v.evidence;
  hypotheses = rw add_evidence-hypotheses v.hypotheses;
  conclusions =
      subst IsConclusions (sym (add_evidence-conclusions id summary source retracted text l))
        v.conclusions;
}
call-IsKept (declares id statement status evidence_id text) l v = record {
  evidence =
      subst IsEvidence
        (sym (declare-OnlyHypotheses id statement status evidence_id text l).evidence) v.evidence;
  hypotheses = declare-Unique id statement status evidence_id text l v.hypotheses;
  conclusions =
      subst IsConclusions
        (sym (declare-OnlyHypotheses id statement status evidence_id text l).conclusions)
        v.conclusions;
}
call-IsKept (reopens id evidence_id text) l v = record {
  evidence =
      subst IsEvidence (sym (reopen-OnlyHypotheses id evidence_id text l).evidence) v.evidence;
  hypotheses = reopen-Unique id evidence_id text l v.hypotheses;
  conclusions =
      subst IsConclusions (sym (reopen-OnlyHypotheses id evidence_id text l).conclusions)
        v.conclusions;
}
call-IsKept (concludes id statement premises) l v = record {
  evidence = subst IsEvidence (sym (add_conclusion-evidence id statement premises l)) v.evidence;
  hypotheses = rw add_conclusion-hypotheses v.hypotheses;
  conclusions = add_conclusion-IsConclusions id statement premises l v.conclusions;
}

run-IsKept : (cs : List Call) (l : ResearchLedger) → IsKept l → IsKept (run cs l)
unfolding run
run-IsKept [] l v = v
run-IsKept (c ∷ cs) l v = run-IsKept cs (call c l) (call-IsKept c l v)

pub run-new-IsLedger : (cs : List Call) → IsLedger (run cs new)
run-new-IsLedger cs =
    let v =
      run-IsKept cs new
        (record { evidence = (tt, tt); hypotheses = tt; conclusions = (tt, tt, tt) }) in
    record {
      evidence = v.evidence;
      hypotheses_unique = v.hypotheses;
      hypotheses_filed =
          IsFiled-lookup _ (run cs new).hypotheses v.hypotheses
            (λ k h there. (run-new-IsConsistent cs k h there).keyed);
      conclusions = v.conclusions;
    }

-- The snapshot of a ledger on which any calls have been made, refused or not, is restored as that
-- ledger: goal, revision, evidence, hypotheses with their histories, and conclusions, in their order.
pub run-restored :
    (c : Convert) (cs : List Call) → from_dict c (object (to_dict (run cs new))) ≡ ok (run cs new)
run-restored c cs = from_dict-to_dict c (run cs new) (run-new-IsLedger cs)
