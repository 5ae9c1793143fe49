-- ===== src/Ledger/Frames.antt =====
-- What a call leaves alone: the fields of the ledger that it is not about.
use autonomous_llm_bot.Prelude.{
  ◌≤◌, String, ◌≡◌, ◌≢◌, Bool, Option, List, [], arith, nat_eq, string_eq,
}
use autonomous_llm_bot.Dict.{lookup, lookup-insert_ne}
use autonomous_llm_bot.Ledger.State.{ResearchLedger, statement_chars, id_of, clip, set_goal}
use autonomous_llm_bot.Ledger.AddEvidence.{add_evidence}
use autonomous_llm_bot.Ledger.Hypotheses.{transition, declare_hypothesis, reopen_hypothesis}
use autonomous_llm_bot.Ledger.Premises.{add_conclusion, pin_premises}

-- Only hypotheses may differ, and the revision does not fall.
pub record OnlyHypotheses (l l' : ResearchLedger) : Type 0 where
  pub goal : l'.goal ≡ l.goal
  pub evidence : l'.evidence ≡ l.evidence
  pub conclusions : l'.conclusions ≡ l.conclusions
  pub revision : l.revision ≤ l'.revision

pub declare-OnlyHypotheses :
    (id statement : Option String) (status : String) (evidence_id text : Option String)
    (l : ResearchLedger)
    → OnlyHypotheses l (declare_hypothesis id statement status evidence_id text l).0
unfolding declare_hypothesis transition
declare-OnlyHypotheses id statement status evidence_id text l = ground arith

pub reopen-OnlyHypotheses :
    (id evidence_id text : Option String) (l : ResearchLedger)
    → OnlyHypotheses l (reopen_hypothesis id evidence_id text l).0
unfolding reopen_hypothesis transition
reopen-OnlyHypotheses id evidence_id text l = ground arith

pub add_evidence-conclusions :
    (id summary source : Option String) (retracted : Option Bool) (text : Option String)
    (l : ResearchLedger)
    → (add_evidence id summary source retracted text l).0.conclusions ≡ l.conclusions
unfolding add_evidence
add_evidence-conclusions id summary source retracted text l = ground arith

pub add_evidence-revision :
    (id summary source : Option String) (retracted : Option Bool) (text : Option String)
    (l : ResearchLedger)
    → l.revision ≤ (add_evidence id summary source retracted text l).0.revision
unfolding add_evidence
add_evidence-revision id summary source retracted text l = ground arith

pub set_goal-conclusions :
    (goal : Option String) (l : ResearchLedger) → (set_goal goal l).conclusions ≡ l.conclusions
unfolding set_goal
set_goal-conclusions goal l = ground arith

pub set_goal-evidence :
    (goal : Option String) (l : ResearchLedger) → (set_goal goal l).evidence ≡ l.evidence
unfolding set_goal
set_goal-evidence goal l = ground arith

pub set_goal-revision :
    (goal : Option String) (l : ResearchLedger) → l.revision ≤ (set_goal goal l).revision
unfolding set_goal
set_goal-revision goal l = ground arith

pub add_conclusion-evidence :
    (id statement : Option String) (premises : List (Option String)) (l : ResearchLedger)
    → (add_conclusion id statement premises l).0.evidence ≡ l.evidence
unfolding add_conclusion
add_conclusion-evidence id statement premises l = ground arith

pub add_conclusion-revision :
    (id statement : Option String) (premises : List (Option String)) (l : ResearchLedger)
    → l.revision ≤ (add_conclusion id statement premises l).0.revision
unfolding add_conclusion
add_conclusion-revision id statement premises l = ground arith

-- A conclusion under another id stays as it is.
pub add_conclusion-others :
    (id statement : Option String) (premises : List (Option String)) (k : String)
    (l : ResearchLedger)
    → id_of id ≢ k
    → lookup k (add_conclusion id statement premises l).0.conclusions ≡ lookup k l.conclusions
unfolding add_conclusion
add_conclusion-others id statement premises k l other = ground (
  arith,
  lookup-insert_ne (id_of id) k
      (record {
        id = id_of id;
        statement = clip statement statement_chars;
        premises = pin_premises premises [] l;
      })
      l.conclusions other,
)
