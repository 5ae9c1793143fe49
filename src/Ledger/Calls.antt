-- ===== src/Ledger/Calls.antt =====
-- Any sequence of mutating calls on a ledger, refused or not, and what survives all of them.
use autonomous_llm_bot.Prelude.{
  ◌≤◌, String, ◌≡◌, refl, Bool, Option, List, [], ◌∷◌, ◌++◌, arith, nat_eq, string_eq,
}
use autonomous_llm_bot.Dict.{lookup}
use autonomous_llm_bot.Ledger.State.{ResearchLedger, new, set_goal}
use autonomous_llm_bot.Ledger.AddEvidence.{add_evidence}
use autonomous_llm_bot.Ledger.Hypotheses.{declare_hypothesis, reopen_hypothesis}
use autonomous_llm_bot.Ledger.Premises.{add_conclusion}
use autonomous_llm_bot.Ledger.Evolution.{Evolves, Evolves-join, Evolves-refl}
use autonomous_llm_bot.Ledger.Invariant.{Every}
use autonomous_llm_bot.Ledger.History.{IsConsistent, declare-IsConsistent, reopen-IsConsistent}
use autonomous_llm_bot.Ledger.Frames.{
  declare-OnlyHypotheses, reopen-OnlyHypotheses, add_evidence-revision, set_goal-revision,
  add_conclusion-revision,
}
use autonomous_llm_bot.Ledger.Rules.{Grows, Grows-refl, Grows-trans, declare-Grows, reopen-Grows}

-- The arguments of one call of a mutating method. The exception of a refused call is caught.
pub data Call : Type 0 where
  sets_goal : Option String → Call
  adds_evidence : Option String → Option String → Option String → Option Bool → Option String → Call
  declares : Option String → Option String → String → Option String → Option String → Call
  reopens : Option String → Option String → Option String → Call
  concludes : Option String → Option String → List (Option String) → Call

unfoldable pub call : Call → ResearchLedger → ResearchLedger
call (sets_goal goal) l = set_goal goal l
call (adds_evidence id summary source retracted text) l =
    (add_evidence id summary source retracted text l).0
call (declares id statement status evidence_id text) l =
    (declare_hypothesis id statement status evidence_id text l).0
call (reopens id evidence_id text) l = (reopen_hypothesis id evidence_id text l).0
call (concludes id statement premises) l = (add_conclusion id statement premises l).0

unfoldable pub run : List Call → ResearchLedger → ResearchLedger
run [] l = l
run (c ∷ cs) l = run cs (call c l)

pub run-append : (cs ds : List Call) (l : ResearchLedger) → run (cs ++ ds) l ≡ run ds (run cs l)
unfolding run
run-append [] ds l = refl
run-append (c ∷ cs) ds l = run-append cs ds (call c l)

pub set_goal-hypotheses :
    (goal : Option String) (l : ResearchLedger) → (set_goal goal l).hypotheses ≡ l.hypotheses
unfolding set_goal
set_goal-hypotheses goal l = ground arith

pub add_evidence-hypotheses :
    (id summary source : Option String) (retracted : Option Bool) (text : Option String)
    (l : ResearchLedger)
    → (add_evidence id summary source retracted text l).0.hypotheses ≡ l.hypotheses
unfolding add_evidence
add_evidence-hypotheses id summary source retracted text l = ground arith

pub add_conclusion-hypotheses :
    (id statement : Option String) (premises : List (Option String)) (l : ResearchLedger)
    → (add_conclusion id statement premises l).0.hypotheses ≡ l.hypotheses
unfolding add_conclusion
add_conclusion-hypotheses id statement premises l = ground arith

call-Grows : (c : Call) (l : ResearchLedger) → Evolves Grows l.hypotheses (call c l).hypotheses
unfolding call
call-Grows (sets_goal goal) l = rw set_goal-hypotheses (Evolves-refl Grows Grows-refl l.hypotheses)
call-Grows (adds_evidence id summary source retracted text) l =
    rw add_evidence-hypotheses (Evolves-refl Grows Grows-refl l.hypotheses)
call-Grows (declares id statement status evidence_id text) l =
    declare-Grows id statement status evidence_id text l
call-Grows (reopens id evidence_id text) l = reopen-Grows id evidence_id text l
call-Grows (concludes id statement premises) l =
    rw add_conclusion-hypotheses (Evolves-refl Grows Grows-refl l.hypotheses)

-- After any calls, refused or not, every hypothesis that was there is there under its key, with its
-- id and its whole history, behind which the new transitions stand, one revision for each.
pub run-Grows :
    (cs : List Call) (l : ResearchLedger) → Evolves Grows l.hypotheses (run cs l).hypotheses
unfolding run
run-Grows [] l = Evolves-refl Grows Grows-refl l.hypotheses
run-Grows (c ∷ cs) l =
    Evolves-join Grows Grows Grows Grows-trans l.hypotheses (call c l).hypotheses _ (call-Grows c l)
      (run-Grows cs (call c l))

call-IsConsistent :
    (c : Call) (l : ResearchLedger)
    → Every IsConsistent l.hypotheses
    → Every IsConsistent (call c l).hypotheses
unfolding call
call-IsConsistent (sets_goal goal) l v = rw set_goal-hypotheses v
call-IsConsistent (adds_evidence id summary source retracted text) l v =
    rw add_evidence-hypotheses v
call-IsConsistent (declares id statement status evidence_id text) l v =
    declare-IsConsistent id statement status evidence_id text l v
call-IsConsistent (reopens id evidence_id text) l v = reopen-IsConsistent id evidence_id text l v
call-IsConsistent (concludes id statement premises) l v = rw add_conclusion-hypotheses v

pub run-IsConsistent :
    (cs : List Call) (l : ResearchLedger)
    → Every IsConsistent l.hypotheses
    → Every IsConsistent (run cs l).hypotheses
unfolding run
run-IsConsistent [] l v = v
run-IsConsistent (c ∷ cs) l v = run-IsConsistent cs (call c l) (call-IsConsistent c l v)

-- After any calls on a new ledger, refused or not, every hypothesis stands under its own stripped
-- id, has a legal status, which is the status of its last transition, and as many transitions as
-- its revision says.
pub run-new-IsConsistent : (cs : List Call) → Every IsConsistent (run cs new).hypotheses
unfolding lookup
run-new-IsConsistent cs = run-IsConsistent cs new (λ k h there. cc)

call-revision : (c : Call) (l : ResearchLedger) → l.revision ≤ (call c l).revision
unfolding call
call-revision (sets_goal goal) l = set_goal-revision goal l
call-revision (adds_evidence id summary source retracted text) l =
    add_evidence-revision id summary source retracted text l
call-revision (declares id statement status evidence_id text) l =
    (declare-OnlyHypotheses id statement status evidence_id text l).revision
call-revision (reopens id evidence_id text) l =
    (reopen-OnlyHypotheses id evidence_id text l).revision
call-revision (concludes id statement premises) l = add_conclusion-revision id statement premises l

-- No calls lower the revision of the ledger.
pub run-revision : (cs : List Call) (l : ResearchLedger) → l.revision ≤ (run cs l).revision
unfolding run
run-revision [] l = omega arith
run-revision (c ∷ cs) l = omega (arith, call-revision c l, run-revision cs (call c l))
