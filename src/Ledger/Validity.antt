-- ===== src/Ledger/Validity.antt =====
-- A conclusion is valid exactly while its premises are as they were pinned.
use autonomous_llm_bot.Prelude.{
  ℕ, ◌<◌, String, ◌≡◌, refl, ap, ◌∙◌, ◌≢◌, ◌↔◌, inl, inr, true, false, Option, some, List, [], ◌∷◌,
  arith, ◌==◌, nat_eq, string_eq, Bool-cases, Option-cases, all, All, ok, eq_iff, is_nil,
}
use autonomous_llm_bot.Dict.{Dict, lookup}
use autonomous_llm_bot.Ledger.State.{ResearchLedger, rejected, Hypothesis, Conclusion, id_of}
use autonomous_llm_bot.Ledger.Premises.{is_stale, stale_among, stale_premises, conclusion_is_valid}
use autonomous_llm_bot.Ledger.Evolution.{Hypotheses}
use mathlib.Core.Path.{subst₂}
use autonomous_llm_bot.Ledger.Frames.{
  declare-OnlyHypotheses, reopen-OnlyHypotheses, add_evidence-conclusions, set_goal-conclusions,
  add_conclusion-others,
}
use autonomous_llm_bot.Ledger.Calls.{
  Call, sets_goal, adds_evidence, declares, reopens, concludes, call, run, run-Grows,
}

-- The premise's hypothesis is declared, at the pinned revision, and not rejected.
abbrev pub Holds : Hypotheses → String × ℕ → Type 0
Holds hs (p, pinned) =
    (h : Hypothesis) × (lookup p hs ≡ some h) × (h.revision ≡ pinned) × (h.status ≢ rejected)

is_stale-Holds :
    (hs : Hypotheses) (p : String) (pinned : ℕ)
    → is_stale (lookup p hs) pinned ≡ false
    → Holds hs (p, pinned)
unfolding is_stale
is_stale-Holds hs p pinned fresh = elim (Option-cases (lookup p hs)) [
  | inl absent ↦ ground arith
  | inr (h, there) ↦ (h, there, ground (arith), λ r. ground (arith, eq_iff h.status rejected))
]

Holds-is_stale :
    (hs : Hypotheses) (p : String) (pinned : ℕ)
    → Holds hs (p, pinned)
    → is_stale (lookup p hs) pinned ≡ false
unfolding is_stale
Holds-is_stale hs p pinned (h, there, same, status) = ground (arith, eq_iff h.status rejected)

stale_among-All :
    (hs : Hypotheses) (ps : Dict String ℕ) → (is_nil (stale_among hs ps) ≡ true) ↔ All (Holds hs) ps
unfolding stale_among
stale_among-All hs [] = (λ _. tt, λ _. refl)
stale_among-All hs ((p, pinned) ∷ ps) = elim (Bool-cases (is_stale (lookup p hs) pinned)) [
  | inl stale ↦ (
    λ none_stale. cc (rw stale at none_stale),
    λ all. cc (stale, Holds-is_stale hs p pinned all.0),
  )
  | inr fresh ↦ rw fresh (
    λ rest. (is_stale-Holds hs p pinned fresh, (stale_among-All hs ps).0 rest),
    λ all. (stale_among-All hs ps).1 all.1,
  )
]

-- A stored conclusion is valid exactly when every premise that it pins is declared, still at the
-- pinned revision, and not rejected.
pub conclusion_is_valid_iff :
    (id : Option String) (c : Conclusion) (l : ResearchLedger)
    → lookup (id_of id) l.conclusions ≡ some c
    → (conclusion_is_valid id l ≡ ok true) ↔ All (Holds l.hypotheses) c.premises
unfolding conclusion_is_valid stale_premises
conclusion_is_valid_iff id c l there = rw there (
  (λ e. (stale_among-All l.hypotheses c.premises).0 (cc)),
  (λ all. ap ok ((stale_among-All l.hypotheses c.premises).1 all)),
)

-- No call of these stores a conclusion under the id `k`.
abbrev pub NotConcluding : String → Call → Type 0
NotConcluding k (concludes id statement premises) = id_of id ≢ k
NotConcluding k _ = Unit

call-conclusions :
    (k : String) (c : Call) (l : ResearchLedger)
    → NotConcluding k c
    → lookup k (call c l).conclusions ≡ lookup k l.conclusions
unfolding call
call-conclusions k (sets_goal goal) l h = rw set_goal-conclusions
call-conclusions k (adds_evidence id summary source retracted text) l h =
    rw add_evidence-conclusions
call-conclusions k (declares id statement status evidence_id text) l h =
    rw (declare-OnlyHypotheses id statement status evidence_id text l).conclusions
call-conclusions k (reopens id evidence_id text) l h =
    rw (reopen-OnlyHypotheses id evidence_id text l).conclusions
call-conclusions k (concludes id statement premises) l h =
    add_conclusion-others id statement premises k l h

run-conclusions :
    (k : String) (cs : List Call) (l : ResearchLedger)
    → All (NotConcluding k) cs
    → lookup k (run cs l).conclusions ≡ lookup k l.conclusions
unfolding run
run-conclusions k [] l h = refl
run-conclusions k (c ∷ cs) l h = run-conclusions k cs (call c l) h.1 ∙ call-conclusions k c l h.0

All-lookup :
    (hs : Hypotheses) (ps : Dict String ℕ) (p : String) (pinned : ℕ)
    → lookup p ps ≡ some pinned
    → All (Holds hs) ps
    → Holds hs (p, pinned)
unfolding lookup
All-lookup hs [] p pinned there all = cc
All-lookup hs ((q, n) ∷ ps) p pinned there held = elim (Bool-cases (q == p)) [
  | inl eq ↦ subst₂ (λ a b. Holds hs (a, b)) ((eq_iff q p).0 eq) (pinned_here eq) held.0
  | inr ne ↦ All-lookup hs ps p pinned (ground arith) held.1
]
  where
    pinned_here : (q == p) ≡ true → n ≡ pinned
    pinned_here eq = ground arith

-- Once a premise of a conclusion has moved past the pinned revision, the conclusion is not valid
-- after any calls, refused or not, that do not store a conclusion under its id.
pub moved_premise_invalidates :
    (id : Option String) (c : Conclusion) (p : String) (pinned : ℕ) (h : Hypothesis)
    (cs : List Call) (l : ResearchLedger)
    → lookup (id_of id) l.conclusions ≡ some c
    → lookup p c.premises ≡ some pinned
    → lookup p l.hypotheses ≡ some h
    → pinned < h.revision
    → All (NotConcluding (id_of id)) cs
    → conclusion_is_valid id (run cs l) ≢ ok true
moved_premise_invalidates id c p pinned h cs l stored pins there moved_on others valid =
    let now = run-conclusions (id_of id) cs l others ∙ stored in
    let held = (conclusion_is_valid_iff id c (run cs l) now).0 valid in
    let (g, there_now, same, _) = All-lookup (run cs l).hypotheses c.premises p pinned pins held in
    let (h', there_after, grown) = run-Grows cs l p h there in
    let one : h' ≡ g = ground arith in
    omega (arith, grown.counted, same, ap (λ (x : Hypothesis). x.revision) one)
