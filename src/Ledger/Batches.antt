-- ===== src/Ledger/Batches.antt =====
-- What a whole batch of updates keeps, by the calls that it makes.
use autonomous_llm_bot.Prelude.{
  ℕ, ◌<◌, String, ◌≡◌, sym, subst, ◌≢◌, inr, true, Option, none, some, List, [], ◌∷◌, nat_eq,
  string_eq, All, ok,
}
use autonomous_llm_bot.Dict.{lookup}
use autonomous_llm_bot.Ledger.State.{ResearchLedger, Hypothesis, Conclusion, id_of}
use autonomous_llm_bot.Ledger.Duplicates.{Unicode}
use autonomous_llm_bot.Ledger.Premises.{conclusion_is_valid}
use autonomous_llm_bot.Ledger.Batch.{EvidenceItem, ConclusionItem, Payload}
use autonomous_llm_bot.Ledger.Apply.{finish, begin, progress, apply_updates}
use autonomous_llm_bot.Ledger.Evolution.{Evolves, Evolves-refl}
use autonomous_llm_bot.Ledger.Rules.{Grows, Grows-refl}
use autonomous_llm_bot.Ledger.Invariant.{Every}
use autonomous_llm_bot.Ledger.History.{IsConsistent}
use autonomous_llm_bot.Ledger.Calls.{Call, run, run-Grows, run-IsConsistent}
use autonomous_llm_bot.Ledger.Retraction.{NotRestoring, IsRetracted, run-IsRetracted}
use autonomous_llm_bot.Ledger.Validity.{NotConcluding, moved_premise_invalidates}
use autonomous_llm_bot.Ledger.Refinement.{progress-Calls, Calls, EvidenceIn, ConclusionIn}

-- The calls of a batch, all in `P`, that lead to its ledger.
abbrev Made : (Call → Type 0) → Unicode → Payload → ResearchLedger → Type 0
Made P u payload l =
    (calls : List Call) × All P calls × ((apply_updates u (some payload) l).0 ≡ run calls l)

Made_lem :
    (P : Call → Type 0) (u : Unicode) (payload : Payload) (l : ResearchLedger)
    → Calls P (begin l) (progress u payload l)
    → Made P u payload l
unfolding apply_updates finish
Made_lem P u payload l c = (c.calls, c.each_in, c.leads)

any_evidence : (items : List (Option EvidenceItem)) → All (EvidenceIn (λ _. Unit)) items
any_evidence [] = tt
any_evidence (none ∷ items) = (tt, any_evidence items)
any_evidence (some item ∷ items) = (tt, any_evidence items)

any_conclusion : (items : List (Option ConclusionItem)) → All (ConclusionIn (λ _. Unit)) items
any_conclusion [] = tt
any_conclusion (none ∷ items) = (tt, any_conclusion items)
any_conclusion (some item ∷ items) = (tt, any_conclusion items)

Made-any : (u : Unicode) (payload : Payload) (l : ResearchLedger) → Made (λ _. Unit) u payload l
Made-any u payload l =
    Made_lem (λ _. Unit) u payload l
      (progress-Calls (λ _. Unit) u (λ _. tt) (λ _ _ _ _. tt) (λ _ _ _ _ _. tt) (λ _ _ _. tt)
        payload l (any_evidence payload.evidence) (any_conclusion payload.conclusions))

-- A batch, whatever its payload and its refusals, keeps every hypothesis under its key, with its id
-- and its whole history in front, and one revision more for each transition that it adds.
pub batch-Grows :
    (u : Unicode) (payload : Option Payload) (l : ResearchLedger)
    → Evolves Grows l.hypotheses (apply_updates u payload l).0.hypotheses
unfolding apply_updates
batch-Grows u none l = Evolves-refl Grows Grows-refl l.hypotheses
batch-Grows u (some payload) l =
    let (calls, _, leads) = Made-any u payload l in
    subst (λ (m : ResearchLedger). Evolves Grows l.hypotheses m.hypotheses) (sym leads)
      (run-Grows calls l)

-- A batch keeps the hypotheses consistent: stored under their own ids, with a legal status, which is
-- the status of the last transition, and as many transitions as the revision says.
pub batch-IsConsistent :
    (u : Unicode) (payload : Option Payload) (l : ResearchLedger)
    → Every IsConsistent l.hypotheses
    → Every IsConsistent (apply_updates u payload l).0.hypotheses
unfolding apply_updates
batch-IsConsistent u none l v = v
batch-IsConsistent u (some payload) l v =
    let (calls, _, leads) = Made-any u payload l in
    subst (λ (m : ResearchLedger). Every IsConsistent m.hypotheses) (sym leads)
      (run-IsConsistent calls l v)

-- No item of the payload registers the id `k` with an explicit `retracted=False`.
abbrev pub RestoresNothing : String → Payload → Type 0
RestoresNothing k payload = All (EvidenceIn (NotRestoring k)) payload.evidence

All-conclusions :
    (k : String) (items : List (Option ConclusionItem)) → All (ConclusionIn (NotRestoring k)) items
All-conclusions k [] = tt
All-conclusions k (none ∷ items) = (tt, All-conclusions k items)
All-conclusions k (some item ∷ items) = (tt, All-conclusions k items)

-- Evidence that is retracted stays registered and retracted through a batch that does not register
-- its id with an explicit `retracted=False`.
pub batch-IsRetracted :
    (u : Unicode) (k : String) (payload : Payload) (l : ResearchLedger)
    → RestoresNothing k payload
    → IsRetracted k l
    → IsRetracted k (apply_updates u (some payload) l).0
batch-IsRetracted u k payload l nothing r =
    let (calls, each_in, leads) = Made_lem (NotRestoring k) u payload l (
      progress-Calls (NotRestoring k) u (λ _. tt) (λ _ _ _ _. inr (λ e. cc)) (λ _ _ _ _ _. tt)
        (λ _ _ _. tt) payload l nothing (All-conclusions k payload.conclusions)) in
    subst (IsRetracted k) (sym leads) (run-IsRetracted k calls l each_in r)

-- No item of the payload stores a conclusion under the id `k`.
abbrev pub ConcludesNothing : String → Payload → Type 0
ConcludesNothing k payload = All (ConclusionIn (NotConcluding k)) payload.conclusions

All-evidence :
    (k : String) (items : List (Option EvidenceItem)) → All (EvidenceIn (NotConcluding k)) items
All-evidence k [] = tt
All-evidence k (none ∷ items) = (tt, All-evidence k items)
All-evidence k (some item ∷ items) = (tt, All-evidence k items)

-- A conclusion with a premise whose hypothesis has moved past the pinned revision is not valid after
-- a batch that does not store a conclusion under its id.
pub batch-invalidates :
    (u : Unicode) (id : Option String) (c : Conclusion) (p : String) (pinned : ℕ) (h : Hypothesis)
    (payload : Payload) (l : ResearchLedger)
    → lookup (id_of id) l.conclusions ≡ some c
    → lookup p c.premises ≡ some pinned
    → lookup p l.hypotheses ≡ some h
    → pinned < h.revision
    → ConcludesNothing (id_of id) payload
    → conclusion_is_valid id (apply_updates u (some payload) l).0 ≢ ok true
batch-invalidates u id c p pinned h payload l stored pins there moved_on nothing =
    let (calls, each_in, leads) = Made_lem (NotConcluding (id_of id)) u payload l (
      progress-Calls (NotConcluding (id_of id)) u (λ _. tt) (λ _ _ _ _. tt) (λ _ _ _ _ _. tt)
        (λ _ _ _. tt) payload l (All-evidence (id_of id) payload.evidence) nothing) in
    subst (λ (m : ResearchLedger). conclusion_is_valid id m ≢ ok true) (sym leads)
      (moved_premise_invalidates id c p pinned h calls l stored pins there moved_on each_in)
