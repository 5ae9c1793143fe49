-- ===== src/Ledger/Keyed.antt =====
-- The dicts of a ledger hold every record under its own id, and no key twice.
use autonomous_llm_bot.Prelude.{
  ℕ, String, ◌≡◌, refl, sym, ◌∙◌, inl, inr, Bool, true, false, not, ◌&&◌, Option, none, some, List,
  [], ◌∷◌, ◌==◌, nat_eq, string_eq, ==_refl, Bool-cases, All, contains, Result, eq_iff,
  if_induction, result_induction,
}
use autonomous_llm_bot.Dict.{Dict, lookup, insert, values}
use autonomous_llm_bot.Dict.Unique.{IsUnique, insert-IsUnique}
use autonomous_llm_bot.Ledger.State.{
  ResearchLedger, Hypothesis, EvidenceRecord, Conclusion, id_of, clip, statement_chars, active,
  Refusal, transition_statuses,
}
use autonomous_llm_bot.Ledger.AddEvidence.{evidence_record, store_evidence, add_evidence}
use autonomous_llm_bot.Ledger.Hypotheses.{
  require_evidence, require_hypothesis, may_transition, commit_transition, transition,
  first_declaration, restated, later_declaration, declare_known, declare_hypothesis, reopen_found,
  reopen_hypothesis,
}
use autonomous_llm_bot.Ledger.Premises.{pin_premises, store_conclusion, add_conclusion}

module _ {A : Type 0} where
  -- The records stand under their ids.
  abbrev pub IsFiled : (A → String) → Dict String A → Type 0
  IsFiled id [] = Unit
  IsFiled id ((k, a) ∷ d) = (id a ≡ k) × IsFiled id d

  pub insert-IsFiled :
      (id : A → String) (k : String) (a : A) (d : Dict String A)
      → id a ≡ k
      → IsFiled id d
      → IsFiled id (insert k a d)
  unfolding insert
  insert-IsFiled id k a [] e f = (e, tt)
  insert-IsFiled id k a ((j, b) ∷ d) e f =
      if_induction (IsFiled id) (j == k) (λ same. (e ∙ sym ((eq_iff j k).0 same), f.1))
        (λ _. (f.0, insert-IsFiled id k a d e f.1))

pin_premises-IsUnique :
    (ps : List (Option String)) (d : Dict String ℕ) (l : ResearchLedger)
    → IsUnique d
    → IsUnique (pin_premises ps d l)
unfolding pin_premises
pin_premises-IsUnique [] d l u = u
pin_premises-IsUnique (p ∷ ps) d l u =
    pin_premises-IsUnique ps _ l
      (if_induction IsUnique (id_of p == "") (λ _. u) (λ _. insert-IsUnique (id_of p) _ d u))

-- The values of a dict after a write.
insert-values :
    {A : Type 0} (P : A → Type 0) (k : String) (a : A) (d : Dict String A)
    → P a
    → All P (values d)
    → All P (values (insert k a d))
unfolding insert
insert-values P k a [] p v = (p, tt)
insert-values {A} P k a ((j, b) ∷ d) p v =
    if_induction (λ (e : Dict String A). All P (values e)) (j == k) (λ _. (p, v.1))
      (λ _. (v.0, insert-values P k a d p v.1))

abbrev pub Evidence : Type 0
Evidence = Dict String EvidenceRecord

abbrev pub IsEvidence : Evidence → Type 0
IsEvidence d = IsUnique d × IsFiled (λ (e : EvidenceRecord). e.id) d

abbrev pub IsConclusions : Dict String Conclusion → Type 0
IsConclusions d =
    IsUnique d
    × IsFiled (λ (c : Conclusion). c.id) d
    × All (λ (c : Conclusion). IsUnique c.premises) (values d)

evidence_record-id :
    (k : String) (old : Option EvidenceRecord) (summary source : Option String)
    (retracted : Option Bool) (words : Option String)
    → (evidence_record k old summary source retracted words).id ≡ k
unfolding evidence_record
evidence_record-id k none summary source retracted words = refl
evidence_record-id k (some old) summary source retracted words = refl

store_evidence-IsEvidence :
    (k : String) (r : EvidenceRecord) (same : Bool) (l : ResearchLedger)
    → r.id ≡ k
    → IsEvidence l.evidence
    → IsEvidence (store_evidence k r same l).evidence
unfolding store_evidence
store_evidence-IsEvidence k r true l e v = v
store_evidence-IsEvidence k r false l e v =
    (insert-IsUnique k r l.evidence v.0, insert-IsFiled _ k r l.evidence e v.1)

pub add_evidence-IsEvidence :
    (id summary source : Option String) (retracted : Option Bool) (text : Option String)
    (l : ResearchLedger)
    → IsEvidence l.evidence
    → IsEvidence (add_evidence id summary source retracted text l).0.evidence
unfolding add_evidence
add_evidence-IsEvidence id summary source retracted text l v =
    if_induction (λ (r : ResearchLedger × Result Refusal EvidenceRecord). IsEvidence r.0.evidence)
      (id_of id == "") (λ _. v)
      (λ _.
        store_evidence-IsEvidence (id_of id) _ _ l
          (evidence_record-id (id_of id) (lookup (id_of id) l.evidence) summary source retracted
            text)
          v)

store_conclusion-IsConclusions :
    (k : String) (c : Conclusion) (same : Bool) (l : ResearchLedger)
    → c.id ≡ k
    → IsUnique c.premises
    → IsConclusions l.conclusions
    → IsConclusions (store_conclusion k c same l).conclusions
unfolding store_conclusion
store_conclusion-IsConclusions k c true l e u v = v
store_conclusion-IsConclusions k c false l e u v = (
  insert-IsUnique k c l.conclusions v.0,
  insert-IsFiled _ k c l.conclusions e v.1,
  insert-values _ k c l.conclusions u v.2,
)

pub add_conclusion-IsConclusions :
    (id statement : Option String) (premises : List (Option String)) (l : ResearchLedger)
    → IsConclusions l.conclusions
    → IsConclusions (add_conclusion id statement premises l).0.conclusions
unfolding add_conclusion
add_conclusion-IsConclusions id statement premises l v =
    if_induction (λ (r : ResearchLedger × Result Refusal Conclusion). IsConclusions r.0.conclusions)
      (id_of id == "") (λ _. v)
      (λ _.
        store_conclusion-IsConclusions (id_of id) _ _ l refl
          (pin_premises-IsUnique premises [] l tt) v)

abbrev Unique : ResearchLedger × Result Refusal Hypothesis → Type 0
Unique r = IsUnique r.0.hypotheses

transition-Unique :
    (k : String) (h : Hypothesis) (status : String) (evidence_id words : Option String)
    (is_reopen : Bool) (l : ResearchLedger)
    → IsUnique l.hypotheses
    → Unique (transition k h status evidence_id words is_reopen l)
unfolding transition
transition-Unique k h status evidence_id words is_reopen l u =
    result_induction (λ r. Unique (commit_transition k h status evidence_id words r l))
      (may_transition h status evidence_id is_reopen l) (λ e _. u)
      (λ _ _. insert-IsUnique k _ l.hypotheses u)

later-Unique :
    (k : String) (g : Hypothesis) (status : String) (evidence_id words : Option String)
    (m : ResearchLedger)
    → IsUnique m.hypotheses
    → Unique (later_declaration k status evidence_id words (g, m))
unfolding later_declaration
later-Unique k g status evidence_id words m u =
    if_induction Unique (not (status == g.status))
      (λ _. transition-Unique k g status evidence_id words false m u) (λ _. u)

known-Unique :
    (k : String) (h : Hypothesis) (s status : String) (evidence_id words : Option String)
    (l : ResearchLedger)
    → IsUnique l.hypotheses
    → Unique (later_declaration k status evidence_id words (restated k h s l))
unfolding restated
known-Unique k h s status evidence_id words l u =
    if_induction
      (λ (r : Hypothesis × ResearchLedger). Unique (later_declaration k status evidence_id words r))
      (not (s == "") && not (s == h.statement))
      (λ _. later-Unique k _ status evidence_id words _ (insert-IsUnique k _ l.hypotheses u))
      (λ _. later-Unique k h status evidence_id words l u)

declare_known-Unique :
    (k : String) (found : Option Hypothesis) (statement : Option String) (status : String)
    (evidence_id words : Option String) (l : ResearchLedger)
    → IsUnique l.hypotheses
    → Unique (declare_known k found statement status evidence_id words l)
unfolding declare_known first_declaration
declare_known-Unique k none statement status evidence_id words l u =
    result_induction (λ r. Unique (first_declaration k statement status evidence_id words r l))
      (require_evidence evidence_id true l) (λ e _. u) (λ _ _. insert-IsUnique k _ l.hypotheses u)
declare_known-Unique k (some h) statement status evidence_id words l u =
    known-Unique k h (clip statement statement_chars) status evidence_id words l u

pub declare-Unique :
    (id statement : Option String) (status : String) (evidence_id words : Option String)
    (l : ResearchLedger)
    → IsUnique l.hypotheses
    → Unique (declare_hypothesis id statement status evidence_id words l)
unfolding declare_hypothesis
declare-Unique id statement status evidence_id words l u =
    if_induction Unique (id_of id == "") (λ _. u)
      λ _.
        if_induction Unique (not (contains transition_statuses status)) (λ _. u)
          λ _.
            declare_known-Unique (id_of id) (lookup (id_of id) l.hypotheses) statement status
              evidence_id words l u

pub reopen-Unique :
    (id evidence_id words : Option String) (l : ResearchLedger)
    → IsUnique l.hypotheses
    → Unique (reopen_hypothesis id evidence_id words l)
unfolding reopen_hypothesis
reopen-Unique id evidence_id words l u =
    result_induction (λ r. Unique (reopen_found (id_of id) evidence_id words r l))
      (require_hypothesis id l) (λ e _. u)
      (λ h _. transition-Unique (id_of id) h active evidence_id words true l u)

-- Where no key stands twice, a property of what is found under each key is one of the entries.
pub IsFiled-lookup :
    {A : Type 0} (id : A → String) (d : Dict String A)
    → IsUnique d
    → ((k : String) (a : A) → lookup k d ≡ some a → id a ≡ k)
    → IsFiled id d
unfolding lookup
IsFiled-lookup id [] u h = tt
IsFiled-lookup id ((k, a) ∷ d) u h = (
  h k a (rw ==_refl refl),
  IsFiled-lookup id d u.1 (λ j b there. elim (Bool-cases (k == j)) [
    | inl same ↦ absurd (cc (u.0, there, (eq_iff k j).0 same))
    | inr other ↦ h j b (rw other there)
  ]),
)
