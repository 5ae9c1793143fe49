-- ===== src/Ledger/Snapshot.antt =====
-- The snapshot that `to_dict` writes is restored by `from_dict` as the ledger that it was.
use mathlib.Core.List.{append_assoc, append-nil}
use autonomous_llm_bot.Prelude.{
  ℕ, String, ◌≡◌, refl, sym, ap, ◌∙◌, inl, inr, some, List, [], ◌∷◌, ◌++◌, ◌==◌, nat_eq, string_eq,
  Bool-cases, All, contains, Result, ok, eq_iff,
}
use autonomous_llm_bot.Dict.{Dict, values}
use autonomous_llm_bot.Json.{object, text, get, fields_of, text_of, truthy, Fields}
use autonomous_llm_bot.Dict.Unique.{IsUnique, Apart, insert_end, Apart-snoc, Apart-nil}
use autonomous_llm_bot.Ledger.State.{
  ResearchLedger, Transition, Hypothesis, EvidenceRecord, Conclusion,
}
use autonomous_llm_bot.Ledger.Markers.{
  transition_fields, evidence_fields, objects, hypothesis_fields, conclusion_fields, premise_fields,
  to_dict,
}
use autonomous_llm_bot.Ledger.Keyed.{IsFiled, IsEvidence, IsConclusions}
use autonomous_llm_bot.Ledger.Restore.{
  Convert, both, keys_within, text_entry, flag_entry, count_entry, evidence_of, transition_of,
  transitions_of, hypothesis_of, conclusion_of, Misfit, premises_of, restore_items, restore_section,
  goal_of, from_dict, restore_sections, restore_payload,
}

evidence_of-fields : (e : EvidenceRecord) → evidence_of (evidence_fields e) ≡ ok e
unfolding evidence_of keys_within get text_entry flag_entry text_of contains
evidence_of-fields e = refl

transition_of-fields : (t : Transition) → transition_of (object (transition_fields t)) ≡ ok t
unfolding transition_of keys_within get text_entry count_entry text_of fields_of contains
transition_of-fields t = refl

transitions_of-objects :
    (ts : List Transition) → transitions_of (objects transition_fields ts) ≡ ok ts
unfolding transitions_of objects both
transitions_of-objects [] = refl
transitions_of-objects (t ∷ ts) = rw (transition_of-fields t, transitions_of-objects ts) refl

hypothesis_of-fields : (h : Hypothesis) → hypothesis_of (hypothesis_fields h) ≡ ok h
unfolding hypothesis_of keys_within get text_entry count_entry text_of contains both
hypothesis_of-fields h = rw (transitions_of-objects h.transitions) refl

premises_of-fields :
    (c : Convert) (ps d : Dict String ℕ)
    → IsUnique ps
    → Apart d ps
    → premises_of c (premise_fields ps) d ≡ ok (d ++ ps)
unfolding premises_of premise_fields
premises_of-fields c [] d u p = rw append-nil refl
premises_of-fields c ((k, n) ∷ ps) d u p = rw (insert_end k n d p.0) (
    premises_of-fields c ps (d ++ ((k, n) ∷ [])) u.1 (Apart-snoc k n d ps u.0 p.1)
    ∙ ap ok (append_assoc d ((k, n) ∷ []) ps))

conclusion_of-fields :
    (c : Convert) (k : Conclusion)
    → IsUnique k.premises
    → conclusion_of c (conclusion_fields k) ≡ ok k
unfolding conclusion_of keys_within get text_entry count_entry text_of contains both
conclusion_of-fields c k u = rw (premises_of-fields c k.premises [] u (Apart-nil k.premises)) refl

module _ {A : Type 0} (make : Fields → Result Misfit A) (id : A → String)
    (fields : A → Fields) where
  restore_items-objects :
      (d e : Dict String A)
      → IsUnique e
      → IsFiled id e
      → Apart d e
      → All (λ a. make (fields a) ≡ ok a) (values e)
      → restore_items make id (objects fields (values e)) d ≡ ok (d ++ e)
  unfolding restore_items objects fields_of
  restore_items-objects d [] u f p m = rw append-nil refl
  restore_items-objects d ((j, a) ∷ e) u f p m =
      rw (m.0, f.0, insert_end j a d p.0)
        (restore_items-objects (d ++ ((j, a) ∷ [])) e u.1 f.1 (Apart-snoc j a d e u.0 p.1) m.1
          ∙ ap ok (append_assoc d ((j, a) ∷ []) e))

All-made : {A : Type 0} (P : A → Type 0) → ((a : A) → P a) → (xs : List A) → All P xs
All-made P h [] = tt
All-made P h (x ∷ xs) = (h x, All-made P h xs)

-- Every record stands under its own id, no key stands twice, and no conclusion has a premise twice.
pub record IsLedger (l : ResearchLedger) : Type 0 where
  pub evidence : IsEvidence l.evidence
  pub hypotheses_unique : IsUnique l.hypotheses
  pub hypotheses_filed : IsFiled (λ (h : Hypothesis). h.id) l.hypotheses
  pub conclusions : IsConclusions l.conclusions

conclusions_made :
    (c : Convert) (ks : List Conclusion)
    → All (λ (k : Conclusion). IsUnique k.premises) ks
    → All (λ k. conclusion_of c (conclusion_fields k) ≡ ok k) ks
conclusions_made c [] u = tt
conclusions_made c (k ∷ ks) u = (conclusion_of-fields c k u.0, conclusions_made c ks u.1)

goal_of-text : (c : Convert) (s : String) → goal_of c (some (text s)) ≡ s
unfolding goal_of truthy text_of
goal_of-text c s = elim (Bool-cases (s == "")) [
  | inl e ↦ rw e (sym ((eq_iff s "").0 e))
  | inr n ↦ rw n refl
]

pub from_dict-to_dict :
    (c : Convert) (l : ResearchLedger) → IsLedger l → from_dict c (object (to_dict l)) ≡ ok l
unfolding from_dict restore_payload restore_sections to_dict get fields_of both restore_section
from_dict-to_dict c l v =
    let registered =
      restore_items-objects evidence_of (λ (e : EvidenceRecord). e.id) evidence_fields [] l.evidence
        v.evidence.0 v.evidence.1 (Apart-nil l.evidence)
        (All-made _ evidence_of-fields (values l.evidence)) in
    let declared =
      restore_items-objects hypothesis_of (λ (h : Hypothesis). h.id) hypothesis_fields []
        l.hypotheses v.hypotheses_unique v.hypotheses_filed (Apart-nil l.hypotheses)
        (All-made _ hypothesis_of-fields (values l.hypotheses)) in
    let concluded =
      restore_items-objects (conclusion_of c) (λ (k : Conclusion). k.id) conclusion_fields []
        l.conclusions v.conclusions.0 v.conclusions.1 (Apart-nil l.conclusions)
        (conclusions_made c (values l.conclusions) v.conclusions.2) in
    rw (registered, declared, concluded, goal_of-text c l.goal) refl
