-- ===== src/Ledger/Invariant.antt =====
-- What holds of every hypothesis of a ledger, for any predicate that the writes of a call keep.
use autonomous_llm_bot.Prelude.{
  String, ◌≡◌, inl, inr, Bool, true, false, not, ◌&&◌, Option, some, [], ◌∷◌, arith, ◌==◌,
  string_eq, Bool-cases, Option-cases, contains, Result, ok, eq_iff, contains_here, if_induction,
  result_induction,
}
use autonomous_llm_bot.Dict.{lookup, insert, lookup-insert}
use autonomous_llm_bot.Ledger.State.{
  ResearchLedger, active, rejected, confirmed, transition_statuses, statement_chars, Hypothesis,
  Refusal, text_or_empty, id_of, clip,
}
use autonomous_llm_bot.Ledger.Hypotheses.{
  transition, require_evidence, require_hypothesis, moved, may_transition, commit_transition,
  first_hypothesis, first_declaration, restated, later_declaration, declare_hypothesis,
  reopen_hypothesis,
}
use mathlib.Core.Path.{subst₂}
use autonomous_llm_bot.Ledger.Evolution.{Hypotheses}

abbrev pub Every : (String → Hypothesis → Type 0) → Hypotheses → Type 0
Every P hs = (k : String) (h : Hypothesis) → lookup k hs ≡ some h → P k h

module _ (P : String → Hypothesis → Type 0) where
  pub Every-insert :
      (k : String) (h' : Hypothesis) (hs : Hypotheses)
      → Every P hs
      → P k h'
      → Every P (insert k h' hs)
  Every-insert k h' hs v p j g here = elim (Bool-cases (k == j)) [
    | inl eq ↦ subst₂ P ((eq_iff k j).0 eq) (written eq) p
    | inr ne ↦ v j g (kept ne)
  ]
    where
      written : (k == j) ≡ true → h' ≡ g
      written eq = ground (arith, lookup-insert k j h' hs)

      kept : (k == j) ≡ false → lookup j hs ≡ some g
      kept ne = ground (arith, lookup-insert k j h' hs)

  pub transition-Every :
      (k : String) (h : Hypothesis) (status : String) (evidence_id change_note : Option String)
      (is_reopen : Bool) (l : ResearchLedger)
      → Every P l.hypotheses
      → (may_transition h status evidence_id is_reopen l ≡ ok tt
          → P k (moved h status (id_of evidence_id) change_note))
      → Every P (transition k h status evidence_id change_note is_reopen l).0.hypotheses
  unfolding transition
  transition-Every k h status evidence_id change_note is_reopen l v step =
      result_induction
        (λ r. Every P (commit_transition k h status evidence_id change_note r l).0.hypotheses)
        (may_transition h status evidence_id is_reopen l) (λ e _. v)
        λ _ passed.
          Every-insert k (moved h status (id_of evidence_id) change_note) l.hypotheses v
            (step passed)

  module _
      (restate : (k : String) (h : Hypothesis) (s : String)
        → P k h
        → P k (record h { statement = s }))
      (move : (k : String) (h : Hypothesis) (status evidence_id : String)
          (change_note : Option String)
        → contains transition_statuses status ≡ true
        → P k h
        → P k (moved h status evidence_id change_note)) where
    pub reopen-Every :
        (hypothesis_id evidence_id change_note : Option String) (l : ResearchLedger)
        → Every P l.hypotheses
        → Every P (reopen_hypothesis hypothesis_id evidence_id change_note l).0.hypotheses
    unfolding reopen_hypothesis require_hypothesis
    reopen-Every hypothesis_id evidence_id change_note l v =
        elim (Option-cases (lookup (id_of hypothesis_id) l.hypotheses)) [
          | inl absent ↦ rw absent v
          | inr (h, there) ↦ rw there (
              transition-Every (id_of hypothesis_id) h active evidence_id change_note true l v λ _.
                move (id_of hypothesis_id) h active (id_of evidence_id) change_note
                  (contains_here active (rejected ∷ confirmed ∷ [])) (v _ h there))
        ]

    later-Every :
        (k : String) (g : Hypothesis) (status : String) (evidence_id change_note : Option String)
        (m : ResearchLedger)
        → contains transition_statuses status ≡ true
        → Every P m.hypotheses
        → P k g
        → Every P (later_declaration k status evidence_id change_note (g, m)).0.hypotheses
    unfolding later_declaration
    later-Every k g status evidence_id change_note m legal v p =
        if_induction (λ (r : ResearchLedger × Result Refusal Hypothesis). Every P r.0.hypotheses)
          (not (status == g.status))
          (λ _.
            transition-Every k g status evidence_id change_note false m v
              λ _. move k g status (id_of evidence_id) change_note legal p)
          (λ _. v)

    known-Every :
        (k : String) (h : Hypothesis) (s status : String) (evidence_id change_note : Option String)
        (l : ResearchLedger)
        → contains transition_statuses status ≡ true
        → Every P l.hypotheses
        → P k h
        → Every P
            (later_declaration k status evidence_id change_note (restated k h s l)).0.hypotheses
    unfolding restated
    known-Every k h s status evidence_id change_note l legal v p =
        if_induction
          (λ (r : Hypothesis × ResearchLedger).
            Every P (later_declaration k status evidence_id change_note r).0.hypotheses)
          (not (s == "") && not (s == h.statement))
          (λ _.
            later-Every k h' status evidence_id change_note _ legal
              (Every-insert k h' l.hypotheses v (restate k h s p)) (restate k h s p))
          (λ _. later-Every k h status evidence_id change_note l legal v p)
      where
        h' : Hypothesis
        h' = record h { statement = s }

    module _
        (first : (x : Option String) (statement : String) (status evidence_id : String)
            (change_note : Option String)
          → contains transition_statuses status ≡ true
          → P (id_of x) (first_hypothesis (id_of x) statement status evidence_id change_note)) where
      pub declare-Every :
          (hypothesis_id statement : Option String) (status : String)
          (evidence_id change_note : Option String) (l : ResearchLedger)
          → Every P l.hypotheses
          → Every P
              (declare_hypothesis hypothesis_id statement status evidence_id change_note
                l).0.hypotheses
      unfolding declare_hypothesis first_declaration
      declare-Every hypothesis_id statement status evidence_id change_note l v =
          if_induction Q (id_of hypothesis_id == "") (λ _. v)
            λ _.
              if_induction Q (not (contains transition_statuses status)) (λ _. v)
                λ listed. elim (Option-cases (lookup (id_of hypothesis_id) l.hypotheses)) [
                  | inl absent ↦ rw absent (
                      result_induction
                        (λ r. Q (
                          first_declaration (id_of hypothesis_id) statement status evidence_id
                            change_note r l))
                        (require_evidence evidence_id true l) (λ e _. v)
                        λ _ _. Every-insert _ _ l.hypotheses v (
                          first hypothesis_id (clip statement statement_chars) status
                            (text_or_empty evidence_id) change_note (ground arith)))
                  | inr (h, there) ↦ rw there (
                      known-Every (id_of hypothesis_id) h (clip statement statement_chars) status
                        evidence_id change_note l (ground arith) v (v _ h there))
                ]
        where
          Q : ResearchLedger × Result Refusal Hypothesis → Type 0
          Q r = Every P r.0.hypotheses
