-- ===== src/Ledger/Loopholes.antt =====
-- Where `declare_hypothesis` does less than the rules of ledger.py say.
use autonomous_llm_bot.Prelude.{
  ℕ, ◌+◌, String, ◌≡◌, refl, subst, ◌≢◌, true, false, Option, none, some, [], ◌∷◌, arith, ==_iff,
  nat_eq, string_eq, ==_false, contains, ok, raise, eq_iff,
}
use autonomous_llm_bot.Dict.{lookup, lookup-insert_self, insert}
use autonomous_llm_bot.Text.{strip, split, join}
use autonomous_llm_bot.Text
use autonomous_llm_bot.Ledger.State.{
  ResearchLedger, active, rejected, confirmed, Hypothesis, id_of, clip, transition_statuses,
  statement_chars, already_rejected, note_chars, text_or_empty,
}
use autonomous_llm_bot.Ledger.Hypotheses.{
  transition, require_evidence, moved, may_transition, declare_hypothesis, first_hypothesis,
  reopen_hypothesis, cited_by,
}
use autonomous_llm_bot.Ledger.Invariant.{Every}
use autonomous_llm_bot.Ledger.History.{IsConsistent, declare-IsConsistent}
use autonomous_llm_bot.Ledger.Reopening.{IsLive, IsFresh, reopen-ok_iff}

clip-none : (n : ℕ) → clip none n ≡ ""
unfolding clip Text.split Text.join
clip-none n = ground arith

-- What a declaration with no statement does to a hypothesis that is there, where nothing refuses it.
abbrev pub moved_ledger :
    String → Hypothesis → String → Option String → ResearchLedger → ResearchLedger
moved_ledger k h status evidence_id l = record l {
  hypotheses = insert k (moved h status (id_of evidence_id) none) l.hypotheses;
  revision = l.revision + 1;
}

declare_moves :
    (x : Option String) (h : Hypothesis) (status : String) (evidence_id : Option String)
    (l : ResearchLedger)
    → id_of x ≢ ""
    → lookup (id_of x) l.hypotheses ≡ some h
    → contains transition_statuses status ≡ true
    → status ≢ h.status
    → may_transition h status evidence_id false l ≡ ok tt
    → (declare_hypothesis x none status evidence_id none l).0
      ≡ moved_ledger (id_of x) h status evidence_id l
unfolding declare_hypothesis transition
declare_moves x h status evidence_id l named there legal other passed = rw (
  ==_false (id_of x) "" named,
  legal,
  there,
  clip-none statement_chars,
  ==_false status h.status other,
  passed,
)

confirmed_passes :
    (h : Hypothesis) (l : ResearchLedger) (evidence_id : Option String)
    → id_of evidence_id ≢ ""
    → IsLive (id_of evidence_id) l
    → may_transition h confirmed evidence_id false l ≡ ok tt
unfolding may_transition require_evidence contains
confirmed_passes h l evidence_id some_id live =
    ground (arith, eq_iff confirmed active, eq_iff (id_of evidence_id) "", live.1, live.2)

active_passes :
    (h : Hypothesis) (l : ResearchLedger)
    → h.status ≡ confirmed
    → may_transition h active none false l ≡ ok tt
unfolding may_transition require_evidence contains id_of strip
active_passes h l c = ground (arith, eq_iff h.status rejected, eq_iff confirmed rejected)

-- A rejected hypothesis becomes active again by two declarations and no reopening: the first calls
-- it confirmed and cites any live evidence, also evidence that the hypothesis has cited before; the
-- second calls it active and cites nothing.
pub revived_by_declarations :
    (x evidence_id : Option String) (h : Hypothesis) (l : ResearchLedger)
    → id_of x ≢ ""
    → lookup (id_of x) l.hypotheses ≡ some h
    → h.status ≡ rejected
    → id_of evidence_id ≢ ""
    → IsLive (id_of evidence_id) l
    → let m = (declare_hypothesis x none confirmed evidence_id none l).0 in
      let n = (declare_hypothesis x none active none none m).0 in
      (h' : Hypothesis) × (lookup (id_of x) n.hypotheses ≡ some h') × (h'.status ≡ active)
unfolding moved contains
revived_by_declarations x evidence_id h l named there refuted some_id live =
    let g = moved h confirmed (id_of evidence_id) none in
    let m = moved_ledger (id_of x) h confirmed evidence_id l in
    let first =
      declare_moves x h confirmed evidence_id l named there refl
        (λ e. ground (arith, eq_iff confirmed rejected))
        (confirmed_passes h l evidence_id some_id live) in
    let here = lookup-insert_self (id_of x) g l.hypotheses in
    let second =
      declare_moves x g active none m named here refl (λ e. ground (arith, eq_iff active confirmed))
        (active_passes g m refl) in
    (
      moved g active (id_of none) none,
      rw (first, second) (lookup-insert_self (id_of x) _ m.hypotheses),
      refl,
    )

declare_first :
    (x evidence_id : Option String) (status : String) (l : ResearchLedger)
    → id_of x ≢ ""
    → lookup (id_of x) l.hypotheses ≡ none
    → contains transition_statuses status ≡ true
    → require_evidence evidence_id true l ≡ ok tt
    → (declare_hypothesis x none status evidence_id none l).0 ≡ record l {
      hypotheses =
          insert
            (id_of x)
            (first_hypothesis
              (id_of x)
              (clip none statement_chars)
              status
              (text_or_empty evidence_id)
              none)
            l.hypotheses;
      revision = l.revision + 1;
    }
unfolding declare_hypothesis
declare_first x evidence_id status l named absent legal passed =
    rw (==_false (id_of x) "" named, legal, absent, passed)

live_passes :
    (evidence_id : Option String) (l : ResearchLedger)
    → IsLive (id_of evidence_id) l
    → id_of evidence_id ≢ ""
    → require_evidence evidence_id true l ≡ ok tt
unfolding require_evidence
live_passes evidence_id l live some_id =
    ground (arith, eq_iff (id_of evidence_id) "", live.1, live.2)

uncited_padded :
    (e p note : String)
    → e ≢ p
    → contains
        (cited_by (record { revision = 1; status = rejected; evidence_id = p; note = note } ∷ []))
        e
      ≡ false
unfolding contains cited_by
uncited_padded e p note ne = ground (arith, eq_iff p e, eq_iff p "")

-- A first declaration stores the evidence id as it was written, a reopening compares the stripped
-- id: with white space round it, the evidence that a hypothesis was rejected by reopens it.
pub padded_evidence_reused :
    (x : Option String) (p : String) (l : ResearchLedger)
    → Every IsConsistent l.hypotheses
    → id_of x ≢ ""
    → lookup (id_of x) l.hypotheses ≡ none
    → strip p ≢ p
    → strip p ≢ ""
    → IsLive (strip p) l
    → let m = (declare_hypothesis x none rejected (some p) none l).0 in
      (h' : Hypothesis) × ((reopen_hypothesis x (some p) none m).1 ≡ ok h') × (h'.status ≡ active)
unfolding id_of moved contains
padded_evidence_reused x p l v named absent padded some_id live = (
  moved g active (strip p) none,
  rw first ((reopen-ok_iff x (some p) none g m consistent here).1 fresh),
  refl,
)
  where
    g : Hypothesis
    g = first_hypothesis (id_of x) (clip none statement_chars) rejected p none

    m : ResearchLedger
    m = record l { hypotheses = insert (id_of x) g l.hypotheses; revision = l.revision + 1 }

    legal : contains transition_statuses rejected ≡ true
    legal = refl

    first : (declare_hypothesis x none rejected (some p) none l).0 ≡ m
    first =
        declare_first x (some p) rejected l named absent legal (live_passes (some p) l live some_id)

    here : lookup (id_of x) m.hypotheses ≡ some g
    here = lookup-insert_self (id_of x) g l.hypotheses

    consistent : Every IsConsistent m.hypotheses
    consistent =
        subst (λ (n : ResearchLedger). Every IsConsistent n.hypotheses) first
          (declare-IsConsistent x none rejected (some p) none l v)

    fresh : IsFresh g (strip p) m
    fresh = record {
      named = some_id;
      live = live;
      uncited = uncited_padded (strip p) p (clip none note_chars) padded;
    }

-- A declaration that is refused because the hypothesis is rejected has already replaced the
-- statement and raised the ledger's revision.
pub refused_declaration_writes :
    (x statement evidence_id change_note : Option String) (h : Hypothesis) (l : ResearchLedger)
    → id_of x ≢ ""
    → lookup (id_of x) l.hypotheses ≡ some h
    → h.status ≡ rejected
    → clip statement statement_chars ≢ ""
    → clip statement statement_chars ≢ h.statement
    → let (m, result) = declare_hypothesis x statement active evidence_id change_note l in
      (result ≡ raise (already_rejected h.id h.status h.revision))
      × (m.revision ≡ l.revision + 1)
      × (lookup (id_of x) m.hypotheses
          ≡ some (record h { statement = clip statement statement_chars }))
unfolding declare_hypothesis transition may_transition contains
refused_declaration_writes x statement evidence_id change_note h l named there refuted full other =
    rw
      (
        ==_false (id_of x) "" named,
        there,
        ==_false (clip statement statement_chars) "" full,
        ==_false (clip statement statement_chars) h.statement other,
        ==_false active h.status (λ e. ground (arith, eq_iff active rejected)),
        (==_iff h.status rejected).1 refuted,
      )
      (refl, refl, lookup-insert_self (id_of x) _ l.hypotheses)
