-- ===== src/Ledger/Rules.antt =====
-- The two rules that ledger.py states for hypotheses, as its methods keep them.
use autonomous_llm_bot.Prelude.{
  ◌+◌, String, ◌≡◌, refl, sym, ap, ◌∙◌, ◌≢◌, false, Option, List, [], ◌++◌, arith, string_eq,
  length, length-append, ok, eq_iff,
}
use autonomous_llm_bot.Ledger.State.{
  ResearchLedger, active, rejected, Transition, Hypothesis, id_of,
}
use autonomous_llm_bot.Ledger.Hypotheses.{
  moved, may_transition, declare_hypothesis, reopen_hypothesis,
}
use autonomous_llm_bot.Ledger.Evolution.{Evolves}
use autonomous_llm_bot.Ledger.Declaring.{declare-Evolves, reopen-Evolves, Restates}
use mathlib.Core.List.{append_assoc, append-nil}

-- From a rejected status, anything but active.
abbrev pub NotRevived : Hypothesis → Hypothesis → Type 0
NotRevived h h' = h.status ≡ rejected → h'.status ≢ active

not_active :
    (g : Hypothesis) (status : String) (evidence_id change_note : Option String)
    (m : ResearchLedger)
    → may_transition g status evidence_id false m ≡ ok tt
    → NotRevived g (moved g status (id_of evidence_id) change_note)
unfolding may_transition moved
not_active g status evidence_id change_note m passed r a =
    ground (arith, eq_iff g.status rejected, eq_iff status active)

-- A declaration, whatever its arguments and whether or not it is refused, leaves every rejected
-- hypothesis in place under its key and not active.
pub declare-NotRevived :
    (hypothesis_id statement : Option String) (status : String)
    (evidence_id change_note : Option String) (l : ResearchLedger)
    → Evolves NotRevived l.hypotheses
        (declare_hypothesis hypothesis_id statement status evidence_id change_note l).0.hypotheses
declare-NotRevived hypothesis_id statement status evidence_id change_note l =
    declare-Evolves NotRevived differ restates status evidence_id change_note
      (λ g m. not_active g status evidence_id change_note m) hypothesis_id statement l
  where
    differ : (h : Hypothesis) → NotRevived h h
    differ h r a = ground (arith, eq_iff rejected active)

    restates : (a b c : Hypothesis) → Restates a b → NotRevived b c → NotRevived a c
    restates a b c (s, e) n r = n (ap (λ (h : Hypothesis). h.status) e ∙ r)

-- A history that only grows: the new transitions come behind the old ones, each raises the revision
-- by one, and the id stays.
pub record Grows (h h' : Hypothesis) : Type 0 where
  pub more : List Transition
  pub appended : h'.transitions ≡ h.transitions ++ more
  pub counted : h'.revision ≡ h.revision + length more
  pub same_id : h'.id ≡ h.id

pub Grows-refl : (h : Hypothesis) → Grows h h
Grows-refl h = record {
  more = [];
  appended = sym (append-nil h.transitions);
  counted = omega arith;
  same_id = refl;
}

pub Grows-trans : (a b c : Hypothesis) → Grows a b → Grows b c → Grows a c
Grows-trans a b c p q = record {
  more = p.more ++ q.more;
  appended = rw (q.appended, p.appended) (append_assoc a.transitions p.more q.more);
  counted = omega (arith, p.counted, q.counted, length-append p.more q.more);
  same_id = q.same_id ∙ p.same_id;
}

Grows-restated : (a b c : Hypothesis) → Restates a b → Grows b c → Grows a c
Grows-restated a b c (s, e) g = record {
  more = g.more;
  appended = rw g.appended (ap (λ (h : Hypothesis). h.transitions ++ g.more) e);
  counted = rw g.counted (ap (λ (h : Hypothesis). h.revision + length g.more) e);
  same_id = g.same_id ∙ ap (λ (h : Hypothesis). h.id) e;
}

Grows-moved :
    (h : Hypothesis) (status evidence_id : String) (change_note : Option String)
    → Grows h (moved h status evidence_id change_note)
unfolding moved
Grows-moved h status evidence_id change_note = record {
  more = _;
  appended = refl;
  counted = refl;
  same_id = refl;
}

pub declare-Grows :
    (hypothesis_id statement : Option String) (status : String)
    (evidence_id change_note : Option String) (l : ResearchLedger)
    → Evolves Grows l.hypotheses
        (declare_hypothesis hypothesis_id statement status evidence_id change_note l).0.hypotheses
declare-Grows hypothesis_id statement status evidence_id change_note l =
    declare-Evolves Grows Grows-refl Grows-restated status evidence_id change_note
      (λ g m _. Grows-moved g status (id_of evidence_id) change_note) hypothesis_id statement l

pub reopen-Grows :
    (hypothesis_id evidence_id change_note : Option String) (l : ResearchLedger)
    → Evolves Grows l.hypotheses
        (reopen_hypothesis hypothesis_id evidence_id change_note l).0.hypotheses
reopen-Grows hypothesis_id evidence_id change_note l =
    reopen-Evolves Grows Grows-refl hypothesis_id evidence_id change_note l
      λ h _. Grows-moved h active (id_of evidence_id) change_note
