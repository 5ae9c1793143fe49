-- ===== src/Ledger/History.antt =====
-- The record of a hypothesis is consistent: it stands under its own stripped id, its status is a
-- legal one and that of its last transition, and its revision counts its transitions.
use autonomous_llm_bot.Prelude.{
  ℕ, ◌+◌, String, ◌≡◌, refl, true, Option, none, some, List, [], ◌∷◌, ◌++◌, arith, nat_eq,
  string_eq, length, length-append, contains,
}
use autonomous_llm_bot.Text.{strip}
use autonomous_llm_bot.Text.Strip.{strip_idem}
use autonomous_llm_bot.Ledger.State.{
  ResearchLedger, transition_statuses, note_chars, Transition, Hypothesis, text_or_empty, id_of,
  clip,
}
use autonomous_llm_bot.Ledger.Hypotheses.{
  moved, first_hypothesis, declare_hypothesis, reopen_hypothesis,
}
use autonomous_llm_bot.Ledger.Invariant.{Every, reopen-Every, declare-Every}

-- Status and revision of the last transition.
pub last_of : List Transition → Option (String × ℕ)
last_of [] = none
last_of (t ∷ []) = some (t.status, t.revision)
last_of (t ∷ u ∷ ts) = last_of (u ∷ ts)

pub last_of-append :
    (ts : List Transition) (t : Transition) → last_of (ts ++ t ∷ []) ≡ some (t.status, t.revision)
unfolding last_of
last_of-append [] t = refl
last_of-append (u ∷ []) t = refl
last_of-append (u ∷ v ∷ ts) t = last_of-append (v ∷ ts) t

pub record IsConsistent (k : String) (h : Hypothesis) : Type 0 where
  pub keyed : h.id ≡ k
  pub stripped : strip k ≡ k
  pub legal : contains transition_statuses h.status ≡ true
  pub counted : length h.transitions ≡ h.revision
  pub latest : last_of h.transitions ≡ some (h.status, h.revision)

move-IsConsistent :
    (k : String) (h : Hypothesis) (status evidence_id : String) (change_note : Option String)
    → contains transition_statuses status ≡ true
    → IsConsistent k h
    → IsConsistent k (moved h status evidence_id change_note)
unfolding moved
move-IsConsistent k h status evidence_id change_note legal v = record {
  keyed = v.keyed;
  stripped = v.stripped;
  legal = legal;
  counted = omega (
    arith,
    v.counted,
    length-append h.transitions (
        record {
          revision = h.revision + 1;
          status = status;
          evidence_id = evidence_id;
          note = clip change_note note_chars;
        }
        ∷ []),
  );
  latest = last_of-append h.transitions _;
}

restate-IsConsistent :
    (k : String) (h : Hypothesis) (s : String)
    → IsConsistent k h
    → IsConsistent k (record h { statement = s })
restate-IsConsistent k h s v = record {
  keyed = v.keyed;
  stripped = v.stripped;
  legal = v.legal;
  counted = v.counted;
  latest = v.latest;
}

first-IsConsistent :
    (x : Option String) (statement status evidence_id : String) (change_note : Option String)
    → contains transition_statuses status ≡ true
    → IsConsistent (id_of x) (first_hypothesis (id_of x) statement status evidence_id change_note)
unfolding id_of last_of
first-IsConsistent x statement status evidence_id change_note legal = record {
  keyed = refl;
  stripped = strip_idem (text_or_empty x);
  legal = legal;
  counted = refl;
  latest = refl;
}

-- A declaration keeps every hypothesis consistent, whatever its arguments and also where it raises.
pub declare-IsConsistent :
    (hypothesis_id statement : Option String) (status : String)
    (evidence_id change_note : Option String) (l : ResearchLedger)
    → Every IsConsistent l.hypotheses
    → Every IsConsistent
        (declare_hypothesis hypothesis_id statement status evidence_id change_note l).0.hypotheses
declare-IsConsistent =
    declare-Every IsConsistent restate-IsConsistent move-IsConsistent first-IsConsistent

pub reopen-IsConsistent :
    (hypothesis_id evidence_id change_note : Option String) (l : ResearchLedger)
    → Every IsConsistent l.hypotheses
    → Every IsConsistent (reopen_hypothesis hypothesis_id evidence_id change_note l).0.hypotheses
reopen-IsConsistent = reopen-Every IsConsistent restate-IsConsistent move-IsConsistent
