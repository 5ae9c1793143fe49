-- ===== src/Ledger/Restore.antt =====
-- ledger.py, `ResearchLedger.from_dict`: a ledger from the snapshot that `to_dict` writes. The
-- records' constructors check which entries there are and not what they hold, so the code also
-- restores ledgers whose fields have values of another type: these are not values of the model, and
-- are told apart as `untyped`.
use autonomous_llm_bot.Prelude.{
  ℕ, String, Bool, true, false, ◌&&◌, Option, none, some, List, [], ◌∷◌, if◌then◌else◌, nat_eq,
  string_eq, contains, Result, ok, raise, ◌>>=◌,
}
use autonomous_llm_bot.Dict.{Dict, insert}
use autonomous_llm_bot.Json.{
  Value, boolean, number, negative, array, object, Values, no_values, item, Fields, no_fields,
  field, get, truthy, text_of, fields_of,
}
use autonomous_llm_bot.Ledger.State.{
  ResearchLedger, Transition, Hypothesis, EvidenceRecord, Conclusion, active,
}

-- A snapshot that `from_dict` raises ValueError for, and one that it restores with a value of a type
-- that the code does not write.
pub data Misfit : Type 0 where
  mismatch untyped : Misfit

pub record Convert : Type 0 where
  -- str of a value that is no text
  pub str : Value → String
  -- int of a value that is no whole number: whether it is one, or the call raises
  pub to_int : Value → Result Misfit ℕ

-- Both are restored, one after the other. What raises ends the whole, wherever it stands.
unfoldable pub both : {A B : Type 0} → Result Misfit A → Result Misfit B → Result Misfit (A × B)
both (ok a) (ok b) = ok (a, b)
both (ok a) (raise e) = raise e
both (raise mismatch) b = raise mismatch
both (raise untyped) (raise mismatch) = raise mismatch
both (raise untyped) (raise untyped) = raise untyped
both (raise untyped) (ok b) = raise untyped

-- A misfit that does not raise, and what follows it.
unfoldable pub after : {A : Type 0} → Misfit → Result Misfit A → Result Misfit A
after mismatch r = raise mismatch
after untyped (ok a) = raise untyped
after untyped (raise e) = raise e

unfoldable pub keys_within : List String → Fields → Bool
keys_within allowed no_fields = true
keys_within allowed (field k v fs) = contains allowed k && keys_within allowed fs

-- A key of a dict must be hashable.
hashable : Value → Bool
hashable (array vs) = false
hashable (object fs) = false
hashable v = true

-- The entries fit the constructor of a record with an id, and the id can be a key.
fits_record : List String → Fields → Bool
unfolding hashable
fits_record allowed fs =
    keys_within allowed fs && elim (get "id" fs) [ none ↦ false | some v ↦ hashable v ]

-- A text entry, or the default of the record where there is none.
unfoldable pub text_entry : Option Value → String → Result Misfit String
text_entry none default = ok default
text_entry (some v) default = elim (text_of (some v)) [ some s ↦ ok s | none ↦ raise untyped ]

unfoldable pub flag_entry : Option Value → Bool → Result Misfit Bool
flag_entry none default = ok default
flag_entry (some (boolean b)) default = ok b
flag_entry (some v) default = raise untyped

unfoldable pub count_entry : Option Value → ℕ → Result Misfit ℕ
count_entry none default = ok default
count_entry (some (number n)) default = ok n
count_entry (some v) default = raise untyped

abbrev pub evidence_keys : List String
evidence_keys = "id" ∷ "summary" ∷ "source" ∷ "retracted" ∷ "note" ∷ []

-- Evidence(**item)
unfoldable pub evidence_of : Fields → Result Misfit EvidenceRecord
unfolding fits_record
evidence_of fs =
    let typed = do
      id ← text_entry (get "id" fs) ""
      summary ← text_entry (get "summary" fs) ""
      source ← text_entry (get "source" fs) ""
      retracted ← flag_entry (get "retracted" fs) false
      note ← text_entry (get "note" fs) ""
      ok (record {
        id = id;
        summary = summary;
        source = source;
        retracted = retracted;
        note = note;
      })
    in if fits_record evidence_keys fs then typed else raise mismatch

-- key in d
abbrev pub has : String → Fields → Bool
has key fs = elim (get key fs) [ none ↦ false | some v ↦ true ]

abbrev pub transition_keys : List String
transition_keys = "revision" ∷ "status" ∷ "evidence_id" ∷ "note" ∷ []

-- Transition(**entry)
unfoldable pub transition_of : Value → Result Misfit Transition
transition_of v = elim (fields_of (some v)) [
  | none ↦ raise mismatch
  | some fs ↦
      let typed = do
        revision ← count_entry (get "revision" fs) 0
        status ← text_entry (get "status" fs) ""
        evidence_id ← text_entry (get "evidence_id" fs) ""
        note ← text_entry (get "note" fs) ""
        ok (record { revision = revision; status = status; evidence_id = evidence_id; note = note })
      in if keys_within transition_keys fs && has "revision" fs && has "status" fs
        then typed
        else raise mismatch
]

unfoldable pub transitions_of : Values → Result Misfit (List Transition)
transitions_of no_values = ok []
transitions_of (item v vs) = do (t, ts) ← both (transition_of v) (transitions_of vs); ok (t ∷ ts)

-- item.pop("transitions", [])
transitions_entry : Option Value → Result Misfit (List Transition)
transitions_entry none = ok []
transitions_entry (some (array vs)) = transitions_of vs
transitions_entry (some v) = raise mismatch

abbrev pub hypothesis_keys : List String
hypothesis_keys = "id" ∷ "statement" ∷ "status" ∷ "revision" ∷ "transitions" ∷ []

-- Hypothesis(transitions=…, **item)
unfoldable pub hypothesis_of : Fields → Result Misfit Hypothesis
unfolding fits_record transitions_entry
hypothesis_of fs =
    let typed : Result Misfit (String × String × String × ℕ) = do
      id ← text_entry (get "id" fs) ""
      statement ← text_entry (get "statement" fs) ""
      status ← text_entry (get "status" fs) active
      revision ← count_entry (get "revision" fs) 1
      ok (id, statement, status, revision)
    in do
      (transitions, rest) ←
          both (transitions_entry (get "transitions" fs))
            (if fits_record hypothesis_keys fs then typed else raise mismatch)
      ok (record {
        id = rest.0;
        statement = rest.1;
        status = rest.2;
        revision = rest.3;
        transitions = transitions;
      })

-- {str(key): int(value) for key, value in premises.items()}
int_of : Convert → Value → Result Misfit ℕ
int_of c (number n) = ok n
int_of c (negative n) = raise untyped
int_of c v = c.to_int v

unfoldable pub premises_of : Convert → Fields → Dict String ℕ → Result Misfit (Dict String ℕ)
unfolding int_of
premises_of c no_fields d = ok d
premises_of c (field k v fs) d = elim (int_of c v) [
  | ok n ↦ premises_of c fs (insert k n d)
  | raise e ↦ after e (premises_of c fs d)
]

premises_entry : Convert → Option Value → Result Misfit (Dict String ℕ)
premises_entry c none = ok []
premises_entry c (some (object fs)) = premises_of c fs []
premises_entry c (some v) = raise mismatch

abbrev pub conclusion_keys : List String
conclusion_keys = "id" ∷ "statement" ∷ "premises" ∷ []

-- Conclusion(premises=…, **item)
unfoldable pub conclusion_of : Convert → Fields → Result Misfit Conclusion
unfolding fits_record premises_entry
conclusion_of c fs =
    let typed : Result Misfit (String × String) = do
      id ← text_entry (get "id" fs) ""
      statement ← text_entry (get "statement" fs) ""
      ok (id, statement)
    in do
      (premises, rest) ←
          both (premises_entry c (get "premises" fs))
            (if fits_record conclusion_keys fs then typed else raise mismatch)
      ok (record { id = rest.0; statement = rest.1; premises = premises })

-- The loop over one section: each record is stored under its id.
module _ {A : Type 0} (make : Fields → Result Misfit A) (id : A → String) where
  unfoldable pub restore_items : Values → Dict String A → Result Misfit (Dict String A)
  restore_items no_values d = ok d
  restore_items (item v vs) d = elim (fields_of (some v)) [
    | none ↦ raise mismatch
    | some fs ↦ elim (make fs) [
      | ok a ↦ restore_items vs (insert (id a) a d)
      | raise e ↦ after e (restore_items vs d)
    ]
  ]

  -- `_required_list`, and the loop
  unfoldable pub restore_section : Option Value → Result Misfit (Dict String A)
  unfolding restore_items
  restore_section none = raise mismatch
  restore_section (some (array vs)) = restore_items vs []
  restore_section (some v) = raise mismatch

-- str(payload.get("goal") or "")
unfoldable pub goal_of : Convert → Option Value → String
goal_of c none = ""
goal_of c (some v) =
    if truthy v then elim (text_of (some v)) [ some s ↦ s | none ↦ c.str v ] else ""

unfoldable pub restore_sections : Convert → ℕ → Fields → Result Misfit ResearchLedger
unfolding goal_of restore_section
restore_sections c revision fs = do
  (evidence, rest) ← both (restore_section evidence_of (λ e. e.id) (get "evidence" fs)) (
      both (restore_section hypothesis_of (λ h. h.id) (get "hypotheses" fs))
        (restore_section (conclusion_of c) (λ k. k.id) (get "conclusions" fs)))
  ok (record {
    goal = goal_of c (get "goal" fs);
    revision = revision;
    evidence = evidence;
    hypotheses = rest.0;
    conclusions = rest.1;
  })

unfoldable pub restore_payload : Convert → Option Value → Fields → Result Misfit ResearchLedger
unfolding restore_sections
restore_payload c (some (number revision)) fs = restore_sections c revision fs
restore_payload c _ fs = raise mismatch

unfoldable pub from_dict : Convert → Value → Result Misfit ResearchLedger
unfolding restore_payload
from_dict c payload = elim (fields_of (some payload)) [
  | none ↦ raise mismatch
  | some fs ↦ restore_payload c (get "revision" fs) fs
]
