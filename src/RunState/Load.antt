-- ===== src/RunState/Load.antt =====
-- run_state.py, `load`: the checks of a record that is read, and what it is read as. The file is
-- outside.
use mathlib.Core.Option
use autonomous_llm_bot.Prelude.{
  ℕ, String, Bool, true, false, not, ◌&&◌, Option, none, some, List, [], ◌∷◌, if◌then◌else◌, ◌==◌,
  nat_eq, string_eq, all, contains, ok, raise,
}
use autonomous_llm_bot.Json.{
  Value, null, array, Values, no_values, item, Fields, get, text_of, fields_of, nonempty_text,
  natural_of, positive_of, truthy,
}
use autonomous_llm_bot.Trajectory.{is_digest}
use autonomous_llm_bot.Ledger.State.{ResearchLedger}
use autonomous_llm_bot.Ledger.Restore.{from_dict, has}
use autonomous_llm_bot.RunState.{
  Platform, equals, normalize_artifact_chain, normalize_last_record_step, pair_of,
  normalize_known_bad_calls, normalize_task_contract, normalize_source_run_id,
  normalize_source_step,
}
use autonomous_llm_bot.RunState.Manifest.{normalize_artifact_manifest}
use autonomous_llm_bot.RunState.Record.{record_schema, summary_version, RunRecord}

-- `_REQUIRED`
abbrev pub required : List String
required =
    "run_id" ∷ "state" ∷ "next_step" ∷ "summary" ∷ "summary_version" ∷ "tail" ∷ "ledger"
    ∷ "interrupt" ∷ "announced_call_ids" ∷ "tool_fingerprints" ∷ "trajectory_gap_step" ∷ []

-- A list of texts that are not empty.
unfoldable pub call_ids_of : Values → Option (List String)
call_ids_of no_values = some []
call_ids_of (item v vs) = elim (nonempty_text (some v)) [
  | none ↦ none
  | some id ↦ Option.map (λ ids. id ∷ ids) (call_ids_of vs)
]

-- len(set(xs)) == len(xs)
unfoldable pub is_distinct : List String → Bool
is_distinct [] = true
is_distinct (x ∷ xs) = not (contains xs x) && is_distinct xs

unfoldable pub announced_of : Option Value → Option (List String)
unfolding call_ids_of is_distinct
announced_of (some (array vs)) = elim (call_ids_of vs) [
  | none ↦ none
  | some ids ↦ if is_distinct ids then some ids else none
]
announced_of _ = none

unfoldable pub fingerprint_of : Value → Option (String × ℕ)
fingerprint_of v = elim (pair_of v) [
  | none ↦ none
  | some (f, n) ↦ elim (text_of (some f)) [
    | none ↦ none
    | some s ↦ if is_digest s then Option.map (λ k. (s, k)) (positive_of (some n)) else none
  ]
]

unfoldable pub fingerprints_of : Values → Option (List (String × ℕ))
unfolding fingerprint_of
fingerprints_of no_values = some []
fingerprints_of (item v vs) = elim (fingerprint_of v) [
  | none ↦ none
  | some x ↦ Option.map (λ xs. x ∷ xs) (fingerprints_of vs)
]

unfoldable pub fingerprints_entry : Option Value → Option (List (String × ℕ))
fingerprints_entry (some (array vs)) = fingerprints_of vs
fingerprints_entry _ = none

-- null, or a positive number
unfoldable pub gap_of : Option Value → Option (Option ℕ)
gap_of (some null) = some none
gap_of v = Option.map some (positive_of v)

-- [item for item in tail if isinstance(item, dict)]
unfoldable pub dicts_of : Values → List Fields
dicts_of no_values = []
dicts_of (item v vs) = elim (fields_of (some v)) [ some fs ↦ fs ∷ dicts_of vs | none ↦ dicts_of vs ]

unfoldable pub tail_of : Option Value → Option (List Fields)
unfolding dicts_of
tail_of (some (array vs)) = some (dicts_of vs)
tail_of _ = none

unfoldable pub object_of : Option Value → Option Fields
object_of v = fields_of v

-- `ResearchLedger.from_dict`. An entry of another type than the text that is expected, which the code
-- loads as it is, has no place in the model's ledger: `from_dict` calls it untyped, and the record counts
-- as unusable here.
unfoldable pub ledger_of : Platform → Option Value → Option ResearchLedger
ledger_of p none = none
ledger_of p (some v) = elim (from_dict p.convert v) [ ok l ↦ some l | raise e ↦ none ]

-- str(payload["summary"] or "")
unfoldable pub summary_of : Platform → Option Value → String
summary_of p none = ""
summary_of p (some v) =
    if truthy v then elim (text_of (some v)) [ some s ↦ s | none ↦ p.convert.str v ] else ""

infixl 5 ◌>>=◌
abbrev pub ◌>>=◌ {ℓ} : {A B : Type ℓ} → Option A → (A → Option B) → Option B
none >>= f = none
some a >>= f = f a

-- The header of a record of this run.
unfoldable pub is_record_of : Platform → String → Fields → Bool
is_record_of p run_id fs =
    equals p (get "schema" fs) record_schema
    && all (λ key. has key fs) required
    && elim (natural_of (get "summary_version" fs)) [ some n ↦ n == summary_version | none ↦ false ]
    && elim (text_of (get "run_id" fs)) [ some r ↦ r == run_id | none ↦ false ]

-- The shape of every entry is checked; one that does not fit makes the whole record unusable.
unfoldable pub load_fields : Platform → String → Fields → Option RunRecord
unfolding is_record_of announced_of fingerprints_entry gap_of tail_of object_of ledger_of summary_of
load_fields p run_id fs =
    let loaded = do
      next_step ← positive_of (get "next_step" fs)
      tail ← tail_of (get "tail" fs)
      interrupt ← object_of (get "interrupt" fs)
      announced ← announced_of (get "announced_call_ids" fs)
      fingerprints ← fingerprints_entry (get "tool_fingerprints" fs)
      gap ← gap_of (get "trajectory_gap_step" fs)
      ledger ← ledger_of p (get "ledger" fs)
      some (record {
        next_step = next_step;
        summary = summary_of p (get "summary" fs);
        tail = tail;
        ledger = ledger;
        interrupt = interrupt;
        announced_call_ids = announced;
        tool_fingerprints = fingerprints;
        trajectory_gap_step = gap;
        task_contract = normalize_task_contract p (get "task_contract" fs);
        artifact_manifest = normalize_artifact_manifest p (get "artifact_manifest" fs);
        source_run_id = normalize_source_run_id p (get "source_run_id" fs);
        source_step = normalize_source_step (get "source_step" fs);
        known_bad_calls = normalize_known_bad_calls (get "known_bad_calls" fs);
        artifact_chain = normalize_artifact_chain (get "artifact_chain" fs);
        last_record_step = normalize_last_record_step (get "last_record_step" fs);
      })
    in if is_record_of p run_id fs then loaded else none

-- `load` on what json.loads makes of the file: none where it cannot be read.
unfoldable pub load : Platform → String → Option Value → Option RunRecord
load p run_id payload = elim (fields_of payload) [ none ↦ none | some fs ↦ load_fields p run_id fs ]
