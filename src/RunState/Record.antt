-- ===== src/RunState/Record.antt =====
-- run_state.py, `save`: the durable record of a run, as the json object that is written, and as what
-- is read back. The file and its atomic replacement are outside.
use autonomous_llm_bot.Prelude.{
  ℕ, String, Option, none, some, List, [], ◌∷◌, leb, if◌then◌else◌, nat_eq, string_eq,
}
use autonomous_llm_bot.Json.{
  Value, null, number, text, array, object, Values, no_values, item, Fields, no_fields, field,
}
use autonomous_llm_bot.Guards.{KnownBad, KnownBadCalls}
use autonomous_llm_bot.Ledger.State.{ResearchLedger}
use autonomous_llm_bot.Ledger.Markers.{to_dict}
use autonomous_llm_bot.RunState.{
  Platform, normalize_artifact_chain, normalize_last_record_step, normalize_known_bad_calls,
  TaskContract, normalize_task_contract, normalize_source_run_id, normalize_source_step,
}
use autonomous_llm_bot.RunState.Manifest.{ManifestItem, normalize_artifact_manifest}

abbrev pub record_schema : ℕ
record_schema = 4

abbrev pub summary_version : ℕ
summary_version = 2

-- What `load` rebuilds of a record. Its other entries are returned as they were read.
pub record RunRecord : Type 0 where
  pub next_step : ℕ
  pub summary : String
  pub tail : List Fields
  pub ledger : ResearchLedger
  pub interrupt : Fields
  pub announced_call_ids : List String
  pub tool_fingerprints : List (String × ℕ)
  pub trajectory_gap_step : Option ℕ
  pub task_contract : Option TaskContract
  pub artifact_manifest : List ManifestItem
  pub source_run_id : Option String
  pub source_step : Option ℕ
  pub known_bad_calls : KnownBadCalls
  pub artifact_chain : ℕ
  pub last_record_step : ℕ

-- The run that a record is of, and when it is written.
pub record Run : Type 0 where
  pub run_id : String
  pub owner_id : ℕ
  pub channel_id : ℕ
  pub message_id : Value
  pub state : String
  pub updated_at : String

-- The arguments of `save`. What it normalises comes as any value.
pub record RunProgress : Type 0 where
  pub next_step : ℕ
  pub summary : String
  pub tail : List Fields
  pub ledger : ResearchLedger
  pub interrupt : Fields
  pub announced_call_ids : List String
  pub tool_fingerprints : List (String × ℕ)
  pub trajectory_gap_step : Option ℕ
  pub task_contract : Option Value
  pub artifact_manifest : Option Value
  pub source_run_id : Option Value
  pub source_step : Option Value
  pub known_bad_calls : Option Value
  pub artifact_chain : Option Value
  pub last_record_step : Option Value

abbrev pub step_or_null : Option ℕ → Value
step_or_null none = null
step_or_null (some n) = number n

abbrev pub text_or_null : Option String → Value
text_or_null none = null
text_or_null (some s) = text s

unfoldable pub values_of : {A : Type 0} → (A → Value) → List A → Values
values_of f [] = no_values
values_of f (x ∷ xs) = item (f x) (values_of f xs)

abbrev pub pair_value : Value → Value → Value
pair_value a b = array (item a (item b no_values))

abbrev pub fingerprint_value : String × ℕ → Value
fingerprint_value (f, n) = pair_value (text f) (number n)

abbrev pub contract_value : Option TaskContract → Value
contract_value none = null
contract_value (some c) = object (
    field "version" (number 1) (
      field "origin_message_id" (number c.origin_message_id)
        (field "goal" (text c.goal) no_fields)))

abbrev pub revision_fields : Option String → Fields
revision_fields none = no_fields
revision_fields (some r) = field "revision" (text r) no_fields

abbrev pub item_value : ManifestItem → Value
item_value i = object (
    field "path" (text i.path)
      (field "kind" (text i.kind) (field "step" (number i.step) (revision_fields i.revision))))

abbrev pub manifest_value : List ManifestItem → Value
manifest_value items =
    object
      (field "version" (number 1) (field "items" (array (values_of item_value items)) no_fields))

abbrev pub known_bad_fields : KnownBad → Fields
known_bad_fields b = field "tool" (text b.tool) (
    field "target" (text b.target) (
      field "error" (text b.error)
        (field "first_step" (number b.first_step) (field "count" (number b.count) no_fields))))

abbrev pub known_bad_value : String × KnownBad → Value
known_bad_value (f, b) = pair_value (text f) (object (known_bad_fields b))

-- The entries that `save` normalises.
unfoldable pub later_fields : Platform → Run → RunProgress → Fields
unfolding values_of
later_fields p run r =
    field "task_contract" (contract_value (normalize_task_contract p r.task_contract)) (
      field "artifact_manifest" (manifest_value (normalize_artifact_manifest p r.artifact_manifest))
        (field "source_run_id" (text_or_null (normalize_source_run_id p r.source_run_id)) (
          field "source_step" (step_or_null (normalize_source_step r.source_step)) (
            field "known_bad_calls"
              (array (values_of known_bad_value (normalize_known_bad_calls r.known_bad_calls)))
              (field "artifact_chain" (number (normalize_artifact_chain r.artifact_chain)) (
                field "last_record_step" (number (normalize_last_record_step r.last_record_step))
                  (field "updated_at" (text run.updated_at) no_fields)))))))

unfoldable pub state_fields : Platform → Run → RunProgress → Fields
unfolding values_of later_fields
state_fields p run r = field "ledger" (object (to_dict r.ledger)) (
    field "interrupt" (object r.interrupt) (
      field "announced_call_ids" (array (values_of text r.announced_call_ids)) (
        field "tool_fingerprints" (array (values_of fingerprint_value r.tool_fingerprints)) (
          field "trajectory_gap_step" (step_or_null r.trajectory_gap_step)
            (later_fields p run r)))))

unfoldable pub record_fields : Platform → Run → RunProgress → Fields
unfolding state_fields
record_fields p run r = field "schema" (number record_schema) (
    field "summary_version" (number summary_version) (
      field "run_id" (text run.run_id) (
        field "owner_id" (number run.owner_id) (
          field "channel_id" (number run.channel_id) (
            field "message_id" run.message_id (
              field "state" (text run.state) (
                field "next_step" (number r.next_step) (
                  field "summary" (text r.summary)
                    (field "tail" (array (values_of object r.tail)) (state_fields p run r))))))))))

-- The record that `save` writes; it raises ValueError for a gap at step 0.
unfoldable pub save : Platform → Run → RunProgress → Option Fields
unfolding record_fields
save p run r = elim r.trajectory_gap_step [
  | none ↦ some (record_fields p run r)
  | some n ↦ if leb 1 n then some (record_fields p run r) else none
]
