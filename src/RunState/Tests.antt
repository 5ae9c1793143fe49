-- ===== src/RunState/Tests.antt =====
-- The theorems of run_state.py at one record.
use mathlib.Core.Option
use autonomous_llm_bot.Prelude.{
  ◌≤◌, String, ◌≡◌, refl, subst, false, Option, none, some, [], ◌∷◌, arith, string_eq, all,
  contains, raise,
}
use autonomous_llm_bot.Text
use autonomous_llm_bot.Json.{
  Value, text, number, object, array, item, no_values, Fields, no_fields, field, get, fields_of,
  text_of, natural_of,
}
use autonomous_llm_bot.Trajectory.{is_digest, is_hex}
use autonomous_llm_bot.Ledger.State.{new}
use autonomous_llm_bot.Ledger.Calls.{adds_evidence, run}
use autonomous_llm_bot.Ledger.Restoring.{run-new-IsLedger}
use autonomous_llm_bot.Ledger.Restore.{untyped}
use autonomous_llm_bot.RunState.{
  Platform, TaskContract, normalize_task_contract, normalize_known_bad_calls, equals,
}
use autonomous_llm_bot.RunState.Manifest.{normalize_artifact_manifest}
use autonomous_llm_bot.RunState.Record.{RunProgress, Run, save}
use autonomous_llm_bot.RunState.Load.{load}
use autonomous_llm_bot.RunState.Failures.{AreFailures, normalize_known_bad_calls-AreFailures}
use autonomous_llm_bot.RunState.ItemLoop.{AreItems, normalize_artifact_manifest-AreItems}
use autonomous_llm_bot.RunState.Saved.{IsProgress, normalised, load-save}
use autonomous_llm_bot.RunState.Terminate.{terminate, load-terminate}

abbrev platform : Platform
platform = record {
  real_is = λ s n. false;
  is_other = λ c. false;
  convert = record { str = λ v. "?"; to_int = λ v. raise untyped };
}

abbrev digest : String
digest = "0123456789abcdef0123456789abcdef0123456789abcdef0123456789abcdef"

abbrev failed_call : Value
failed_call = array (
    item (text digest) (
      item
        (object (
          field "tool" (text "read_file") (
            field "target" (text "notes.md")
              (field "error" (text "missing") (field "first_step" (number 2) no_fields)))))
        no_values))

abbrev failed_calls : Option Value
failed_calls = some (array (item failed_call (item (number 3) no_values)))

abbrev artifact : Value
artifact = object (
    field "path" (text "out/a.txt")
      (field "kind" (text "tool_output") (field "step" (number 2) no_fields)))

abbrev artifacts : Option Value
artifacts = some (
    object (
      field "version" (number 1)
        (field "items" (array (item artifact (item artifact no_values))) no_fields)))

abbrev contract : Option Value
contract = some (
    object (
      field "version" (number 1)
        (field "origin_message_id" (number 7) (field "goal" (text " goal ") no_fields))))

abbrev saved_progress : RunProgress
saved_progress = record {
  next_step = 3;
  summary = "";
  tail = field "role" (text "user") no_fields ∷ [];
  ledger = run (adds_evidence (some "e1") (some "log line") (some "src") none none ∷ []) new;
  interrupt = no_fields;
  announced_call_ids = "c1" ∷ "c2" ∷ [];
  tool_fingerprints = (digest, 2) ∷ [];
  trajectory_gap_step = some 2;
  task_contract = contract;
  artifact_manifest = artifacts;
  source_run_id = some (text "other");
  source_step = some (number 0);
  known_bad_calls = failed_calls;
  artifact_chain = some (number 1);
  last_record_step = none;
}

abbrev this_run : Run
this_run = record {
  run_id = "r1";
  owner_id = 1;
  channel_id = 2;
  message_id = number 7;
  state = "running";
  updated_at = "now";
}

abbrev goal : TaskContract
goal = record { origin_message_id = 7; goal = "goal" }

goal_read : normalize_task_contract platform contract ≡ some goal
unfolding normalize_task_contract equals get fields_of text_of natural_of Text.strip Text.is_space
    Text.prefix
goal_read = refl

stripped : Text.strip goal.goal ≡ goal.goal
unfolding Text.strip Text.is_space
stripped = refl

goal_kept :
    (c : TaskContract)
    → normalize_task_contract platform contract ≡ some c
    → Text.strip c.goal ≡ c.goal
goal_kept c e =
    let same : goal ≡ c = cc (e, goal_read) in
    subst (λ (d : TaskContract). Text.strip d.goal ≡ d.goal) same stripped

two_positive : 1 ≤ 2
two_positive = omega arith

saved_progress-IsProgress : IsProgress platform saved_progress
unfolding is_digest is_hex all contains
saved_progress-IsProgress = record {
  step = omega arith;
  ledger = run-new-IsLedger _;
  ids_present = (refl, (refl, tt));
  ids_distinct = (refl, (refl, tt));
  fingerprints = ((refl, omega arith), tt);
  gap = λ n e. subst (λ k. 1 ≤ k) (ground (arith, e)) two_positive;
  goal_stripped = goal_kept;
}

load-save_example :
    (fs : Fields) × (save platform this_run saved_progress ≡ some fs)
    × (load platform "r1" (some (object fs)) ≡ some (normalised platform saved_progress))
load-save_example = load-save platform this_run saved_progress saved_progress-IsProgress

written : Option Value
written = some (object (load-save platform this_run saved_progress saved_progress-IsProgress).0)

is_read : load platform "r1" written ≡ some (normalised platform saved_progress)
unfolding written
is_read = (load-save platform this_run saved_progress saved_progress-IsProgress).2

load-terminate_example :
    load platform "r1" (Option.map object (terminate "" "later" written))
    ≡ some (normalised platform saved_progress)
load-terminate_example =
    load-terminate platform "r1" "" "later" written (normalised platform saved_progress) is_read

normalize_known_bad_calls-AreFailures_example : AreFailures (normalize_known_bad_calls failed_calls)
normalize_known_bad_calls-AreFailures_example = normalize_known_bad_calls-AreFailures failed_calls

normalize_artifact_manifest-AreItems_example :
    AreItems platform (normalize_artifact_manifest platform artifacts)
normalize_artifact_manifest-AreItems_example =
    normalize_artifact_manifest-AreItems platform artifacts
