-- ===== src/Resume/Tests.antt =====
-- The theorem on the goal of a run, at a new run that is resumed with other words.
use autonomous_llm_bot.Prelude.{
  ◌≡◌, refl, true, false, none, some, [], arith, ◌==◌, string_eq, raise,
}
use autonomous_llm_bot.Text
use autonomous_llm_bot.Json.{null, number}
use autonomous_llm_bot.Ledger.Restore.{untyped}
use autonomous_llm_bot.Payload.Tail.{clip_summary_text}
use autonomous_llm_bot.RunState.{Platform, normalize_task_contract}
use autonomous_llm_bot.Resume.{Wording, Restored, Resolved, resolved_value, resolve_task_contract}
use autonomous_llm_bot.Resume.Goals.{goal_immutable}

abbrev platform : Platform
platform = record {
  real_is = λ s n. false;
  is_other = λ c. false;
  convert = record { str = λ v. "?"; to_int = λ v. raise untyped };
}

abbrev wording : Wording
wording = record { folded = λ s. s; has_english_marker = λ s. s == "continue" }

abbrev goal : Resolved
goal = record { origin_message_id = number 7; goal = "find it" }

abbrev later : Restored
later = record {
  task_contract = normalize_task_contract platform (some (resolved_value goal));
  tail = [];
  message_id = null;
}

goal_found : resolve_task_contract wording none (number 7) " find it " true ≡ some goal
unfolding resolve_task_contract clip_summary_text Text.strip Text.is_space
goal_found = refl

goal_immutable_example :
    resolve_task_contract wording (some later) (number 9) "continue" false ≡ some goal
goal_immutable_example =
    goal_immutable platform wording none (number 7) " find it " true 7 "find it"
      (λ old c e. absurd (cc)) goal_found (omega arith) refl later (number 9) "continue" false refl
