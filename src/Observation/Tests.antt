-- ===== src/Observation/Tests.antt =====
-- The theorems of observation.py at a small trajectory, with words for addresses.
use autonomous_llm_bot.Prelude.{
  ℕ, String, ◌≡◌, refl, ◌≢◌, ◌↔◌, true, false, none, some, List, [], ◌∷◌, if◌then◌else◌, ◌==◌,
  nat_eq, string_eq, All, contains,
}
use autonomous_llm_bot.Text
use autonomous_llm_bot.Dict.{lookup, insert}
use autonomous_llm_bot.Ledger.Duplicates.{is_part, unique}
use autonomous_llm_bot.Observation.{
  Library, normalize_url, add_target, collect_targets, extract_observation_targets, without_blanks,
  status_outcome, classify_observation_outcome, TrajectoryRecord, note_targets, note_record,
  note_records, known_steps, last_outcome, add_stale, collect_stale, find_stale_targets,
  check_observation_repeat,
}
use autonomous_llm_bot.Observation.Repeats.{sightings_of}
use autonomous_llm_bot.Observation.Refusals.{IsObserved, check-refuses_iff}

-- Every word of a command is an address without a scheme.
abbrev words : Library
words = record {
  lower = λ s. s;
  urlsplit = λ s. some (record { scheme = "http"; netloc = s; path = ""; query = "" });
  find_urls = Text.split;
  find_errors = λ s. if s == "404" then "404" ∷ [] else [];
  has_success = λ s. false;
  exit_code = λ s. none;
}

abbrev fetch : ℕ → String → String → TrajectoryRecord
fetch step command result = record {
  step = some step;
  tool = "bash_exec";
  executed = true;
  command = some command;
  result = result;
  failed = false;
}

abbrev records : List TrajectoryRecord
records = fetch 1 "a b" "404" ∷ fetch 2 "a" "fine" ∷ fetch 4 "a c" "404" ∷ []

two_targets : extract_observation_targets words (some "a b a") ≡ "http://a/" ∷ "http://b/" ∷ []
unfolding extract_observation_targets collect_targets add_target normalize_url contains Text.split
    Text.strip Text.is_space
two_targets = refl

check-refuses_iff_example : (check_observation_repeat words (some records) (some "a") 3 ≢ none) ↔ (
    (extract_observation_targets words (some "a") ≢ [])
    × All
        (λ t. IsObserved 3 (sightings_of words t records))
        (extract_observation_targets words (some "a")))
check-refuses_iff_example = check-refuses_iff words records (some "a") 3

refused :
    check_observation_repeat words (some records) (some "a") 3
    ≡ some (("http://a/", (1 ∷ 2 ∷ 4 ∷ [], "http404")) ∷ [])
unfolding check_observation_repeat find_stale_targets collect_stale add_stale note_records
    note_record note_targets known_steps last_outcome classify_observation_outcome status_outcome
    without_blanks is_part unique extract_observation_targets collect_targets add_target
    normalize_url lookup insert contains Text.split Text.strip Text.is_space
refused = refl
