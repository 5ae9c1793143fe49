-- ===== src/RunState.antt =====
-- run_state.py, the entries of a run's durable record as `save` and `load` normalise them.
pub mod Manifest
pub mod Record
pub mod Load
pub mod Failures
pub mod Contract
pub mod Items
pub mod ItemLoop
pub mod Saved
pub mod Terminate
mod Tests
use autonomous_llm_bot.Prelude.{
  ℕ, String, Bool, true, false, not, ◌||◌, Option, none, some, List, [], ◌∷◌, leb, if◌then◌else◌,
  ◌==◌, nat_eq, string_eq, length, any,
}
use autonomous_llm_bot.Dict.{Dict, insert}
use autonomous_llm_bot.Json.{
  Value, boolean, number, real, text, array, object, Values, no_values, item, Fields, no_fields,
  field, get, text_of, fields_of, nonempty_text, natural_of, positive_of,
}
use autonomous_llm_bot.Text
use autonomous_llm_bot.Ledger.Restore.{Convert}
use autonomous_llm_bot.Trajectory.{is_digest}
use autonomous_llm_bot.Ledger.Duplicates.{codes}
use autonomous_llm_bot.Guards.{KnownBad, KnownBadCalls}

-- What the module takes from its surroundings.
pub record Platform : Type 0 where
  -- whether a number that is written with a fraction or an exponent equals a whole one
  pub real_is : String → ℕ → Bool
  -- whether the Unicode category of a code point starts with C
  pub is_other : ℕ → Bool
  pub convert : Convert

-- value == n, for an entry of a dict
unfoldable pub equals : Platform → Option Value → ℕ → Bool
equals p (some (number m)) n = m == n
equals p (some (boolean true)) n = n == 1
equals p (some (boolean false)) n = n == 0
equals p (some (real s)) n = p.real_is s n
equals p _ n = false

abbrev pub or_zero : Option ℕ → ℕ
or_zero none = 0
or_zero (some n) = n

unfoldable pub normalize_artifact_chain : Option Value → ℕ
normalize_artifact_chain v = or_zero (natural_of v)

unfoldable pub normalize_last_record_step : Option Value → ℕ
normalize_last_record_step v = or_zero (natural_of v)

abbrev pub known_bad_calls_max_items : ℕ
known_bad_calls_max_items = 20

-- entry.get("count", 1), if it is a positive number
abbrev pub failure_count : Option Value → Option ℕ
failure_count none = some 1
failure_count (some v) = positive_of (some v)

unfoldable pub known_bad_of :
    Option String → Option String → Option String → Option ℕ → Option ℕ → Option KnownBad
known_bad_of (some tool) (some target) (some error) (some first_step) (some count) = some (record {
  tool = Text.prefix 32 tool;
  target = Text.prefix 128 target;
  error = Text.prefix 32 error;
  first_step = first_step;
  count = count;
})
known_bad_of _ _ _ _ _ = none

-- An entry that is kept, shortened.
unfoldable pub known_bad_entry : Option Fields → Option KnownBad
unfolding known_bad_of
known_bad_entry none = none
known_bad_entry (some fs) =
    known_bad_of (nonempty_text (get "tool" fs)) (nonempty_text (get "target" fs))
      (nonempty_text (get "error" fs)) (positive_of (get "first_step" fs))
      (failure_count (get "count" fs))

-- A fingerprint with its entry, where both are kept.
unfoldable pub known_bad_item : Value × Value → Option (String × KnownBad)
known_bad_item (fingerprint, entry) = elim (text_of (some fingerprint)) [
  | none ↦ none
  | some f ↦ elim (known_bad_entry (fields_of (some entry))) [
    | none ↦ none
    | some b ↦ if is_digest f then some (f, b) else none
  ]
]

unfoldable pub items_of_fields : Fields → List (Value × Value)
items_of_fields no_fields = []
items_of_fields (field k v fs) = (text k, v) ∷ items_of_fields fs

-- isinstance(item, list) and len(item) == 2
abbrev pub pair_of : Value → Option (Value × Value)
pair_of (array (item a (item b no_values))) = some (a, b)
pair_of _ = none

unfoldable pub items_of_values : Values → List (Value × Value)
items_of_values no_values = []
items_of_values (item v vs) =
    let rest = items_of_values vs in elim (pair_of v) [ some x ↦ x ∷ rest | none ↦ rest ]

unfoldable pub known_bad_items : Option Value → List (Value × Value)
known_bad_items (some (object fs)) = items_of_fields fs
known_bad_items (some (array vs)) = items_of_values vs
known_bad_items _ = []

-- The loop: it ends when the dict is full.
unfoldable pub collect_known_bad : List (Value × Value) → KnownBadCalls → KnownBadCalls
collect_known_bad [] d = d
collect_known_bad (x ∷ xs) d = elim (known_bad_item x) [
  | none ↦ collect_known_bad xs d
  | some (f, b) ↦
      let d' = insert f b d in
      let rest = collect_known_bad xs d' in
      if leb known_bad_calls_max_items (length d') then d' else rest
]

unfoldable pub normalize_known_bad_calls : Option Value → KnownBadCalls
unfolding known_bad_items items_of_fields items_of_values collect_known_bad
normalize_known_bad_calls v = collect_known_bad (known_bad_items v) []

pub record TaskContract : Type 0 where
  pub origin_message_id : ℕ
  pub goal : String

abbrev pub task_goal_max_chars : ℕ
task_goal_max_chars = 4000

unfoldable pub contract_of : Option ℕ → Option String → Option TaskContract
contract_of (some origin) (some goal) =
    let stripped = Text.strip goal in
    if stripped == ""
    then none
    else some
        (record { origin_message_id = origin; goal = Text.prefix task_goal_max_chars stripped })
contract_of _ _ = none

unfoldable pub normalize_task_contract : Platform → Option Value → Option TaskContract
unfolding contract_of
normalize_task_contract p none = none
normalize_task_contract p (some v) = elim (fields_of (some v)) [
  | none ↦ none
  | some fs ↦
      if equals p (get "version" fs) 1
      then contract_of (positive_of (get "origin_message_id" fs)) (text_of (get "goal" fs))
      else none
]

unfoldable pub has_unsafe_path_chars : Platform → String → Bool
has_unsafe_path_chars p s = any p.is_other (codes s)

abbrev pub source_run_id_max_chars : ℕ
source_run_id_max_chars = 64

unfoldable pub source_text : Platform → String → Option String
unfolding has_unsafe_path_chars
source_text p stripped =
    if stripped == ""
      || not (leb (Text.length stripped) source_run_id_max_chars)
      || has_unsafe_path_chars p stripped
    then none
    else some stripped

unfoldable pub normalize_source_run_id : Platform → Option Value → Option String
unfolding source_text
normalize_source_run_id p v = elim (text_of v) [
  | none ↦ none
  | some s ↦ source_text p (Text.strip s)
]

unfoldable pub normalize_source_step : Option Value → Option ℕ
normalize_source_step v = positive_of v
