-- ===== src/Trajectory/Tests.antt =====
-- The theorems of trajectory.py at a group of two calls, with a codec that knows these records.
use autonomous_llm_bot.Prelude.{
  ℕ, max, code, String, ◌≡◌, refl, ◌≢◌, Bool, true, false, Option, none, some, List, [], ◌∷◌, arith,
  if◌then◌else◌, ◌==◌, nat_eq, string_eq, all, contains, Result, ok, raise, eq_iff,
}
use autonomous_llm_bot.Json.{Value, object, Fields, no_fields, get, pop}
use autonomous_llm_bot.Text
use autonomous_llm_bot.Text.Lines.{
  entries, splitlines, nonblank, is_break, lines_from, has_break, IsLine,
}
use autonomous_llm_bot.Trajectory.{
  Codec, is_hex, as_flag, is_digest, decode_records, check_record, take_checked, take_object,
  take_line, Decoded,
}
use autonomous_llm_bot.Trajectory.Append.{
  ToolCall, discard, body_of, with_id, build_records, Fault, last_record, zip, append_tool_group,
  broken_log,
}
use autonomous_llm_bot.Trajectory.RoundTrip.{IsReadable}
use autonomous_llm_bot.Trajectory.Storing.{Extends, append-Extends}
use autonomous_llm_bot.Trajectory.Separators.{separator_breaks_log}
use autonomous_llm_bot.Trajectory.Source.{procedural_source}
use autonomous_llm_bot.Trajectory.Budget.{IsFront, groups_of, procedural_source-prefix}
use autonomous_llm_bot.Trajectory.Lookup.{IsAsked, Reports, lookup_records, lookup_records-Reports}
use autonomous_llm_bot.Prelude.Selected.{Selected}
use Prim.Native.String.{◌++◌ as append}
use Prim.Native.Char.{char}

abbrev zeros : String
zeros = "0000000000000000000000000000000000000000000000000000000000000000"

abbrev call_named : String → ToolCall
call_named id = record {
  id = some id;
  name = some "bash_exec";
  arguments = no_fields;
  arguments_chars = 2;
  failed = false;
  artifact_path = none;
}

abbrev first : Fields
first = with_id zeros (body_of (call_named "a") "one" true 1 none false)

abbrev second : Fields
second = with_id zeros (body_of (call_named "b") "two" false 1 (some zeros) true)

abbrev line_of : Option Value → Option Bool → String
line_of none ends = "body"
line_of (some id) none = "body"
line_of (some id) (some true) = "second"
line_of (some id) (some false) = "first"

abbrev codec : Codec
codec = record {
  canonical = λ r. line_of (get "id" r) (as_flag (get "group_end" r));
  loads = λ s.
      if s == "first"
      then some (object first)
      else if s == "second"
      then some (object second)
      else none;
  sha256 = λ s. zeros;
  real_is = λ s n. false;
}

digests : (s : String) → is_digest (codec.sha256 s) ≡ true
unfolding is_digest is_hex all
digests s = refl

abbrev group : String × Result Fault (List Fields)
group =
    append_tool_group codec 1 (call_named "a" ∷ call_named "b" ∷ []) ("one" ∷ "two" ∷ []) ("a" ∷ [])
      ""

group_ok : group.1 ≡ ok (first ∷ second ∷ [])
unfolding append_tool_group build_records zip discard decode_records entries splitlines nonblank
    last_record contains
group_ok = refl

first-IsReadable : IsReadable codec first
unfolding body_of with_id get pop has_break is_break Text.strip Text.is_space
first-IsReadable = record {
  parsed = first;
  loaded = refl;
  same = λ key. refl;
  body = refl;
  line = (refl, λ e. ground (arith, eq_iff "first" ""));
}

second-IsReadable : IsReadable codec second
unfolding body_of with_id get pop has_break is_break Text.strip Text.is_space
second-IsReadable = record {
  parsed = second;
  loaded = refl;
  same = λ key. refl;
  body = refl;
  line = (refl, λ e. ground (arith, eq_iff "second" ""));
}

append-Extends_example : Extends codec "" (first ∷ second ∷ []) group.0
append-Extends_example =
    append-Extends codec 1 (call_named "a" ∷ call_named "b" ∷ []) ("one" ∷ "two" ∷ []) ("a" ∷ []) ""
      (first ∷ second ∷ []) digests group_ok (first-IsReadable, (second-IsReadable, tt))

both_read :
    decode_records codec "first\nsecond\nthird"
    ≡ record { records = first ∷ second ∷ []; complete = false }
unfolding decode_records take_line take_object take_checked check_record is_digest is_hex all
    entries splitlines nonblank lines_from is_break body_of with_id get pop Text.strip Text.is_space
both_read = refl

-- A codec whose records have a line separator in their text.
abbrev separated : Codec
separated = record {
  canonical = λ r. append "front" (String.◌∷◌ (char 8232 tt) "behind");
  loads = λ s. none;
  sha256 = λ s. zeros;
  real_is = λ s n. false;
}

abbrev lone : Fields
lone = with_id zeros (body_of (call_named "a") "one" true 1 none true)

abbrev poisoned : String × Result Fault (List Fields)
poisoned = append_tool_group separated 1 (call_named "a" ∷ []) ("one" ∷ []) ("a" ∷ []) ""

poisoned_ok : poisoned.1 ≡ ok (lone ∷ [])
unfolding append_tool_group build_records zip discard decode_records entries splitlines nonblank
    last_record contains
poisoned_ok = refl

front_IsLine : IsLine "front"
unfolding has_break is_break Text.strip Text.is_space
front_IsLine = (refl, λ e. ground (arith, eq_iff "front" ""))

breaks : is_break (code (char 8232 tt)) ≡ true
unfolding is_break
breaks = refl

separator_breaks_log_example :
    (append_tool_group separated 2 [] [] [] poisoned.0).1 ≡ raise broken_log
separator_breaks_log_example =
    separator_breaks_log separated 1 (call_named "a" ∷ []) ("one" ∷ []) ("a" ∷ []) "" lone []
      "front" "behind" (char 8232 tt) poisoned_ok refl front_IsLine breaks refl 2 [] [] []
      (λ e. ground arith) refl

abbrev whole_log : Decoded
whole_log = record { records = first ∷ second ∷ []; complete = true }

lookup_records-Reports_example :
    (all : List Fields) × Selected (IsAsked 1 "b") whole_log.records all
    × Reports all (lookup_records whole_log 1 "b")
lookup_records-Reports_example = lookup_records-Reports whole_log 1 "b" (λ e. ground arith)

abbrev budget : ℕ
budget = 500

some_room : budget ≢ 0
some_room e = ground arith

procedural_source-prefix_example :
    IsFront
      (groups_of codec (λ v. "shown") whole_log 9 1)
      budget
      (max 1 1)
      (procedural_source codec (λ v. "shown") whole_log 9 budget 1)
procedural_source-prefix_example =
    procedural_source-prefix codec (λ v. "shown") whole_log 9 budget 1 some_room (omega arith)
