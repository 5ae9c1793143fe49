-- ===== src/Guards.antt =====
-- bot.py: the guards that the agent loop asks before and after a tool call. A refusal is kept as its
-- data: reason, tool, limit, count and first step; the directive that goes with a reason is a fixed
-- text. Arguments are the entries of the object, `none` where they are not an object.
use autonomous_llm_bot.Prelude.{
  ℕ, ◌+◌, ◌-◌, String, Bool, false, not, ◌&&◌, ◌||◌, Option, none, some, List, [], ◌∷◌, ltb, leb,
  if◌then◌else◌, ◌==◌, nat_eq, string_eq, length, contains,
}
use autonomous_llm_bot.Json.{
  is_set, Value, null, boolean, number, text, array, no_values, object, Fields, no_fields, field,
  get,
}
use autonomous_llm_bot.Dict.{Dict, lookup, insert, remove}
use autonomous_llm_bot.Text
use autonomous_llm_bot.Trajectory.{Codec}
use autonomous_llm_bot.Ledger.State.{or_text}
use Prim.Native.String.{◌++◌ as append}
pub mod Memory
pub mod Streak
mod Tests

pub record Library : Type 0 where
  pub codec : Codec
  -- int(value), or the value where that raises
  pub to_int : Value → Value
  -- str(value)
  pub show : Value → String

abbrev pub tool_loop_guard_tools : List String
tool_loop_guard_tools = "bash_exec" ∷ "read_file" ∷ "web_search" ∷ []

abbrev pub known_bad_calls_max : ℕ
known_bad_calls_max = 20

abbrev pub record_state_stale_steps : ℕ
record_state_stale_steps = 25

abbrev pub think_debt_failures : ℕ
think_debt_failures = 6

-- args.get(key, "")
abbrev pub or_empty_text : Option Value → Value
or_empty_text none = text ""
or_empty_text (some v) = v

-- if args.get(key) is not None: normalized[key] = int(args[key])
abbrev pub with_int : Library → String → Option Value → Fields → Fields
with_int lib key none rest = rest
with_int lib key (some null) rest = rest
with_int lib key (some v) rest = field key (lib.to_int v) rest

-- What a call does, without the fields that do not change it; `none` where the tool has no such key.
unfoldable pub normalized_action : Library → String → Fields → Option Fields
normalized_action lib tool_name args =
    if tool_name == "read_file"
    then some (
        field "path" (or_empty_text (get "path" args)) (
          with_int lib "offset" (get "offset" args)
            (with_int lib "limit" (get "limit" args) no_fields)))
    else if tool_name == "bash_exec"
    then some (field "command" (or_empty_text (get "command" args)) no_fields)
    else if tool_name == "web_search"
    then some (field "query" (or_empty_text (get "query" args)) no_fields)
    else none

unfoldable pub digest_action : Library → String → Fields → String
digest_action lib tool_name action =
    lib.codec.sha256 (append tool_name (append "\0" (lib.codec.canonical action)))

-- `_tool_fingerprint`, `none` where it raises `KeyError`
unfoldable pub tool_fingerprint : Library → String → Fields → Option String
unfolding normalized_action digest_action
tool_fingerprint lib tool_name args = elim (normalized_action lib tool_name args) [
  | none ↦ none
  | some action ↦ some (digest_action lib tool_name action)
]

pub record Blocked : Type 0 where
  pub reason : String
  pub tool : String
  pub limit : ℕ
  pub count : ℕ
  pub first_step : Option ℕ

abbrev target_key : String → String
target_key tool_name =
    if tool_name == "bash_exec"
    then "command"
    else if tool_name == "read_file"
    then "path"
    else if tool_name == "web_search"
    then "query"
    else ""

unfoldable pub known_bad_target : Library → String → Fields → String
known_bad_target lib tool_name args =
    let target = lib.show (or_empty_text (get (target_key tool_name) args)) in
    if leb (Text.length target) 80 then target else append (Text.prefix 77 target) "..."

pub record KnownBad : Type 0 where
  pub tool : String
  pub target : String
  pub error : String
  pub first_step : ℕ
  pub count : ℕ

abbrev pub KnownBadCalls : Type 0
KnownBadCalls = Dict String KnownBad

-- while len(known_bad_calls) > KNOWN_BAD_CALLS_MAX: drop the oldest
unfoldable pub evict : KnownBadCalls → KnownBadCalls
evict [] = []
evict (x ∷ d) =
    let rest = evict d in if ltb known_bad_calls_max (length (x ∷ d)) then rest else x ∷ d

-- The entry with its count raised, new if there was none.
abbrev pub bumped : KnownBad → Option KnownBad → KnownBad
bumped fresh none = record fresh { count = fresh.count + 1 }
bumped fresh (some old) = record old { count = old.count + 1 }

unfoldable pub remember : Option String → KnownBad → KnownBadCalls → KnownBadCalls
remember none fresh known = known
remember (some f) fresh known = evict (insert f (bumped fresh (lookup f known)) known)

-- The entry of a call that has not failed before, without its first failure.
abbrev pub fresh_entry : Library → String → Fields → String → String → ℕ → KnownBad
fresh_entry lib tool_name args error target step = record {
  tool = tool_name;
  target = or_text (known_bad_target lib tool_name args) target;
  error = error;
  first_step = step;
  count = 0;
}

unfoldable pub record_known_bad :
    Library → String → Option Fields → String → String → ℕ → KnownBadCalls → KnownBadCalls
unfolding remember
record_known_bad lib tool_name none error target step known = known
record_known_bad lib tool_name (some args) error target step known =
    if not (contains tool_loop_guard_tools tool_name)
    then known
    else remember (tool_fingerprint lib tool_name args)
        (fresh_entry lib tool_name args error target step) known

abbrev pub known_failure : String → Option KnownBad → Option Blocked
known_failure tool_name none = none
known_failure tool_name (some e) = some (record {
  reason = "known_failure";
  tool = tool_name;
  limit = known_bad_calls_max;
  count = e.count;
  first_step = some e.first_step;
})

abbrev pub found_under : Option String → KnownBadCalls → Option KnownBad
found_under none known = none
found_under (some f) known = lookup f known

unfoldable pub known_bad_block : Library → KnownBadCalls → String → Option Fields → Option Blocked
known_bad_block lib known tool_name none = none
known_bad_block lib known tool_name (some args) =
    if not (contains tool_loop_guard_tools tool_name)
    then none
    else known_failure tool_name (found_under (tool_fingerprint lib tool_name args) known)

abbrev pub forget : Option String → KnownBadCalls → KnownBadCalls
forget none known = known
forget (some f) known = remove f known

unfoldable pub invalidate_known_bad :
    Library → String → Option Fields → KnownBadCalls → KnownBadCalls
invalidate_known_bad lib tool_name none known = known
invalidate_known_bad lib tool_name (some args) known =
    if not (tool_name == "write_file") || not (is_set (get "path" args))
    then known
    else forget
        (tool_fingerprint lib "read_file"
          (field "path" (or_empty_text (get "path" args)) no_fields))
        known

-- isinstance(arguments, dict) and arguments.get("force") is True
abbrev pub is_forced : Option Fields → Bool
is_forced none = false
is_forced (some args) = elim (get "force" args) [ some (boolean b) ↦ b | _ ↦ false ]

-- `stale < RECORD_STATE_STALE_STEPS`, without the difference of the steps
unfoldable pub record_stale_block : ℕ → ℕ → String → Option Fields → Option Blocked
record_stale_block last_record_step current_step tool_name args =
    if tool_name == "record_state"
      || (is_forced args || ltb current_step (last_record_step + record_state_stale_steps))
    then none
    else some (record {
      reason = "record_stale";
      tool = tool_name;
      limit = record_state_stale_steps;
      count = current_step - last_record_step;
      first_step = none;
    })

unfoldable pub think_required_block : Bool → String → Option Fields → Option Blocked
think_required_block think_debt tool_name args =
    if not think_debt || (tool_name == "think" || is_forced args)
    then none
    else some (record {
      reason = "think_required";
      tool = tool_name;
      limit = think_debt_failures;
      count = think_debt_failures;
      first_step = none;
    })

unfoldable pub update_guard_block_streak : ℕ → Bool → Bool → ℕ
update_guard_block_streak streak step_had_block think_dispatched =
    if think_dispatched then 0 else if step_had_block then streak + 1 else 0

unfoldable pub should_force_guard_think : ℕ → Bool → ℕ → Bool
should_force_guard_think streak think_pending limit = not think_pending && leb limit streak

-- What the loop knows of a step when it ends: whether a call was blocked, whether the step asked for
-- thinking, and whether thinking was run.
pub record StepEnd : Type 0 where
  pub had_block : Bool
  pub think_pending : Bool
  pub think_dispatched : Bool

-- Whether thinking is forced, and the streak that the next step starts with.
unfoldable pub end_step : ℕ → ℕ → StepEnd → Bool × ℕ
unfolding update_guard_block_streak should_force_guard_think
end_step limit streak e =
    let streak' = update_guard_block_streak streak e.had_block e.think_dispatched in
    let forced = should_force_guard_think streak' e.think_pending limit in
    (forced, if forced then 0 else streak')
