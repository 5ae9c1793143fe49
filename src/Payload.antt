-- ===== src/Payload.antt =====
-- bot.py, the messages of a request to the model: their roles, contents and tool calls as the
-- helpers `_msg_*`, `_call_parts` and `_tool_result_id` read them.
pub mod Announce
pub mod Answers
pub mod Rebuild
pub mod Groups
pub mod Collected
pub mod Answering
pub mod Repaired
pub mod System
pub mod Repair
pub mod Early
pub mod Bound
pub mod Bounded
pub mod Shortened
pub mod Tail
pub mod Settled
pub mod Snapshot
pub mod Resumable
mod Tests
use autonomous_llm_bot.Prelude.{
  ℕ, suc, String, Bool, true, false, ◌&&◌, Option, none, some, List, [], ◌∷◌, if◌then◌else◌, Eq,
  ◌==◌, nat_eq, string_eq, discrete_eq,
}
use autonomous_llm_bot.Json.{
  Value, null, text, object, Fields, no_fields, field, get, truthy, text_of, fields_of,
}

-- A message is the entries that the code reads. An absent `tool_calls`, a null and an empty list
-- are the same to it.
pub record Message : Type 0 where
  pub role : String
  pub content : Option Value
  pub name : Option Value
  pub tool_calls : List Value
  pub tool_call_id : Option Value

-- json.dumps of a json value, and str of one that is no text.
pub record Texts : Type 0 where
  pub dumps : Value → String
  pub str : Value → String

-- str(v): a text is itself.
abbrev pub shown : Texts → Value → String
shown t v = elim (text_of (some v)) [ some s ↦ s | none ↦ t.str v ]

-- v or default
abbrev pub or_value : Value → Value → Value
or_value v default = if truthy v then v else default

abbrev pub msg_content : Message → Value
msg_content m = elim m.content [ none ↦ text "" | some v ↦ or_value v (text "") ]

abbrev pub msg_name : Message → Value
msg_name m = elim m.name [ none ↦ text "tool" | some v ↦ v ]

-- function.get("name"), function.get("arguments"), for what `call["function"]` holds
abbrev pub function_parts : Option Value → Option Value × Option Value
function_parts v = elim (fields_of v) [
  | some fs ↦ (get "name" fs, get "arguments" fs)
  | none ↦ (none, none)
]

abbrev pub call_parts : Value → Option Value × Option Value × Option Value
call_parts v = elim (fields_of (some v)) [
  | some fs ↦
      (get "id" fs, (function_parts (get "function" fs)).0, (function_parts (get "function" fs)).1)
  | none ↦ (none, none, none)
]

-- A call as the payload carries it: every part is a text.
pub record Call : Type 0 where
  pub id : String
  pub name : String
  pub arguments : String

abbrev pub as_value : Call → Value
as_value c = object (
    field "id" (text c.id) (
      field "type" (text "function") (
        field "function"
          (object (field "name" (text c.name) (field "arguments" (text c.arguments) no_fields)))
          no_fields)))

abbrev pub is_text : String → Option Value → Bool
is_text s v = elim (text_of v) [ some t ↦ t == s | none ↦ false ]

-- len(d)
abbrev pub size : Fields → ℕ
size no_fields = 0
size (field k v fs) = suc (size fs)

abbrev pub is_function : Call → Option Value → Bool
is_function c v = elim (fields_of v) [
  | some fs ↦
      size fs == 2 && is_text c.name (get "name" fs) && is_text c.arguments (get "arguments" fs)
  | none ↦ false
]

-- as_value(c) == v: two dicts are equal when they have the same entries, in any order.
abbrev pub is_value_of : Call → Value → Bool
is_value_of c v = elim (fields_of (some v)) [
  | some fs ↦
      size fs == 3
      && is_text c.id (get "id" fs)
      && is_text "function" (get "type" fs)
      && is_function c (get "function" fs)
  | none ↦ false
]

-- calls == list(message["tool_calls"])
unfoldable pub same_calls : List Call → List Value → Bool
same_calls [] [] = true
same_calls [] (v ∷ vs) = false
same_calls (c ∷ cs) [] = false
same_calls (c ∷ cs) (v ∷ vs) = is_value_of c v && same_calls cs vs

pub data Defect : Type 0 where
  system_position tool_arguments_not_string tool_call_id_duplicate tool_call_id_missing : Defect
  tool_call_unanswered tool_content_missing tool_group_split tool_name_missing : Defect
  tool_result_duplicate tool_result_orphan : Defect

Defect-discrete : Discrete Defect
Defect-discrete = hlevel

instance abbrev pub defect_eq : Eq Defect
unfolding Defect-discrete
defect_eq = discrete_eq Defect-discrete

abbrev pub missing_result : String
missing_result = "[Error: 도구 결과가 기록되지 않았습니다]"

-- {"role": role, "content": content}
abbrev pub plain : String → Value → Message
plain role content = record {
  role = role;
  content = some content;
  name = none;
  tool_calls = [];
  tool_call_id = none;
}
