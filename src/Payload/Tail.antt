-- ===== src/Payload/Tail.antt =====
-- bot.py, `snapshot_tail`, `_snapshot_message` and `_clip_summary_text`: the messages that a run's
-- durable record keeps.
use Prim.Native.String.{◌++◌ as append}
use autonomous_llm_bot.Prelude.{
  ℕ, ◌-◌, String, Bool, false, not, Option, none, some, List, [], ◌∷◌, map, leb, if◌then◌else◌,
  ◌==◌, nat_eq, string_eq, length, drop, keep, all, any, contains, is_nil,
}
use autonomous_llm_bot.Json.{nonempty_text, Value, null, text, truthy}
use autonomous_llm_bot.Text
use autonomous_llm_bot.Payload.{Message, Texts, as_value, call_parts, shown}

unfoldable pub clip_summary_text : String → ℕ → String
clip_summary_text s max_chars =
    let stripped = Text.strip s in
    let omission : String = " ...[생략]" in
    if max_chars == 0
    then ""
    else if leb (Text.length stripped) max_chars
    then stripped
    else if leb max_chars (Text.length omission)
    then Text.prefix max_chars stripped
    else append (Text.rstrip (Text.prefix (max_chars - Text.length omission) stripped)) omission

abbrev pub snapshot_tail_messages : ℕ
snapshot_tail_messages = 12

abbrev pub snapshot_tail_chars : ℕ
snapshot_tail_chars = 2000

-- str(v or default), for what a dict holds
abbrev pub shown_default : Texts → Option Value → String → String
shown_default t none default = default
shown_default t (some v) default = if truthy v then shown t v else default

unfoldable pub snapshot_call : Texts → Value → Value
snapshot_call t v = as_value (record {
  id = shown_default t (call_parts v).0 "";
  name = shown_default t (call_parts v).1 "tool";
  arguments = clip_summary_text (shown_default t (call_parts v).2 "") snapshot_tail_chars;
})

-- A value of an entry that is copied only if it counts as true.
unfoldable pub snapshot_entry : Texts → Option Value → Option Value
snapshot_entry t none = none
snapshot_entry t (some v) = if truthy v then some (text (shown t v)) else none

unfoldable pub snapshot_content : Texts → Option Value → Value
snapshot_content t none = null
snapshot_content t (some null) = null
snapshot_content t (some v) = text (clip_summary_text (shown t v) snapshot_tail_chars)

unfoldable pub snapshot_message : Texts → Message → Message
unfolding snapshot_call snapshot_entry snapshot_content
snapshot_message t m = record {
  role = m.role;
  content = some (snapshot_content t m.content);
  name = snapshot_entry t m.name;
  tool_calls = map (snapshot_call t) m.tool_calls;
  tool_call_id = snapshot_entry t m.tool_call_id;
}

abbrev pub has_calls : Message → Bool
has_calls m = not (is_nil m.tool_calls)

-- The id that a tool result answers, in front of others.
unfoldable pub add_settled : Message → List String → List String
add_settled m ids =
    if m.role == "tool"
    then elim (nonempty_text m.tool_call_id) [ some id ↦ id ∷ ids | none ↦ ids ]
    else ids

-- The ids that the tool results of a list take_result.
unfoldable pub settled_ids : List Message → List String
settled_ids [] = []
settled_ids (m ∷ ms) = add_settled m (settled_ids ms)

abbrev pub is_settled : List String → Value → Bool
is_settled settled call = elim (nonempty_text (call_parts call).0) [
  | some id ↦ contains settled id
  | none ↦ false
]

-- The loop from the end: it stops at the last message with calls, and cuts there if one of them has
-- no result behind it.
unfoldable pub cut_unsettled : List Message → List Message
cut_unsettled [] = []
cut_unsettled (m ∷ ms) =
    let rest = cut_unsettled ms in
    if any has_calls ms
    then m ∷ rest
    else if all (is_settled (settled_ids ms)) m.tool_calls
    then m ∷ ms
    else []

-- while tail and tail[0] is a tool result: tail.pop(0)
unfoldable pub drop_results : List Message → List Message
drop_results [] = []
drop_results (m ∷ ms) = let rest = drop_results ms in if m.role == "tool" then rest else m ∷ ms

abbrev pub not_system : Message → Bool
not_system m = not (m.role == "system")

-- xs[-n:]; with n = 0 that is the whole list
unfoldable pub last_messages : ℕ → List Message → List Message
last_messages n ms = if n == 0 then ms else drop (length ms - n) ms

unfoldable pub snapshot_tail : Texts → ℕ → List Message → List Message
snapshot_tail t n ms =
    map (snapshot_message t) (cut_unsettled (drop_results (last_messages n (keep not_system ms))))
