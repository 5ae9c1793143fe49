-- ===== src/Payload/Answers.antt =====
-- bot.py, `validate_chat_payload`, the second pass: one result for each call that stays.
use autonomous_llm_bot.Prelude.{
  ℕ, ◌+◌, String, Option, none, some, List, [], ◌∷◌, ◌++◌, if◌then◌else◌, ◌==◌, nat_eq, string_eq,
  contains,
}
use Prim.Native.String.{◌++◌ as append}
use autonomous_llm_bot.Dict.{Dict, lookup, insert}
use autonomous_llm_bot.Json.{Value, text, text_of}
use autonomous_llm_bot.Payload.{
  Message, Texts, msg_content, msg_name, shown, plain, missing_result, Defect, tool_content_missing,
  tool_result_duplicate, tool_result_orphan,
}

pub record FoundResults : Type 0 where
  pub answers : Dict String Message
  pub answer_positions : Dict String ℕ
  pub demoted_orphans : Dict ℕ Message
  pub defects : List Defect

-- The user message that keeps the text of a tool result.
abbrev pub demoted : Texts → Message → Message
demoted t m = plain "user" (
    text (
      append "[도구 실행 결과: "
        (append (shown t (msg_name m)) (append "]\n" (shown t (msg_content m))))))

-- isinstance(call_id, str) and call_id in announced
abbrev pub announced_id : List String → Option Value → Option String
announced_id ids v = elim (text_of v) [
  | some id ↦ if contains ids id then some id else none
  | none ↦ none
]

-- A content that is not a text is replaced.
unfoldable pub repaired_result : Message → Message × List Defect
repaired_result m = elim (text_of m.content) [
  | some s ↦ (m, [])
  | none ↦ (record m { content = some (text missing_result) }, tool_content_missing ∷ [])
]

-- The result of a message whose role is "tool".
unfoldable pub take_result : Texts → ℕ → Message → Option String → FoundResults → FoundResults
unfolding repaired_result
take_result t position m none a = record a {
  demoted_orphans = insert position (demoted t m) a.demoted_orphans;
  defects = a.defects ++ tool_result_orphan ∷ [];
}
take_result t position m (some id) a = elim (lookup id a.answers) [
  | some _ ↦ record a { defects = a.defects ++ tool_result_duplicate ∷ [] }
  | none ↦ record a {
    answers = insert id (repaired_result m).0 a.answers;
    answer_positions = insert id position a.answer_positions;
    defects = a.defects ++ (repaired_result m).1;
  }
]

unfoldable pub collect_answers :
    Texts → List String → ℕ → List Message → FoundResults → FoundResults
unfolding take_result
collect_answers t ids position [] a = a
collect_answers t ids position (m ∷ ms) a =
    collect_answers t ids (position + 1) ms
      (if m.role == "tool" then take_result t position m (announced_id ids m.tool_call_id) a else a)
