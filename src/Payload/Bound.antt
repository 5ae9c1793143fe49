-- ===== src/Payload/Bound.antt =====
-- bot.py, `bound_agent_payload`, `split_recent_agent_context` and `flatten_tool_protocol`: which
-- groups of a payload are sent.
use Prim.Native.String.{◌++◌ as append}
use autonomous_llm_bot.Prelude.{
  ℕ, zero, suc, ◌+◌, ◌-◌, min, String, Bool, ◌||◌, none, some, List, [], ◌∷◌, ◌++◌, map, ltb, leb,
  if◌then◌else◌, ◌==◌, nat_eq, string_eq, length, take, drop, keep, is_nil,
}
use autonomous_llm_bot.Json.{Value, text, number, text_of}
use autonomous_llm_bot.Text
use autonomous_llm_bot.Payload.{Message, Texts, msg_content, plain, or_value}
use autonomous_llm_bot.Payload.Announce.{announces}
use autonomous_llm_bot.Payload.Answers.{demoted}
use autonomous_llm_bot.Payload.Rebuild.{validate_chat_payload}

-- The positions of the messages that announce calls, the first message's being `first`.
unfoldable pub groups_from : ℕ → List Message → List ℕ
groups_from first [] = []
groups_from first (m ∷ ms) =
    let rest = groups_from (first + 1) ms in if announces m then first ∷ rest else rest

abbrev pub group_indices : List Message → List ℕ
group_indices = groups_from 0

-- xs[i], for a position in the list
unfoldable pub nth : ℕ → List ℕ → ℕ
nth i [] = 0
nth zero (x ∷ xs) = x
nth (suc i) (x ∷ xs) = nth i xs

-- xs[-k]
abbrev pub nth_last : ℕ → List ℕ → ℕ
nth_last k xs = nth (length xs - k) xs

-- len(content or ""), where `len` measures a content that is no text
abbrev pub content_length : (Value → ℕ) → Message → ℕ
content_length len m = elim (text_of (some (msg_content m))) [
  | some s ↦ Text.length s
  | none ↦ len (msg_content m)
]

unfoldable pub total_chars : (Value → ℕ) → List Message → ℕ
total_chars len [] = 0
total_chars len (m ∷ ms) = content_length len m + total_chars len ms

-- for k in range(hi, 0, -1): the first count that fits, and one if none does
unfoldable pub choose : (ℕ → Bool) → ℕ → ℕ
choose fits zero = 1
choose fits (suc k) = let rest = choose fits k in if fits (suc k) || suc k == 1 then suc k else rest

-- sum(1 for idx in indices if idx < start)
unfoldable pub count_below : ℕ → List ℕ → ℕ
count_below start [] = 0
count_below start (i ∷ is) = (if ltb i start then 1 else 0) + count_below start is

abbrev pub notice_text : Texts → ℕ → ℕ → String
notice_text t dropped kept = append "[🤖 시스템 메모리 보호: 컨텍스트 메모리 한도 유지를 위해 이전 " (
    append (t.str (number dropped)) (
      append "개 도구 실행 세부 기록을 생략하고 최신 " (
        append (t.str (number kept))
          "개 도구 결과만 유지합니다. 이전 작업 기록은 시스템 프롬프트의 절차 요약(Tier 2/3)을 참조하세요.]")))

abbrev pub notice : Texts → ℕ → ℕ → Message
notice t dropped kept = plain "user" (text (notice_text t dropped kept))

-- How many groups are kept: as many of the last `keep_recent` as fit behind the prefix.
unfoldable pub retained : (Value → ℕ) → ℕ → ℕ → List Message → ℕ
retained len keep_recent max_chars ms =
    let indices = group_indices ms in
    let prefix = take (nth 0 indices) ms in
    choose
      (λ k. leb (total_chars len prefix + total_chars len (drop (nth_last k indices) ms)) max_chars)
      (min (length indices) keep_recent)

-- The payload with the groups before `start` replaced by a notice.
unfoldable pub shortened : Texts → ℕ → List Message → List Message
shortened t start ms =
    let indices = group_indices ms in
    let dropped = count_below start indices in
    take (nth 0 indices) ms ++ (notice t dropped (length indices - dropped) ∷ drop start ms)

unfoldable pub bound_agent_payload : Texts → (Value → ℕ) → ℕ → ℕ → List Message → List Message
bound_agent_payload t len keep_recent max_chars ms =
    let indices = group_indices ms in
    let start = nth_last (retained len keep_recent max_chars ms) indices in
    if is_nil ms
    then []
    else if leb (total_chars len ms) max_chars
    then ms
    else if leb (length indices) 1
    then ms
    else if count_below start indices == 0
    then ms
    else (validate_chat_payload t (shortened t start ms)).messages

-- The messages before the oldest of the last `keep` groups, and the others. With `keep` 0 Python's
-- indices[-0] is the first of them.
unfoldable pub split_recent_agent_context : ℕ → List Message → List Message × List Message
split_recent_agent_context keep ms =
    let indices = group_indices ms in
    let boundary = if keep == 0 then nth 0 indices else nth_last keep indices in
    if leb (length indices) keep then (ms, []) else (take boundary ms, drop boundary ms)

flattened : Texts → Message → Message
flattened t m =
    if m.role == "tool"
    then demoted t m
    else if announces m
    then plain "assistant" (or_value (msg_content m) (text "[도구 실행 지시]"))
    else m

unfoldable pub flatten_tool_protocol : Texts → List Message → List Message
unfolding flattened
flatten_tool_protocol t ms = map (flattened t) ms
