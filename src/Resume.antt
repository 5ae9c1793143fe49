-- ===== src/Resume.antt =====
-- bot.py, `resolve_task_contract` and `wants_auto_resume`: the goal of a run, which the wording of a
-- later resume does not change.
pub mod Goals
mod Tests
use autonomous_llm_bot.Prelude.{
  ℕ, String, Bool, false, not, ◌&&◌, ◌||◌, Option, none, some, List, [], ◌∷◌, if◌then◌else◌, ◌==◌,
  nat_eq, string_eq, length, any,
}
use autonomous_llm_bot.Json.{Value, number, text, object, no_fields, field}
use autonomous_llm_bot.Text
use autonomous_llm_bot.Ledger.Duplicates.{is_part, codes}
use autonomous_llm_bot.Payload.Tail.{clip_summary_text}
use autonomous_llm_bot.RunState.{TaskContract}

pub record Wording : Type 0 where
  -- unicodedata.normalize("NFKC", s).casefold()
  pub folded : String → String
  -- whether `_AUTO_RESUME_ENGLISH_MARKER` is found
  pub has_english_marker : String → Bool

abbrev pub auto_resume_korean_markers : List String
auto_resume_korean_markers = "이전" ∷ "계속" ∷ "이어" ∷ "재개" ∷ "나머지" ∷ []

-- s.startswith(p)
abbrev pub starts_with : String → String → Bool
starts_with s p = Text.prefix (Text.length p) s == p

abbrev pub is_resume_wording : Wording → String → Bool
is_resume_wording w normalized =
    if normalized == "" || any (starts_with normalized) ("!" ∷ "/" ∷ [])
    then false
    else any (λ marker. is_part (codes marker) (codes normalized)) auto_resume_korean_markers
      || w.has_english_marker normalized

unfoldable pub wants_auto_resume : Wording → String → Bool
wants_auto_resume w content = is_resume_wording w (Text.strip (w.folded content))

-- A message of the restored tail, with its content as `_msg_content` gives it.
pub record TailItem : Type 0 where
  pub role : String
  pub content : String

-- What is read of a restored record.
pub record Restored : Type 0 where
  pub task_contract : Option TaskContract
  pub tail : List TailItem
  pub message_id : Value

-- A contract whose message id may be of any type.
pub record Resolved : Type 0 where
  pub origin_message_id : Value
  pub goal : String

abbrev pub resolved_value : Resolved → Value
resolved_value r = object (
    field "version" (number 1)
      (field "origin_message_id" r.origin_message_id (field "goal" (text r.goal) no_fields)))

abbrev pub task_contract_max_chars : ℕ
task_contract_max_chars = 4000

abbrev pub generated_starts : List String
generated_starts = "💬 [사용자(" ∷ "[🤖 시스템" ∷ "[도구 실행 결과:" ∷ "[롤링 컨텍스트 재개]" ∷ []

abbrev pub resolved : Value → String → Resolved
resolved origin content = record {
  origin_message_id = origin;
  goal = clip_summary_text content task_contract_max_chars;
}

-- Whether a message can be the goal: one of the user, and no request to go on.
unfoldable pub is_goal : Wording → String → String → Bool
unfolding wants_auto_resume
is_goal w role candidate =
    role == "user"
    && not (candidate == "")
    && not (wants_auto_resume w candidate)
    && not (any (starts_with candidate) generated_starts)

unfoldable pub goal_in_tail : Wording → Value → List TailItem → Option Resolved
unfolding is_goal
goal_in_tail w origin [] = none
goal_in_tail w origin (m ∷ ms) =
    let candidate = Text.strip m.content in
    let rest = goal_in_tail w origin ms in
    if is_goal w m.role candidate then some (resolved origin candidate) else rest

unfoldable pub resolve_again : Wording → Restored → Value → String → Bool → Option Resolved
unfolding goal_in_tail
resolve_again w restored message_id content same_origin =
    if same_origin
    then some (resolved message_id content)
    else goal_in_tail w restored.message_id restored.tail

-- A contract with an empty goal counts as none.
unfoldable pub resolve_existing :
    Wording → Option TaskContract → Restored → Value → String → Bool → Option Resolved
unfolding resolve_again
resolve_existing w none restored message_id content same_origin =
    resolve_again w restored message_id content same_origin
resolve_existing w (some c) restored message_id content same_origin =
    if c.goal == ""
    then resolve_again w restored message_id content same_origin
    else some (record { origin_message_id = number c.origin_message_id; goal = c.goal })

unfoldable pub resolve_task_contract :
    Wording → Option Restored → Value → String → Bool → Option Resolved
unfolding resolve_existing
resolve_task_contract w none message_id content same_origin = some (resolved message_id content)
resolve_task_contract w (some restored) message_id content same_origin =
    resolve_existing w restored.task_contract restored message_id content same_origin
