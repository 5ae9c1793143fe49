-- ===== src/Outcome.antt =====
-- outcome.py: the single-assignment terminal state of a run.
pub mod Settling
mod Tests
use autonomous_llm_bot.Prelude.{
  String, Bool, true, false, Option, none, some, List, [], ◌∷◌, ◌++◌, if◌then◌else◌, ◌==◌,
  string_eq, contains, Result, ok, raise,
}
use Prim.Native.Char.{char}
use Prim.Native.String.{◌++◌ as append}

abbrev pub completed : String
completed = "completed"

abbrev pub stopped : String
stopped = "stopped"

abbrev pub exhausted : String
exhausted = "exhausted"

abbrev pub failed : String
failed = "failed"

abbrev pub terminal_reasons : List String
terminal_reasons = completed ∷ stopped ∷ exhausted ∷ failed ∷ []

-- `LABELS[reason]`; the last case is that of `failed`, the one reason left in the table.
unfoldable pub labels : String → String
labels reason =
    if reason == completed
    then "✅ 조사 완료"
    else if reason == stopped
    then "🛑 사용자 중단 — 미완료"
    else if reason == exhausted
    then append "⚠" (String.◌∷◌ (char 65039 tt) " 스텝 소진 — 미완료")
    else "❌ 실패 — 미완료"

pub record RunOutcome : Type 0 where
  pub reason : Option String
  pub detail : String
  pub ignored_attempts : List (String × String)

abbrev pub new : RunOutcome
new = record { reason = none; detail = ""; ignored_attempts = [] }

-- The message of the `ValueError`.
unfoldable pub unknown_reason : String → String
unknown_reason reason = append "알 수 없는 종료 사유: " reason

record_reason : Option String → String → String → RunOutcome → RunOutcome × Bool
record_reason (some r) reason detail o =
    (record o { ignored_attempts = o.ignored_attempts ++ (reason, detail) ∷ [] }, false)
record_reason none reason detail o = (record o { reason = some reason; detail = detail }, true)

-- The new state beside what the call returns or raises.
pub settle : String → String → RunOutcome → RunOutcome × Result String Bool
unfolding record_reason
settle reason detail o =
    if contains terminal_reasons reason
    then (let (o', first) = record_reason o.reason reason detail o in (o', ok first))
    else (o, raise (unknown_reason reason))

pub is_completed : RunOutcome → Bool
is_completed o = elim o.reason [ none ↦ false | some r ↦ r == completed ]

pub label : RunOutcome → String
unfolding labels
label o = elim o.reason [ none ↦ "진행 중" | some r ↦ labels r ]

pub describe : RunOutcome → String
describe o = elim o.reason [
  | none ↦ "진행 중"
  | some r ↦ if o.detail == "" then r else append r (append " (" (append o.detail ")"))
]
