-- ===== src/Outcome/Tests.antt =====
-- The theorems of outcome.py at concrete attempts.
use autonomous_llm_bot.Prelude.{◌≡◌, List, [], ◌∷◌, string_eq}
use autonomous_llm_bot.Outcome.{new}
use autonomous_llm_bot.Outcome.Settling.{
  Attempt, settle_all, settle_all_first_wins, settled_by, accepted,
}

abbrev attempts : List Attempt
attempts = ("done", "") ∷ ("stopped", "사용자 중단 요청") ∷ ("completed", "finish_task 호출") ∷ []

settle_all_first_wins_example : settle_all new attempts ≡ settled_by (accepted attempts)
settle_all_first_wins_example = settle_all_first_wins attempts
