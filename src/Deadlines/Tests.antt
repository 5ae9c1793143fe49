-- ===== src/Deadlines/Tests.antt =====
-- The theorem of deadlines.py at work that is done when the stop requests come.
use autonomous_llm_bot.Prelude.{ℕ, ◌≡◌, refl, some, [], ◌∷◌, nat_eq, string_eq}
use autonomous_llm_bot.Ledger.State.{or_text}
use autonomous_llm_bot.Deadlines.{new, run_cancelled, done, Wake, woke, with_deadline}
use autonomous_llm_bot.Deadlines.Stopping.{cancel_all, first_stop_wins}

abbrev three : ℕ
three = 3

first_stop_wins_example :
    let stopped = some (cancel_all ("stop" ∷ "again" ∷ []) new) in
    (with_deadline (some 30) (some new) "model" (woke stopped (done three) stopped)
      ≡ run_cancelled (or_text "stop" "취소됨"))
    × ((a : ℕ)
        → with_deadline (some 30) (some new) "model" (woke (some new) (done a) stopped)
          ≡ run_cancelled (or_text "stop" "취소됨"))
    × ((wake : Wake ℕ)
        → with_deadline (some 30) stopped "model" wake ≡ run_cancelled (or_text "stop" "취소됨"))
first_stop_wins_example =
    first_stop_wins (some 30) "model" "stop" ("again" ∷ []) new (done three)
      (some (cancel_all ("stop" ∷ "again" ∷ []) new)) refl refl
