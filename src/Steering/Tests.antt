-- ===== src/Steering/Tests.antt =====
-- The theorems of steering.py at one small history.
use autonomous_llm_bot.Prelude.{◌≡◌, refl, List, [], ◌∷◌, ◌++◌, string_eq, any}
use autonomous_llm_bot.Steering.{new, cancelled, reason_terminal, open_mailbox, offer, drain, close}
use autonomous_llm_bot.Steering.Accounting.{
  Call, opens, offers, drains, closes, step, run, IsValid, run-new-IsValid,
}
use autonomous_llm_bot.Dict.{lookup, insert}
use autonomous_llm_bot.Steering.Delivery.{
  delivery, handed, all_promises, all_handed, waiting_instructions,
}

abbrev history : List Call
history =
    offers "ann" "early" 1
    ∷ opens
    ∷ offers "ann" "look left" 2
    ∷ offers "ann" "look left" 3
    ∷ offers "bob" "stop there" 4
    ∷ offers "cat" "too many" 5
    ∷ drains 6
    ∷ offers "cat" "again" 7
    ∷ closes cancelled reason_terminal
    ∷ []

run-new-IsValid_example : IsValid (run (new "r1" 2) history)
run-new-IsValid_example = run-new-IsValid "r1" 2 history

delivery_example :
    [] ++ all_promises (new "r1" 2) history
    ≡ all_handed (new "r1" 2) history ++ waiting_instructions (run (new "r1" 2) history)
unfolding new
delivery_example = delivery (new "r1" 2) history

handed_over :
    all_handed (new "r1" 2) history
    ≡ ("ann", "look left", 2) ∷ ("bob", "stop there", 4) ∷ ("cat", "again", 7) ∷ []
unfolding all_handed handed step open_mailbox offer drain close new lookup insert any
handed_over = refl
