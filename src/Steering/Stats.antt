-- ===== src/Steering/Stats.antt =====
-- steering.py: the view of a mailbox for the log, which shows no instruction.
use autonomous_llm_bot.Prelude.{ℕ, String, Option, none, some, [], ◌∷◌, nat_eq, string_eq}
use autonomous_llm_bot.Json.{Value, null, boolean, number, text, Fields, no_fields, field}
use autonomous_llm_bot.Dict.{Dict}
use autonomous_llm_bot.Trajectory.{Codec}
use autonomous_llm_bot.Steering.{SteeringMailbox, depth}

abbrev pub number_or_null : Option ℕ → Value
number_or_null none = null
number_or_null (some n) = number n

unfoldable pub count_fields : Dict String ℕ → Fields
count_fields [] = no_fields
count_fields ((state, n) ∷ counts) = field state (number n) (count_fields counts)

-- The counters have names of their own, so `update` puts them behind.
unfoldable pub stats : SteeringMailbox → Fields
unfolding count_fields
stats m = field "run_id" (text m.run_id) (
    field "depth" (number (depth m)) (
      field "max_depth" (number m.max_depth) (
        field "open" (boolean m.is_open) (
          field "received" (number m.received) (
            field "last_received_at" (number_or_null m.last_received_at) (
              field "last_applied_at" (number_or_null m.last_applied_at)
                (count_fields m.counts)))))))

unfoldable pub observability_line : Codec → SteeringMailbox → String
observability_line c m = c.canonical (stats m)
