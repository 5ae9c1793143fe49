-- ===== src/Payload/Tests.antt =====
-- The theorems on payloads at short conversations.
use autonomous_llm_bot.Prelude.{
  ℕ, ◌<◌, String, ◌≡◌, refl, true, false, none, some, List, [], ◌∷◌, arith, leb→le, drop, keep, all,
  any, contains, eq_iff,
}
use autonomous_llm_bot.Json.{truthy, Value, null, text, text_of, fields_of, get}
use autonomous_llm_bot.Dict.{lookup, insert}
use autonomous_llm_bot.Payload.{Message, Texts, Call, as_value, plain}
use autonomous_llm_bot.Payload.Announce.{announce_all, announce, collect_calls}
use autonomous_llm_bot.Payload.Answers.{collect_answers}
use autonomous_llm_bot.Payload.Rebuild.{rebuild_message, rebuild, repair, validate_chat_payload}
use autonomous_llm_bot.Payload.Groups.{IsDeliverable}
use autonomous_llm_bot.Payload.Repair.{validate-IsDeliverable}
use autonomous_llm_bot.Payload.Early.{early, early_result_accepted}
use autonomous_llm_bot.Payload.Bound.{groups_from, bound_agent_payload, total_chars}
use autonomous_llm_bot.Payload.Shortened.{IsShortened, group_count, bound_agent_payload-IsShortened}
use autonomous_llm_bot.Payload.Tail.{
  settled_ids, add_settled, snapshot_tail, last_messages, not_system,
}
use autonomous_llm_bot.Payload.Settled.{EarlierSettled}
use autonomous_llm_bot.Payload.Resumable.{IsResumable, snapshot_tail-IsResumable}

abbrev texts : Texts
texts = record { dumps = λ v. "{}"; str = λ v. "?" }

abbrev no_length : Value → ℕ
no_length v = 0

abbrev c1 : Call
c1 = record { id = "1"; name = "grep"; arguments = "{}" }

abbrev c2 : Call
c2 = record { id = "2"; name = "read"; arguments = "{}" }

abbrev calling : Call → Message
calling c = record {
  role = "assistant";
  content = some null;
  name = none;
  tool_calls = as_value c ∷ [];
  tool_call_id = none;
}

abbrev result : Call → String → Message
result c s = record {
  role = "tool";
  content = some (text s);
  name = some (text c.name);
  tool_calls = [];
  tool_call_id = some (text c.id);
}

-- A call without a result, and behind it one with a result.
abbrev unanswered_first : List Message
unanswered_first = plain "user" (text "go") ∷ calling c1 ∷ calling c2 ∷ result c2 "found" ∷ []

abbrev two_groups : List Message
two_groups =
    plain "user" (text "go") ∷ calling c1 ∷ result c1 "found" ∷ calling c2 ∷ result c2 "read" ∷ []

has_defect : (validate_chat_payload texts unanswered_first).ok ≡ false
unfolding validate_chat_payload repair collect_calls announce_all announce text_of fields_of get
    contains collect_answers lookup rebuild rebuild_message insert
has_defect = refl

validate-IsDeliverable_example :
    IsDeliverable (validate_chat_payload texts unanswered_first).messages
validate-IsDeliverable_example = validate-IsDeliverable texts unanswered_first has_defect

early_result_accepted_example :
    ((validate_chat_payload texts (early c1 "found")).ok ≡ true)
    × ((validate_chat_payload texts (early c1 "found")).messages ≡ early c1 "found")
    × (¬ IsDeliverable (early c1 "found"))
early_result_accepted_example =
    early_result_accepted texts c1 "found" (λ e. absurd (ground (arith, eq_iff "1" "")))
      (λ e. absurd (ground (arith, eq_iff "grep" "")))

is_long : 7 < total_chars no_length two_groups
unfolding total_chars text_of truthy
is_long = leb→le 8 (total_chars no_length two_groups) refl

has_two : 1 < group_count two_groups
unfolding groups_from
has_two = leb→le 2 (group_count two_groups) refl

bound_agent_payload-IsShortened_example :
    IsShortened texts no_length 4 7 two_groups (bound_agent_payload texts no_length 4 7 two_groups)
bound_agent_payload-IsShortened_example =
    bound_agent_payload-IsShortened texts no_length 4 7 two_groups is_long has_two

earlier : EarlierSettled (last_messages 12 (keep not_system two_groups))
unfolding last_messages keep any all settled_ids add_settled get fields_of text_of drop contains
earlier = ((λ _. refl), ((λ _. refl), ((λ _. refl), ((λ _. refl), ((λ _. refl), tt)))))

snapshot_tail-IsResumable_example : IsResumable 12 (snapshot_tail texts 12 two_groups)
snapshot_tail-IsResumable_example = snapshot_tail-IsResumable texts 12 two_groups earlier
