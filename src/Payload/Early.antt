-- ===== src/Payload/Early.antt =====
-- `validate_chat_payload` records no defect for a result that stands in front of its call.
use autonomous_llm_bot.Prelude.{
  String, ◌≡◌, refl, subst, ◌≢◌, true, none, some, List, [], ◌∷◌, arith, nat_eq, string_eq, ==_refl,
  ==_false, any, contains,
}
use autonomous_llm_bot.Dict.{lookup, insert}
use autonomous_llm_bot.Json.{text, text_of, fields_of, get}
use autonomous_llm_bot.Payload.{Message, Texts, Call, as_value}
use autonomous_llm_bot.Payload.Announce.{
  announce_all, announce, announce_id, announce_name, argument_text, collect_calls,
}
use autonomous_llm_bot.Payload.Answers.{collect_answers, take_result, repaired_result}
use autonomous_llm_bot.Payload.Rebuild.{
  rebuild_group, rebuild_calls, rebuild_message, rebuild, repair, validate_chat_payload,
}
use autonomous_llm_bot.Payload.Groups.{IsDeliverable, Grouped, empty, group}

-- The result of a call, and behind it the message that announces the call.
abbrev pub early : Call → String → List Message
early c content =
    record {
      role = "tool";
      content = some (text content);
      name = none;
      tool_calls = [];
      tool_call_id = some (text c.id);
    }
    ∷ record {
      role = "assistant";
      content = none;
      name = none;
      tool_calls = as_value c ∷ [];
      tool_call_id = none;
    }
    ∷ []

early_found :
    (t : Texts) (c : Call) (content : String)
    → c.id ≢ ""
    → c.name ≢ ""
    → (repair t (early c content)).1 ≡ []
unfolding repair collect_calls announce_all announce announce_id announce_name argument_text text_of
    fields_of get collect_answers take_result repaired_result lookup insert contains any rebuild
    rebuild_message rebuild_calls rebuild_group
early_found t c content i n = simp (==_false c.id "" i, ==_false c.name "" n, ==_refl c.id)

Grouped-head :
    {ids : List String} {out : List Message} (m : Message) (ms : List Message)
    → Grouped ids out
    → out ≡ m ∷ ms
    → m.role ≢ "tool"
Grouped-head m ms empty e = absurd (cc)
Grouped-head m ms (group n calls answers rest more h r g i o) e =
    let same : n ≡ m = ground arith in subst (λ (x : Message). x.role ≢ "tool") same h.not_tool

-- A payload that consists of a result and, behind it, the message that announces its call is passed
-- on as one without a defect, although it is not deliverable: its result answers nothing before it.
pub early_result_accepted :
    (t : Texts) (c : Call) (content : String)
    → c.id ≢ ""
    → c.name ≢ ""
    → ((validate_chat_payload t (early c content)).ok ≡ true)
      × ((validate_chat_payload t (early c content)).messages ≡ early c content)
      × (¬ IsDeliverable (early c content))
unfolding validate_chat_payload
early_result_accepted t c content i n = (
  rw (early_found t c content i n) refl,
  rw (early_found t c content i n) refl,
  λ d. Grouped-head _ _ d.grouped refl refl,
)
