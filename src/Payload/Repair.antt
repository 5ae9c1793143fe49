-- ===== src/Payload/Repair.antt =====
-- What `validate_chat_payload` returns when it has found a defect is deliverable.
use autonomous_llm_bot.Prelude.{
  ◌≡◌, subst, true, false, ◌||◌, List, [], nat_eq, string_eq, if_induction, is_nil, Distinct,
}
use autonomous_llm_bot.Dict.{lookup}
use autonomous_llm_bot.Payload.{Message, Texts}
use autonomous_llm_bot.Payload.Announce.{collect_calls}
use autonomous_llm_bot.Payload.Rebuild.{repair, CheckedPayload, validate_chat_payload}
use autonomous_llm_bot.Payload.Groups.{IsDeliverable}
use autonomous_llm_bot.Payload.Collected.{collect_calls-IsCollected}
use autonomous_llm_bot.Payload.Answering.{IsAnswering, collect_answers-IsAnswering}
use autonomous_llm_bot.Payload.Repaired.{rebuild-Grouped}
use autonomous_llm_bot.Payload.System.{rebuild-Follows}

no_answers :
    IsAnswering (record { answers = []; answer_positions = []; demoted_orphans = []; defects = [] })
unfolding lookup
no_answers = record { answering = λ id m h. absurd (cc); orphaned = λ p m h. absurd (cc) }

pub repair-IsDeliverable : (t : Texts) (ms : List Message) → IsDeliverable (repair t ms).0
unfolding repair
repair-IsDeliverable t ms =
    let c = collect_calls-IsCollected t [] [] ms tt in
    let v = collect_answers-IsAnswering t (collect_calls t [] [] ms).ids 0 ms _ no_answers in
    record {
      ids = _;
      grouped = rebuild-Grouped t _ 0 false (collect_calls t [] [] ms).entries v c.kept;
      distinct = subst Distinct c.known c.distinct;
      system_first = rebuild-Follows t _ 0 false (collect_calls t [] [] ms).entries v c.kept;
    }

-- A payload in which a defect was found is delivered in groups: every result directly behind the
-- message that announced its call, in the order of the calls, one for each call, no two calls with
-- one id, and no system message but in front.
pub validate-IsDeliverable :
    (t : Texts) (ms : List Message)
    → (validate_chat_payload t ms).ok ≡ false
    → IsDeliverable (validate_chat_payload t ms).messages
unfolding validate_chat_payload
validate-IsDeliverable t ms =
    if_induction (λ (c : CheckedPayload). c.ok ≡ false → IsDeliverable c.messages)
      (is_nil ms || is_nil (repair t ms).1) (λ _ (h : true ≡ false). absurd (cc))
      (λ _ _. repair-IsDeliverable t ms)
