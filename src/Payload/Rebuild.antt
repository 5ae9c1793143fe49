-- ===== src/Payload/Rebuild.antt =====
-- bot.py, `validate_chat_payload`, the third pass and the whole: every result directly behind the
-- message that announced its call.
use autonomous_llm_bot.Prelude.{
  ℕ, zero, suc, ◌+◌, ◌-◌, max, String, Bool, true, false, not, ◌&&◌, ◌||◌, Option, none, some, List,
  [], ◌∷◌, ◌++◌, map, leb, if◌then◌else◌, ◌==◌, nat_eq, string_eq, keep, any, contains, is_nil,
}
use Prim.Native.String.{◌++◌ as append}
use autonomous_llm_bot.Dict.{Dict, lookup}
use autonomous_llm_bot.Json.{null, text}
use autonomous_llm_bot.Payload.{
  defect_eq, Message, Texts, or_value, msg_content, Call, as_value, same_calls, Defect,
  system_position, tool_arguments_not_string, tool_call_id_duplicate, tool_call_id_missing,
  tool_call_unanswered, tool_content_missing, tool_group_split, tool_name_missing,
  tool_result_duplicate, tool_result_orphan, missing_result, plain, shown,
}
use autonomous_llm_bot.Payload.Announce.{collect_calls}
use autonomous_llm_bot.Payload.Answers.{FoundResults, collect_answers}

-- The assistant message in front of a group of results, for the calls of it that stay.
unfoldable pub head_message : Message → List Call → Message
head_message m calls =
    if same_calls calls m.tool_calls
    then m
    else if is_nil calls
    then plain "assistant" (or_value (msg_content m) (text "[도구 실행 지시]"))
    else record {
      role = "assistant";
      content = some (or_value (msg_content m) null);
      name = none;
      tool_calls = map as_value calls;
      tool_call_id = none;
    }

abbrev pub unanswered : Call → Message
unanswered c = record {
  role = "tool";
  content = some (text missing_result);
  name = some (text c.name);
  tool_calls = [];
  tool_call_id = some (text c.id);
}

-- The result of each call, in the order of the calls.
unfoldable pub replies : Dict String Message → List Call → List Message
replies answers [] = []
replies answers (c ∷ cs) =
    elim (lookup c.id answers) [ some m ↦ m | none ↦ unanswered c ] ∷ replies answers cs

unfoldable pub reply_defects : Dict String Message → List Call → List Defect
reply_defects answers [] = []
reply_defects answers (c ∷ cs) =
    elim (lookup c.id answers) [ some m ↦ [] | none ↦ tool_call_unanswered ∷ [] ]
    ++ reply_defects answers cs

unfoldable pub group_positions : Dict String ℕ → List Call → List ℕ
group_positions positions [] = []
group_positions positions (c ∷ cs) =
    elim (lookup c.id positions) [ some p ↦ p ∷ [] | none ↦ [] ] ++ group_positions positions cs

-- xs == sorted(xs)
unfoldable pub is_sorted : List ℕ → Bool
is_sorted [] = true
is_sorted (x ∷ []) = true
is_sorted (x ∷ y ∷ xs) = leb x y && is_sorted (y ∷ xs)

-- max(xs) for a list that is not empty
unfoldable pub maximum : List ℕ → ℕ
maximum [] = 0
maximum (x ∷ xs) = max x (maximum xs)

-- list(range(first, first + n))
unfoldable pub range_from : ℕ → ℕ → List ℕ
range_from first zero = []
range_from first (suc n) = first ∷ range_from (first + 1) n

-- The results stand in another order than the calls, or something stands between.
unfoldable pub is_split : ℕ → List ℕ → Bool
unfolding is_sorted maximum range_from
is_split position found =
    not (is_nil found)
    && (not (is_sorted found)
        || any (λ p. not (contains found p)) (range_from (position + 1) (maximum found - position)))

abbrev pub Rebuilt : Type 0
Rebuilt = List Message × List Defect

unfoldable pub rebuild_group : FoundResults → ℕ → Message → List Call → Rebuilt
unfolding replies reply_defects group_positions is_split
rebuild_group a position m calls = (
  head_message m calls ∷ replies a.answers calls,
  (if is_split position (group_positions a.answer_positions calls)
        then tool_group_split ∷ []
        else [])
      ++ reply_defects a.answers calls,
)

unfoldable pub rebuild_calls : FoundResults → ℕ → Message → Option (List Call) → Rebuilt
rebuild_calls a position m none = (m ∷ [], [])
rebuild_calls a position m (some calls) = rebuild_group a position m calls

unfoldable pub rebuild_orphan : Option Message → Rebuilt
rebuild_orphan none = ([], [])
rebuild_orphan (some m) = (m ∷ [], [])

abbrev pub demoted_system : Texts → Message → Message
demoted_system t m = plain "user" (text (append "[시스템 참고 정보]: " (shown t (msg_content m))))

-- The body of the loop; `started` tells whether `repaired` holds a message yet.
unfoldable pub rebuild_message :
    Texts → FoundResults → ℕ → Bool → Message → Option (List Call) → Rebuilt
unfolding rebuild_calls rebuild_orphan rebuild_group
rebuild_message t a position started m calls =
    if m.role == "tool"
    then rebuild_orphan (lookup position a.demoted_orphans)
    else if m.role == "system" && started
    then (demoted_system t m ∷ [], system_position ∷ [])
    else rebuild_calls a position m calls

unfoldable pub rebuild :
    Texts → FoundResults → ℕ → Bool → List (Message × Option (List Call)) → Rebuilt
rebuild t a position started [] = ([], [])
rebuild t a position started ((m, calls) ∷ entries) =
    let (out, found) = rebuild_message t a position started m calls in
    let (rest, more) = rebuild t a (position + 1) (started || not (is_nil out)) entries in
    (out ++ rest, found ++ more)

pub record CheckedPayload : Type 0 where
  pub messages : List Message
  pub defects : List Defect
  pub ok : Bool

-- The three passes: the repaired messages, and the defects found in the order of their finding.
unfoldable pub repair : Texts → List Message → Rebuilt
repair t ms =
    let kept = collect_calls t [] [] ms in
    let a =
      collect_answers t kept.ids 0 ms
        (record { answers = []; answer_positions = []; demoted_orphans = []; defects = [] }) in
    let (out, found) = rebuild t a 0 false kept.entries in (out, kept.defects ++ a.defects ++ found)

-- sorted(set(defects)): the names are declared in their order.
abbrev pub all_defects : List Defect
all_defects =
    system_position ∷ tool_arguments_not_string ∷ tool_call_id_duplicate ∷ tool_call_id_missing
    ∷ tool_call_unanswered ∷ tool_content_missing ∷ tool_group_split ∷ tool_name_missing
    ∷ tool_result_duplicate ∷ tool_result_orphan ∷ []

unfoldable pub validate_chat_payload : Texts → List Message → CheckedPayload
validate_chat_payload t ms =
    let (out, found) = repair t ms in
    if is_nil ms || is_nil found
    then record { messages = ms; defects = []; ok = true }
    else record { messages = out; defects = keep (contains found) all_defects; ok = false }
