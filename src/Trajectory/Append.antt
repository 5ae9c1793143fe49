-- ===== src/Trajectory/Append.antt =====
-- trajectory.py: `append_tool_group`, on the text of the file. Arguments come bounded
-- (`_bounded_value`) and with the length of their canonical text.
use autonomous_llm_bot.Prelude.{
  ℕ, ◌-◌, ◌*◌, ◌/◌, max, String, Bool, true, false, not, ◌&&◌, Option, none, some, List, [], ◌∷◌,
  map, ltb, leb, if◌then◌else◌, ◌==◌, nat_eq, string_eq, length, contains, Result, ok, raise,
}
use autonomous_llm_bot.Json.{
  Value, boolean, number, text, object, Fields, no_fields, field, get, of_optional,
}
use autonomous_llm_bot.Text
use autonomous_llm_bot.Text.Lines.{separator, written}
use autonomous_llm_bot.Trajectory.{
  Codec, schema, is_artifact_path, as_text, as_step, decode_records,
}
use autonomous_llm_bot.Ledger.State.{text_or_empty}
use Prim.Native.String.{◌++◌ as append}

abbrev pub result_max_chars : ℕ
result_max_chars = 4000

-- The texts before and behind the mark of `_clip_middle`.
abbrev pub kept_around : String → String → ℕ → String
kept_around s marker available =
    let head = (available * 3) / 4 in
    let tail = available - head in
    append (Text.prefix head s) (append marker (Text.drop (Text.length s - tail) s))

unfoldable pub clip_middle : String → ℕ → String
clip_middle s limit =
    let limit' = max 1 limit in
    let marker = append "...[" (append (Text.decimal (Text.length s - limit')) "자 생략]...") in
    if leb (Text.length s) limit'
    then s
    else if leb limit' (Text.length marker)
    then Text.prefix limit' marker
    else kept_around s marker (limit' - Text.length marker)

-- What the loop reads of a call; a text that is missing or not a text is `none`.
pub record ToolCall : Type 0 where
  pub id : Option String
  pub name : Option String
  pub arguments : Fields
  pub arguments_chars : ℕ
  pub failed : Bool
  pub artifact_path : Option String

-- executed_ids without the empty text, as a set
unfoldable pub discard : String → List String → List String
discard x [] = []
discard x (y ∷ ys) = let rest = discard x ys in if y == x then rest else y ∷ rest

abbrev pub was_executed : Option String → List String → Bool
was_executed none remaining = false
was_executed (some id) remaining = not (id == "") && contains remaining id

abbrev pub remaining_after : Option String → List String → List String
remaining_after none remaining = remaining
remaining_after (some id) remaining = discard id remaining

abbrev pub kept_artifact : Bool → Option String → Option String
kept_artifact executed none = none
kept_artifact executed (some p) = if executed && is_artifact_path p then some p else none

-- The entries of a record, without its id.
unfoldable pub body_of : ToolCall → String → Bool → ℕ → Option String → Bool → Fields
body_of call result executed step parent group_end = field "schema" (number schema) (
    field "parent" (of_optional parent) (
      field "step" (number step) (
        field "group_end" (boolean group_end) (
          field "call_id" (text (text_or_empty call.id)) (
            field "tool" (text (text_or_empty call.name)) (
              field "arguments" (object call.arguments) (
                field "arguments_chars" (number call.arguments_chars) (
                  field "result" (text (clip_middle result result_max_chars)) (
                    field "result_chars" (number (Text.length result)) (
                      field "failed" (boolean call.failed) (
                        field "executed" (boolean executed) (
                          field "artifact_path"
                            (of_optional (kept_artifact executed call.artifact_path))
                            no_fields))))))))))))

-- record["id"] = record_id
unfoldable pub with_id : String → Fields → Fields
with_id id no_fields = field "id" (text id) no_fields
with_id id (field k v rest) = field k v (with_id id rest)

abbrev pub is_last : List (ToolCall × String) → Bool
is_last [] = true
is_last (x ∷ xs) = false

-- The loop over the calls and their results, from the last id and the executed ids that are left.
unfoldable pub build_records :
    Codec → ℕ → List (ToolCall × String) → Option String → List String → List Fields
unfolding body_of with_id
build_records c step [] parent remaining = []
build_records c step ((call, result) ∷ rest) parent remaining =
    let executed = was_executed call.id remaining in
    let body = body_of call result executed step parent (is_last rest) in
    let id = c.sha256 (c.canonical body) in
    with_id id body
    ∷ build_records c step rest (some id)
        (if executed then remaining_after call.id remaining else remaining)

-- The `ValueError`s.
pub data Fault : Type 0 where
  bad_step unpaired broken_log step_not_later : Fault

unfoldable pub last_record : List Fields → Option Fields
last_record [] = none
last_record (r ∷ []) = some r
last_record (r ∷ s ∷ rs) = last_record (s ∷ rs)

-- prior[-1][key]
abbrev pub from_last : {A : Type 0} → (Option Value → Option A) → String → Option Fields → Option A
from_last read key none = none
from_last read key (some r) = read (get key r)

abbrev pub is_after : ℕ → Option ℕ → Bool
is_after step none = true
is_after step (some last) = ltb last step

-- zip(tool_calls, results), for lists of the same length
unfoldable pub zip : List ToolCall → List String → List (ToolCall × String)
zip [] rs = []
zip (c ∷ cs) [] = []
zip (c ∷ cs) (r ∷ rs) = (c, r) ∷ zip cs rs

abbrev pub payload : Codec → String → List Fields → String
payload c existing [] = ""
payload c existing (r ∷ rs) = append (separator existing) (written (map c.canonical (r ∷ rs)))

-- The text that the file has afterwards, beside the records or the error.
unfoldable pub append_tool_group :
    Codec
    → ℕ
    → List ToolCall
    → List String
    → List String
    → String
    → String × Result Fault (List Fields)
unfolding build_records
append_tool_group c step calls results executed_ids existing =
    let prior = decode_records c existing in
    let last = last_record prior.records in
    let records =
      build_records c step (zip calls results) (from_last as_text "id" last)
        (discard "" executed_ids) in
    if step == 0
    then (existing, raise bad_step)
    else if not (length calls == length results)
    then (existing, raise unpaired)
    else if not prior.complete
    then (existing, raise broken_log)
    else if not (length calls == 0) && not (is_after step (from_last as_step "step" last))
    then (existing, raise step_not_later)
    else (append existing (payload c existing records), ok records)
