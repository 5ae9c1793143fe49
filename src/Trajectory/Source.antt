-- ===== src/Trajectory/Source.antt =====
-- trajectory.py: the previews of a record, and `procedural_source`, which a summary of past steps is
-- made from.
use autonomous_llm_bot.Prelude.{
  ℕ, ◌+◌, ◌-◌, min, max, String, Bool, false, not, ◌||◌, Option, none, some, List, [], ◌∷◌, ◌++◌,
  ltb, if◌then◌else◌, ◌==◌, nat_eq, string_eq, is_nil,
}
use autonomous_llm_bot.Json.{Value, Fields, no_fields, get, is_set}
use autonomous_llm_bot.Dict.{Dict, lookup, insert}
use autonomous_llm_bot.Text
use autonomous_llm_bot.Trajectory.{Codec, as_text, as_step, as_object, Decoded}
use autonomous_llm_bot.Trajectory.Append.{clip_middle, last_record, from_last}
use Prim.Native.String.{◌++◌ as append}

unfoldable pub one_line : String → String
one_line s = Text.join " " (Text.split s)

-- str(value or default), where `show` is `str`
abbrev pub shown_or : (Value → String) → String → Option Value → String
shown_or show default none = default
shown_or show default (some v) = if is_set (some v) then show v else default

-- What the envelope of a result says, in front of all else.
unfoldable pub envelope_text : (Value → String) → String → Option Fields → String
envelope_text show result none = result
envelope_text show result (some e) =
    let status = shown_or show "" (get "status" e) in
    if is_set (get "blocked" e)
    then append "blocked:" (shown_or show "unknown" (get "reason" e))
    else if not (is_set (get "status" e))
    then result
    else if is_set (get "error" e)
    then append status (append ":" (shown_or show "" (get "error" e)))
    else if is_set (get "content" e)
    then append status (append ":" (one_line (shown_or show "" (get "content" e))))
    else status

unfoldable pub result_preview : Codec → (Value → String) → Fields → ℕ → String
result_preview c show r limit =
    let result = shown_or show "" (get "result" r) in
    clip_middle (one_line (envelope_text show result (as_object (c.loads result)))) limit

abbrev pub object_or_empty : Option Fields → Fields
object_or_empty none = no_fields
object_or_empty (some fs) = fs

unfoldable pub arguments_preview : Codec → Fields → ℕ → String
arguments_preview c r limit =
    clip_middle (one_line (c.canonical (object_or_empty (as_object (get "arguments" r))))) limit

-- How the call went, and what came of it.
abbrev pub outcome_of : Codec → (Value → String) → Fields → String
outcome_of c show r =
    append
      (if not (is_set (get "executed" r))
        then "blocked:"
        else if is_set (get "failed" r)
        then "failed:"
        else "completed:")
      (result_preview c show r 80)

unfoldable pub source_line : Codec → (Value → String) → ℕ → Fields → String
source_line c show step r = append "[Step " (
    append (Text.decimal step) (
      append "] " (
        append (shown_or show "unknown" (get "tool" r)) (
          append " args="
            (append (arguments_preview c r 80) (append " -> " (outcome_of c show r)))))))

abbrev pub Grouped : Type 0
Grouped = Dict ℕ (List String)

abbrev pub lines_or_nil : Option (List String) → List String
lines_or_nil none = []
lines_or_nil (some ls) = ls

abbrev pub is_skipped_tool : Option String → Bool
is_skipped_tool none = false
is_skipped_tool (some t) = t == "record_state" || t == "finish_task"

abbrev pub add_line : Codec → (Value → String) → ℕ → ℕ → Fields → Option ℕ → Grouped → Grouped
add_line c show first last r none grouped = grouped
add_line c show first last r (some step) grouped =
    if ltb step first || (ltb last step || is_skipped_tool (as_text (get "tool" r)))
    then grouped
    else insert step (lines_or_nil (lookup step grouped) ++ source_line c show step r ∷ []) grouped

-- The lines of the records from `first` to `last`, by step.
unfoldable pub group_lines : Codec → (Value → String) → ℕ → ℕ → List Fields → Grouped → Grouped
group_lines c show first last [] grouped = grouped
group_lines c show first last (r ∷ rs) grouped =
    group_lines c show first last rs (add_line c show first last r (as_step (get "step" r)) grouped)

abbrev pub block_of : ℕ × List String → String
block_of (step, ls) = Text.join "\n" ls

-- The last loop: the blocks taken so far, their length, and the step that they reach through.
unfoldable pub select_blocks : ℕ → Grouped → List String → ℕ → ℕ → List String × ℕ
select_blocks max_chars [] selected used through = (selected, through)
select_blocks max_chars (g ∷ rest) selected used through =
    let cost = Text.length (block_of g) + (if is_nil selected then 0 else 1) in
    let later = select_blocks max_chars rest (selected ++ block_of g ∷ []) (used + cost) through in
    if ltb (max_chars - used) cost then (selected, g.0 - 1) else later

abbrev pub trusted_through : Decoded → ℕ → ℕ → ℕ
trusted_through d start_step end_step =
    if d.complete then end_step else elim (from_last as_step "step" (last_record d.records)) [
      | none ↦ start_step - 1
      | some last ↦ min end_step last
    ]

unfoldable pub procedural_source : Codec → (Value → String) → Decoded → ℕ → ℕ → ℕ → String × ℕ
unfolding select_blocks
procedural_source c show d end_step max_chars start =
    let start_step = max 1 start in
    let trusted = trusted_through d start_step end_step in
    let (selected, through) =
      select_blocks max_chars (group_lines c show start_step trusted d.records []) [] 0
        (max (start_step - 1) trusted) in
    if max_chars == 0 || ltb end_step start_step
    then ("", start_step - 1)
    else (Text.join "\n" selected, max (start_step - 1) through)
