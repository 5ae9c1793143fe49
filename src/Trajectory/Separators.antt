-- ===== src/Trajectory/Separators.antt =====
-- A line break inside the text of a record. `json.dumps` with `ensure_ascii=False` leaves the breaks
-- U+0085, U+2028 and U+2029 as they are, and `str.splitlines` splits at them.
use autonomous_llm_bot.Prelude.{
  ℕ, Char, code, String, ◌≡◌, refl, ap, ◌≢◌, Bool, true, false, not, ◌&&◌, none, List, ◌∷◌, map,
  arith, ◌==◌, nat_eq, string_eq, ==_refl, ==_false, length, Result, ok, raise, if_induction,
}
use autonomous_llm_bot.Json.{Fields}
use autonomous_llm_bot.Text.Lines.{
  entries, is_break, newline, separator, written, entries-append, IsLine, entries-break,
}
use autonomous_llm_bot.Trajectory.{
  Codec, as_step, Scan, initial, take_object, take_line, scan, decode_records,
}
use autonomous_llm_bot.Trajectory.Append.{
  last_record, ToolCall, Fault, broken_log, from_last, is_after, payload, append_tool_group,
}
use autonomous_llm_bot.Trajectory.Chain.{scan-stops}
use autonomous_llm_bot.Trajectory.Resume.{scan-append}
use text.Mathlib.TextLemmas.{append_assoc, cons-append}
use Prim.Native.String.{◌++◌ as append}

module _ (c : Codec) (step : ℕ) (calls : List ToolCall) (results executed_ids : List String)
    (existing : String) where
  appended :
      (rs : List Fields)
      → (append_tool_group c step calls results executed_ids existing).1 ≡ ok rs
      → ((decode_records c existing).complete ≡ true)
        × ((append_tool_group c step calls results executed_ids existing).0
            ≡ append existing (payload c existing rs))
  unfolding append_tool_group
  appended rs =
      if_induction Wrote (step == 0) (λ _ e. cc)
        λ _.
          if_induction Wrote (not (length calls == length results)) (λ _ e. cc)
            λ _.
              if_induction Wrote (not (decode_records c existing).complete) (λ _ e. cc)
                λ whole.
                  if_induction Wrote
                    (not (length calls == 0)
                      && not (
                          is_after step (
                            from_last as_step "step"
                              (last_record (decode_records c existing).records))))
                    (λ _ e. cc)
                    λ _ e. (ground arith, ap (λ xs. append existing (payload c existing xs)) (cc))
    where
      Wrote : String × Result Fault (List Fields) → Type 0
      Wrote r =
          r.1 ≡ ok rs
          → ((decode_records c existing).complete ≡ true)
            × (r.0 ≡ append existing (payload c existing rs))

stopped :
    (c : Codec) (existing l : String) (rest : List String) (b : String)
    → (decode_records c existing).complete ≡ true
    → entries b ≡ l ∷ rest
    → c.loads l ≡ none
    → (decode_records c (append existing (append (separator existing) b))).complete ≡ false
unfolding decode_records take_line take_object
stopped c existing l rest b complete first garbled =
    rw
      (
        entries-append existing b,
        first,
        scan-append c (entries existing) (l ∷ rest) initial complete,
      )
      (ap (λ (x : Scan × Bool). x.1)
        (scan-stops c l rest (scan c (entries existing) initial).0 (rw garbled refl)))

refused_after :
    (c : Codec) (content : String) (step : ℕ) (calls : List ToolCall)
    (results executed_ids : List String)
    → (decode_records c content).complete ≡ false
    → step ≢ 0
    → length calls ≡ length results
    → (append_tool_group c step calls results executed_ids content).1 ≡ raise broken_log
unfolding append_tool_group
refused_after c content step calls results executed_ids broken some_step paired =
    rw (==_false step 0 some_step, paired, ==_refl (length results), broken) refl

-- An append that succeeds, but whose first record has a line break in its text, behind a part that
-- is no JSON text by itself, leaves a log that is not read to its end: every later append of a group
-- with as many results as calls, at a step that is not zero, is refused.
pub separator_breaks_log :
    (c : Codec) (step : ℕ) (calls : List ToolCall) (results executed_ids : List String)
    (existing : String) (r : Fields) (rs : List Fields) (front behind : String) (d : Char)
    → (append_tool_group c step calls results executed_ids existing).1 ≡ ok (r ∷ rs)
    → c.canonical r ≡ append front (String.◌∷◌ d behind)
    → IsLine front
    → is_break (code d) ≡ true
    → c.loads front ≡ none
    → let content = (append_tool_group c step calls results executed_ids existing).0 in
      (next : ℕ) (calls' : List ToolCall) (results' ids : List String)
      → next ≢ 0
      → length calls' ≡ length results'
      → (append_tool_group c next calls' results' ids content).1 ≡ raise broken_log
unfolding written
separator_breaks_log c step calls results executed_ids existing r rs front behind d done holds line
      breaks garbled next calls' results' ids =
    let (complete, content) = appended c step calls results executed_ids existing (r ∷ rs) done in
    let (rest, first) =
      entries-break front (append behind (String.◌∷◌ newline (written (map c.canonical rs)))) d line
        breaks in
    refused_after c _ next calls' results' ids (
      rw (content, holds, append_assoc, cons-append)
        (stopped c existing front rest _ complete first garbled))
