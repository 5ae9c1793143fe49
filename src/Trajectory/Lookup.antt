-- ===== src/Trajectory/Lookup.antt =====
-- trajectory.py: `lookup`, which the agent reads the log with, and `micro_index`, which lists past
-- steps in one line each.
use autonomous_llm_bot.Prelude.{
  ℕ, ◌-◌, ◌<◌, String, ◌≡◌, refl, ap, subst, ◌≢◌, ◌↔◌, inl, inr, Bool, true, false, ◌&&◌, ◌||◌,
  Option, none, some, List, [], ◌∷◌, ◌++◌, map, arith, ltb, leb, if◌then◌else◌, ◌==◌, ==_iff,
  nat_eq, string_eq, ==_refl, ==_false, Bool-cases, length, take, length-take, keep, eq_iff,
}
use autonomous_llm_bot.Prelude.Selected.{Selected, keep-Selected}
use autonomous_llm_bot.Json.{
  null, boolean, number, negative, real, text, array, object, Value, Fields, get,
}
use autonomous_llm_bot.Dict.{lookup, insert}
use autonomous_llm_bot.Text
use autonomous_llm_bot.Trajectory.{Codec, as_text, as_step, Decoded}
use autonomous_llm_bot.Trajectory.Source.{
  Grouped, shown_or, result_preview, arguments_preview, lines_or_nil,
}
use Prim.Native.String.{◌++◌ as append}

abbrev pub lookup_max_records : ℕ
lookup_max_records = 20

abbrev pub micro_line_max_chars : ℕ
micro_line_max_chars = 280

-- A successful answer; `none` stands for `not_found`.
pub record Found : Type 0 where
  pub records : List Fields
  pub truncated : Bool
  pub total : ℕ

abbrev pub is_step : Option ℕ → ℕ → Bool
is_step none step = false
is_step (some n) step = n == step

abbrev pub is_call : Option String → String → Bool
is_call none call_id = call_id == ""
is_call (some id) call_id = call_id == "" || id == call_id

-- The records of the step, and of the call if one is named.
unfoldable pub matching : ℕ → String → List Fields → List Fields
matching step call_id =
    keep (λ r. is_step (as_step (get "step" r)) step && is_call (as_text (get "call_id" r)) call_id)

abbrev pub answer : List Fields → Option Found
answer [] = none
answer (r ∷ rs) = some (record {
  records = take lookup_max_records (r ∷ rs);
  truncated = ltb lookup_max_records (length (r ∷ rs));
  total = length (r ∷ rs);
})

unfoldable pub lookup_records : Decoded → ℕ → String → Option Found
unfolding matching
lookup_records trusted step call_id =
    if step == 0 then none else answer (matching step call_id trusted.records)

unfoldable pub clip_micro_line : String → String
clip_micro_line line =
    let marker : String = "...[생략]]" in
    if leb (Text.length line) micro_line_max_chars
    then line
    else append (Text.prefix (micro_line_max_chars - Text.length marker) line) marker

unfoldable pub micro_action : Codec → (Value → String) → Fields → String
micro_action c show r =
    append (shown_or show "unknown" (get "tool" r))
      (append "(" (append (arguments_preview c r 55) (append ") -> " (result_preview c show r 45))))

abbrev pub add_action : Codec → (Value → String) → ℕ → ℕ → Fields → Option ℕ → Grouped → Grouped
add_action c show first last r none grouped = grouped
add_action c show first last r (some step) grouped =
    if ltb step first || ltb last step
    then grouped
    else insert step (lines_or_nil (lookup step grouped) ++ micro_action c show r ∷ []) grouped

unfoldable pub group_actions : Codec → (Value → String) → ℕ → ℕ → List Fields → Grouped → Grouped
group_actions c show first last [] grouped = grouped
group_actions c show first last (r ∷ rs) grouped =
    group_actions c show first last rs
      (add_action c show first last r (as_step (get "step" r)) grouped)

abbrev pub micro_line : ℕ × List String → String
micro_line (step, actions) = clip_micro_line (
    append "[Step "
      (append (Text.decimal step) (append ": " (append (Text.join " | " actions) "]"))))

unfoldable pub micro_index : Codec → (Value → String) → Decoded → ℕ → ℕ → List String
unfolding group_actions
micro_index c show d start_step end_step =
    if ltb end_step start_step
    then []
    else map micro_line (group_actions c show start_step end_step d.records [])

-- A record of the step, and of the call if one is named.
abbrev pub IsAsked : ℕ → String → Fields → Type 0
IsAsked step call_id r =
    (get "step" r ≡ some (number step)) × (call_id ≢ "" → get "call_id" r ≡ some (text call_id))

as_step-eq : (v : Option Value) (n : ℕ) → as_step v ≡ some n → v ≡ some (number n)
as_step-eq (some (number m)) n h = ground (arith)
as_step-eq none n h = absurd (cc)
as_step-eq (some null) n h = absurd (cc)
as_step-eq (some (boolean b)) n h = absurd (cc)
as_step-eq (some (negative m)) n h = absurd (cc)
as_step-eq (some (real r)) n h = absurd (cc)
as_step-eq (some (text s)) n h = absurd (cc)
as_step-eq (some (array vs)) n h = absurd (cc)
as_step-eq (some (object fs)) n h = absurd (cc)

as_text-eq : (v : Option Value) (s : String) → as_text v ≡ some s → v ≡ some (text s)
as_text-eq (some (text t)) s h = ground (arith)
as_text-eq none s h = absurd (cc)
as_text-eq (some null) s h = absurd (cc)
as_text-eq (some (boolean b)) s h = absurd (cc)
as_text-eq (some (negative n)) s h = absurd (cc)
as_text-eq (some (real r)) s h = absurd (cc)
as_text-eq (some (number n)) s h = absurd (cc)
as_text-eq (some (array vs)) s h = absurd (cc)
as_text-eq (some (object fs)) s h = absurd (cc)

is_step-some : (o : Option ℕ) (step : ℕ) → is_step o step ≡ true → o ≡ some step
is_step-some none step h = absurd (cc)
is_step-some (some n) step h = ap some ((==_iff n step).0 h)

is_call-some : (o : Option String) (id : String) → is_call o id ≡ true → id ≢ "" → o ≡ some id
is_call-some none id h n = absurd (n ((==_iff id "").0 h))
is_call-some (some s) id h n = ground (arith, eq_iff s id, eq_iff id "")

number-is_step :
    (v : Option Value) (step : ℕ)
    → step ≢ 0
    → v ≡ some (number step)
    → is_step (as_step v) step ≡ true
number-is_step v step p h =
    let positive : leb 1 step ≡ true = ground (arith, p) in rw h (rw positive (==_refl step))

text-is_call :
    (v : Option Value) (id : String)
    → (id ≢ "" → v ≡ some (text id))
    → is_call (as_text v) id ≡ true
text-is_call v id h = elim (Bool-cases (id == "")) [
  | inl e ↦ empty (as_text v) e
  | inr n ↦ rw (h (λ e. absurd (ground (arith, eq_iff id "")))) (rw n (==_refl id))
]
  where
    empty : (o : Option String) → (id == "") ≡ true → is_call o id ≡ true
    empty none e = e
    empty (some s) e = rw e refl

matching-Selected :
    (step : ℕ) (call_id : String) (rs : List Fields)
    → step ≢ 0
    → Selected (IsAsked step call_id) rs (matching step call_id rs)
unfolding matching
matching-Selected step call_id rs p =
    keep-Selected (IsAsked step call_id) _
      (λ r h. (
        as_step-eq (get "step" r) step (is_step-some (as_step (get "step" r)) step (ground arith)),
        λ named.
            as_text-eq (get "call_id" r) call_id
              (is_call-some (as_text (get "call_id" r)) call_id (ground arith) named),
      ))
      (λ r h k.
        cc
          (number-is_step (get "step" r) step p k.0, text-is_call (get "call_id" r) call_id k.1, h))
      rs

-- What is answered for all the records that are asked for: nothing where there are none, and else how
-- many they are, the first 20 of them, and whether there are more.
pub record Reports (all : List Fields) (reported : Option Found) : Type 0 where
  pub refused : all ≡ [] → reported ≡ none
  pub answered : all ≢ [] → (found : Found) × (reported ≡ some found)
  pub total : (found : Found) → reported ≡ some found → found.total ≡ length all
  pub first : (found : Found) → reported ≡ some found → found.records ≡ take 20 all
  pub cut :
      (found : Found)
      → reported ≡ some found
      → (found.truncated ≡ true) ↔ (length found.records < length all)

answer-Reports : (all : List Fields) → Reports all (answer all)
answer-Reports [] = record {
  refused = λ e. refl;
  answered = λ n. absurd (n refl);
  total = λ found e. absurd (cc);
  first = λ found e. absurd (cc);
  cut = λ found e. absurd (cc);
}
answer-Reports (r ∷ rs) = record {
  refused = λ e. absurd (cc);
  answered = λ n. (_, refl);
  total = λ found e. ground (arith);
  first = λ found e. ground (arith);
  cut = λ found e. (
    (λ c. ground (arith, length-take lookup_max_records (r ∷ rs))),
    (λ c. ground (arith, length-take lookup_max_records (r ∷ rs))),
  );
}

-- A lookup of a step other than 0 selects the records whose step it is, and whose call it is if one is
-- named, all of them in the order of the log: where there are none it finds nothing, and else it answers
-- with their number, with the first 20 of them, and says that it is cut exactly when there are more.
pub lookup_records-Reports :
    (trusted : Decoded) (step : ℕ) (call_id : String)
    → step ≢ 0
    → (all : List Fields) × Selected (IsAsked step call_id) trusted.records all
      × Reports all (lookup_records trusted step call_id)
unfolding lookup_records
lookup_records-Reports trusted step call_id p =
    let all = matching step call_id trusted.records in
    (
      all,
      matching-Selected step call_id trusted.records p,
      subst (Reports all) (rw (==_false step 0 p) refl) (answer-Reports all),
    )
