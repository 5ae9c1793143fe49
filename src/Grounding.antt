-- ===== src/Grounding.antt =====
-- grounding.py: the warnings for a new claim of evidence that recent observations contradict. The
-- regular expressions are parameters; a record and an item are given by the entries that are read, the
-- texts after `str(... or "")`.
pub mod Warnings
pub mod Contradicted
pub mod Steps
pub mod First
mod Tests
use autonomous_llm_bot.Prelude.{
  ℕ, ◌+◌, max, String, Bool, true, false, not, ◌&&◌, ◌||◌, Option, none, some, List, [], ◌∷◌, ltb,
  leb, if◌then◌else◌, ◌==◌, nat_eq, string_eq, length, take, keep, all, contains, is_nil,
}
use Prim.Native.String.{◌++◌ as append}
use autonomous_llm_bot.Text
use autonomous_llm_bot.Observation.{
  Library, extract_observation_targets, classify_observation_outcome, is_dead_family_outcome,
}

pub record Patterns : Type 0 where
  -- whether `_PHONE_RE` is found
  pub has_phone : String → Bool
  -- whether `_NEGATION_RE` is found
  pub has_negation : String → Bool
  -- whether `_NEG_RESULT_RE` is found
  pub has_negative_result : String → Bool
  -- `_EXIT_TRAILER_RE.sub("", s)`
  pub without_trailer : String → String

abbrev pub grounding_window_steps : ℕ
grounding_window_steps = 10

abbrev pub grounding_min_observations : ℕ
grounding_min_observations = 2

-- The length at which the loop over the items ends.
abbrev pub max_warnings : ℕ
max_warnings = 3

pub record Measurement : Type 0 where
  pub step : Option ℕ
  pub tool : String
  pub executed : Bool
  pub command : String
  pub result : String
  pub failed : Bool

pub record NewEvidence : Type 0 where
  pub id : String
  pub summary : String
  pub source : String

-- The item, the target and the steps that the message of a warning shows.
pub record Warning : Type 0 where
  pub id : String
  pub target : String
  pub steps : List ℕ

unfoldable pub has_positive_phone_claim : Patterns → String → Bool
has_positive_phone_claim p summary = p.has_phone summary && not (p.has_negation summary)

unfoldable pub is_clean_negative_outcome : Patterns → String → Option String → Bool
is_clean_negative_outcome p result none = false
is_clean_negative_outcome p result (some outcome) =
    is_dead_family_outcome outcome
    || ((outcome == "exit0" || outcome == "other")
        && p.has_negative_result (p.without_trailer result))

unfoldable pub observation_is_clean_negative : Library → Patterns → Measurement → Bool
unfolding is_clean_negative_outcome
observation_is_clean_negative lib p r =
    is_clean_negative_outcome p r.result (classify_observation_outcome lib r.result r.failed)

-- "{0} {1}".format(item.get("source", ""), summary)
abbrev pub claim_text : NewEvidence → String
claim_text e = append e.source (append " " e.summary)

abbrev pub claim_targets : Library → NewEvidence → List String
claim_targets lib e = extract_observation_targets lib (some (claim_text e))

unfoldable pub may_need_check : Library → Patterns → NewEvidence → Bool
unfolding has_positive_phone_claim
may_need_check lib p e = has_positive_phone_claim p e.summary && length (claim_targets lib e) == 1

unfoldable pub steps_of : List Measurement → List ℕ
steps_of [] = []
steps_of (r ∷ rs) = elim r.step [ some n ↦ n ∷ steps_of rs | none ↦ steps_of rs ]

-- max(xs), for a list that is not empty
unfoldable pub latest : List ℕ → ℕ
latest [] = 0
latest (n ∷ ns) = max n (latest ns)

abbrev pub anchor_of : Option ℕ → List ℕ → ℕ
anchor_of none steps = latest steps
anchor_of (some n) steps = n

-- anchor - window < step <= anchor
abbrev pub in_window : ℕ → Option ℕ → Bool
in_window anchor none = false
in_window anchor (some n) = ltb anchor (n + grounding_window_steps) && leb n anchor

abbrev pub is_recent : ℕ → Measurement → Bool
is_recent anchor r = in_window anchor r.step && r.tool == "bash_exec" && r.executed

abbrev pub observes : Library → String → Measurement → Bool
observes lib target r = contains (extract_observation_targets lib (some r.command)) target

-- sorted({...}): a number is put in its place, unless it is there
unfoldable pub insert_step : ℕ → List ℕ → List ℕ
insert_step n [] = n ∷ []
insert_step n (m ∷ ms) =
    let rest = insert_step n ms in
    if n == m then m ∷ ms else if ltb n m then n ∷ m ∷ ms else m ∷ rest

unfoldable pub sorted_steps : List ℕ → List ℕ
unfolding insert_step
sorted_steps [] = []
sorted_steps (n ∷ ns) = insert_step n (sorted_steps ns)

-- Enough observations of the target, and all of them found nothing.
unfoldable pub contradicted : Library → Patterns → List Measurement → Bool
unfolding observation_is_clean_negative
contradicted lib p observations =
    leb grounding_min_observations (length observations)
    && all (observation_is_clean_negative lib p) observations

abbrev pub warning : NewEvidence → String → List Measurement → Warning
warning e target observations = record {
  id = e.id;
  target = Text.prefix 80 target;
  steps = take 6 (sorted_steps (steps_of observations));
}

unfoldable pub warn_target :
    Library → Patterns → List Measurement → NewEvidence → List String → Option Warning
unfolding contradicted
warn_target lib p recent e (target ∷ []) =
    let observations = keep (observes lib target) recent in
    if contradicted lib p observations then some (warning e target observations) else none
warn_target lib p recent e _ = none

-- The body of the loop over the items.
unfoldable pub warn : Library → Patterns → List Measurement → NewEvidence → Option Warning
unfolding warn_target has_positive_phone_claim
warn lib p recent e =
    if has_positive_phone_claim p e.summary
    then warn_target lib p recent e (claim_targets lib e)
    else none

-- The loop; `n` warnings have been given.
unfoldable pub warn_all :
    Library → Patterns → List Measurement → ℕ → List NewEvidence → List Warning
unfolding warn
warn_all lib p recent n [] = []
warn_all lib p recent n (e ∷ es) = elim (leb max_warnings n) [
  | true ↦ []
  | false ↦ elim (warn lib p recent e) [
    | none ↦ warn_all lib p recent n es
    | some w ↦ w ∷ warn_all lib p recent (n + 1) es
  ]
]

abbrev pub has_id : NewEvidence → Bool
has_id e = not (Text.strip e.id == "")

abbrev pub recent_records : Option ℕ → List Measurement → List Measurement
recent_records current_step records =
    keep (is_recent (anchor_of current_step (steps_of records))) records

unfoldable pub check_evidence_grounding :
    Library → Patterns → List Measurement → List NewEvidence → Option ℕ → List Warning
unfolding warn_all
check_evidence_grounding lib p records new_evidence current_step =
    if is_nil (keep has_id new_evidence)
    then []
    else if is_nil (steps_of records)
    then []
    else warn_all lib p (recent_records current_step records) 0 (keep has_id new_evidence)
