-- ===== src/Ledger/Premises.antt =====
-- ledger.py: `add_conclusion` and the derived validity of conclusions.
use autonomous_llm_bot.Prelude.{
  ℕ, ◌+◌, String, Bool, true, false, not, ◌&&◌, ◌||◌, Option, none, some, List, [], ◌∷◌,
  if◌then◌else◌, ◌==◌, nat_eq, string_eq, length, Result, ok, raise, ◌>>=◌, is_nil,
}
use autonomous_llm_bot.Dict.{Dict, lookup, insert}
use autonomous_llm_bot.Ledger.State.{
  ResearchLedger, rejected, statement_chars, Hypothesis, Conclusion, Refusal, empty_conclusion_id,
  unknown_conclusion, Update, id_of, clip,
}

-- pinned[p] = hypothesis.revision, or 0 for a hypothesis that is not declared
abbrev pub revision_of : Option Hypothesis → ℕ
revision_of none = 0
revision_of (some h) = h.revision

unfoldable pub pin_premises : List (Option String) → Dict String ℕ → ResearchLedger → Dict String ℕ
pin_premises [] pinned l = pinned
pin_premises (p ∷ ps) pinned l =
    let k = id_of p in
    pin_premises ps
      (if k == "" then pinned else insert k (revision_of (lookup k l.hypotheses)) pinned) l

-- Python compares dicts as sets of items.
abbrev pub holds_item : Option ℕ → ℕ → Bool
holds_item none n = false
holds_item (some m) n = m == n

unfoldable pub includes : Dict String ℕ → Dict String ℕ → Bool
includes d [] = true
includes d ((k, n) ∷ rest) = holds_item (lookup k d) n && includes d rest

unfoldable pub premises_beq : Dict String ℕ → Dict String ℕ → Bool
unfolding includes
premises_beq a b = length a == length b && includes a b

abbrev pub same_conclusion : Option Conclusion → Conclusion → Bool
same_conclusion none c = false
same_conclusion (some old) c =
    old.id == c.id && (old.statement == c.statement && premises_beq old.premises c.premises)

unfoldable pub store_conclusion : String → Conclusion → Bool → ResearchLedger → ResearchLedger
store_conclusion k c true l = l
store_conclusion k c false l = record l {
  conclusions = insert k c l.conclusions;
  revision = l.revision + 1;
}

unfoldable pub add_conclusion :
    Option String → Option String → List (Option String) → Update Conclusion
unfolding pin_premises store_conclusion
add_conclusion conclusion_id statement premises l =
    let k = id_of conclusion_id in
    if k == ""
    then (l, raise empty_conclusion_id)
    else (let c : Conclusion = record {
      id = k;
      statement = clip statement statement_chars;
      premises = pin_premises premises [] l;
    } in
        (store_conclusion k c (same_conclusion (lookup k l.conclusions) c) l, ok c))

-- Whether a premise pinned at `revision` no longer holds.
unfoldable pub is_stale : Option Hypothesis → ℕ → Bool
is_stale none revision = true
is_stale (some h) revision = not (h.revision == revision) || h.status == rejected

unfoldable pub stale_among : Dict String Hypothesis → Dict String ℕ → List String
stale_among hypotheses [] = []
stale_among hypotheses ((p, revision) ∷ ps) =
    let rest = stale_among hypotheses ps in
    if is_stale (lookup p hypotheses) revision then p ∷ rest else rest

unfoldable pub found_conclusion : Option String → Option Conclusion → Result Refusal Conclusion
found_conclusion conclusion_id none = raise (unknown_conclusion conclusion_id)
found_conclusion conclusion_id (some c) = ok c

unfoldable pub stale_premises : Option String → ResearchLedger → Result Refusal (List String)
unfolding stale_among found_conclusion
stale_premises conclusion_id l = do
  c ← found_conclusion conclusion_id (lookup (id_of conclusion_id) l.conclusions)
  ok (stale_among l.hypotheses c.premises)

unfoldable pub conclusion_is_valid : Option String → ResearchLedger → Result Refusal Bool
conclusion_is_valid conclusion_id l = do stale ← stale_premises conclusion_id l; ok (is_nil stale)

-- `is_empty`, which also decides whether `render` shows anything.
unfoldable pub is_empty : ResearchLedger → Bool
is_empty l = l.goal == "" && (is_nil l.evidence && (is_nil l.hypotheses && is_nil l.conclusions))
