-- ===== src/RunState/Contract.antt =====
-- Normalising again what `_normalize_task_contract` and `_normalize_source_run_id` have written.
use autonomous_llm_bot.Prelude.{
  ℕ, ◌≤◌, String, ◌≡◌, refl, sym, ap, ◌∙◌, subst, inl, inr, true, false, Option, none, some, arith,
  leb, le→leb, ◌==◌, nat_eq, string_eq, Bool-cases, Option-cases,
}
use autonomous_llm_bot.Json.{Value, get, text_of, fields_of, natural_of, positive_of}
use autonomous_llm_bot.Text
use autonomous_llm_bot.Text.Strip.{strip_idem}
use autonomous_llm_bot.Text.Length.{length-prefix, prefix_short, prefix-ne}
use autonomous_llm_bot.RunState.{
  Platform, equals, TaskContract, task_goal_max_chars, contract_of, normalize_task_contract,
  normalize_source_run_id, source_text,
}
use autonomous_llm_bot.RunState.Record.{contract_value, text_or_null}

-- What `_normalize_task_contract` lets through.
pub record IsContract (c : TaskContract) : Type 0 where
  pub origin : 1 ≤ c.origin_message_id
  pub present : (c.goal == "") ≡ false
  pub short : Text.length c.goal ≤ task_goal_max_chars

pub positive_of-le : (v : Option Value) (n : ℕ) → positive_of v ≡ some n → 1 ≤ n
positive_of-le v n h = elim (Option-cases (natural_of v)) [
  | inl other ↦ absurd (ground arith)
  | inr (m, found) ↦ ground arith
]

contract_of-IsContract :
    (o : Option ℕ) (g : Option String) (c : TaskContract)
    → ((n : ℕ) → o ≡ some n → 1 ≤ n)
    → contract_of o g ≡ some c
    → IsContract c
unfolding contract_of
contract_of-IsContract none g c p h = absurd (cc)
contract_of-IsContract (some o) none c p h = absurd (cc)
contract_of-IsContract (some o) (some g) c p h = elim (Bool-cases (Text.strip g == "")) [
  | inl blank ↦ absurd (ground arith)
  | inr present ↦
      let goal : Text.prefix task_goal_max_chars (Text.strip g) ≡ c.goal = ground arith in
      let origin : o ≡ c.origin_message_id = ground arith in
      record {
        origin = omega (arith, origin, p o refl);
        present =
            subst (λ (s : String). (s == "") ≡ false) goal (prefix-ne 3999 (Text.strip g) present);
        short =
            omega (arith, ap Text.length goal, length-prefix task_goal_max_chars (Text.strip g));
      }
]

pub normalize_task_contract-IsContract :
    (p : Platform) (v : Option Value) (c : TaskContract)
    → normalize_task_contract p v ≡ some c
    → IsContract c
unfolding normalize_task_contract
normalize_task_contract-IsContract p none c h = absurd (cc)
normalize_task_contract-IsContract p (some v) c h = elim (Option-cases (fields_of (some v))) [
  | inl other ↦ absurd (ground arith)
  | inr (fs, found) ↦
      contract_of-IsContract (positive_of (get "origin_message_id" fs)) (text_of (get "goal" fs)) c
        (positive_of-le (get "origin_message_id" fs)) (ground arith)
]

pub contract_again :
    (p : Platform) (c : Option TaskContract)
    → ((d : TaskContract) → c ≡ some d → IsContract d × (Text.strip d.goal ≡ d.goal))
    → normalize_task_contract p (some (contract_value c)) ≡ c
unfolding normalize_task_contract fields_of get equals natural_of text_of contract_of
contract_again p none h = refl
contract_again p (some c) h =
    let (v, stripped) = h c refl in
    let late : leb 1 c.origin_message_id ≡ true = le→leb 1 c.origin_message_id v.origin in
    rw (late, stripped, v.present, prefix_short task_goal_max_chars c.goal v.short) refl

source_text-eq : (p : Platform) (s t : String) → source_text p s ≡ some t → s ≡ t
unfolding source_text
source_text-eq p s t h = ground arith

stripped_again :
    (p : Platform) (s : String) (o : Option String)
    → Text.strip s ≡ s
    → source_text p s ≡ o
    → normalize_source_run_id p (some (text_or_null o)) ≡ o
unfolding normalize_source_run_id text_of
stripped_again p s none e h = refl
stripped_again p s (some t) e h =
    let same = source_text-eq p s t h in rw (← same) (rw e (h ∙ ap some (sym same)))

null_again : (p : Platform) → normalize_source_run_id p (some (text_or_null none)) ≡ none
unfolding normalize_source_run_id text_of
null_again p = refl

not_text : (p : Platform) (v : Option Value) → text_of v ≡ none → normalize_source_run_id p v ≡ none
unfolding normalize_source_run_id
not_text p v h = ground arith

of_text :
    (p : Platform) (v : Option Value) (s : String)
    → text_of v ≡ some s
    → normalize_source_run_id p v ≡ source_text p (Text.strip s)
unfolding normalize_source_run_id
of_text p v s h = ground arith

pub source_again :
    (p : Platform) (v : Option Value)
    → normalize_source_run_id p (some (text_or_null (normalize_source_run_id p v)))
      ≡ normalize_source_run_id p v
source_again p v = elim (Option-cases (text_of v)) [
  | inl other ↦
      let e : normalize_source_run_id p v ≡ none = not_text p v other in rw e (null_again p)
  | inr (s, found) ↦
      let e : normalize_source_run_id p v ≡ source_text p (Text.strip s) = of_text p v s found in
      rw e (stripped_again p (Text.strip s) (source_text p (Text.strip s)) (strip_idem s) refl)
]
