-- ===== src/Resume/Goals.antt =====
-- The goal that is resolved for a run is the one that every later resume of it works on.
use autonomous_llm_bot.Prelude.{
  ℕ, ◌≤◌, String, ◌≡◌, refl, ◌∙◌, subst, inl, inr, Bool, true, false, Option, none, some, List, [],
  ◌∷◌, arith, leb, le→leb, ◌==◌, nat_eq, string_eq, Bool-cases, eq_iff, if_induction,
}
use Prim.Native.Char.{char}
use autonomous_llm_bot.Json.{Value, number, get, fields_of, text_of, natural_of}
use autonomous_llm_bot.Text
use autonomous_llm_bot.Text.Strip.{strip_idem, strip-shortened}
use autonomous_llm_bot.Text.Length.{prefix_short}
use autonomous_llm_bot.Payload.Tail.{clip_summary_text}
use autonomous_llm_bot.Payload.Resumable.{length-clip_summary_text}
use autonomous_llm_bot.RunState.{
  Platform, TaskContract, normalize_task_contract, contract_of, equals,
}
use autonomous_llm_bot.Resume.{
  Wording, TailItem, Restored, Resolved, resolved, resolved_value, goal_in_tail, resolve_again,
  resolve_existing, resolve_task_contract, is_goal, task_contract_max_chars,
}

-- A text that neither stripping nor the limit changes.
abbrev pub IsGoal : String → Type 0
IsGoal s = (Text.strip s ≡ s) × (Text.length s ≤ task_contract_max_chars)

omission_ends : Text.rstrip " ...[생략]" ≡ " ...[생략]"
unfolding Text.rstrip Text.is_space
omission_ends = refl

nonempty : (s : String) → leb (Text.length s) task_contract_max_chars ≡ false → (s == "") ≡ false
nonempty s long = elim (Bool-cases (s == "")) [
  | inl e ↦ absurd (cc (rw ((eq_iff s "").0 e) at long))
  | inr n ↦ n
]

clip-strip :
    (s : String)
    → Text.strip (clip_summary_text s task_contract_max_chars)
      ≡ clip_summary_text s task_contract_max_chars
unfolding clip_summary_text
clip-strip s =
    if_induction (λ (x : String). Text.strip x ≡ x)
      (leb (Text.length (Text.strip s)) task_contract_max_chars) (λ _. strip_idem s)
      (λ long.
        strip-shortened 3991 s (char 32 tt) "...[생략]" (nonempty (Text.strip s) long) omission_ends)

resolved-IsGoal : (origin : Value) (content : String) → IsGoal (resolved origin content).goal
resolved-IsGoal origin content =
    (clip-strip content, length-clip_summary_text content task_contract_max_chars)

tail-IsGoal :
    (w : Wording) (origin : Value) (ms : List TailItem) (r : Resolved)
    → goal_in_tail w origin ms ≡ some r
    → IsGoal r.goal
unfolding goal_in_tail
tail-IsGoal w origin [] r h = absurd (cc)
tail-IsGoal w origin (m ∷ ms) r h = elim (Bool-cases (is_goal w m.role (Text.strip m.content))) [
  | inl found ↦
      let same : resolved origin (Text.strip m.content) ≡ r = ground arith in
      subst (λ (x : Resolved). IsGoal x.goal) same (resolved-IsGoal origin (Text.strip m.content))
  | inr other ↦ tail-IsGoal w origin ms r (ground arith)
]

again-IsGoal :
    (w : Wording) (restored : Restored) (message_id : Value) (content : String) (same : Bool)
    (r : Resolved)
    → resolve_again w restored message_id content same ≡ some r
    → IsGoal r.goal
unfolding resolve_again
again-IsGoal w restored message_id content true r h =
    let e : resolved message_id content ≡ r = ground arith in
    subst (λ (x : Resolved). IsGoal x.goal) e (resolved-IsGoal message_id content)
again-IsGoal w restored message_id content false r h =
    tail-IsGoal w restored.message_id restored.tail r h

existing-IsGoal :
    (w : Wording) (c : Option TaskContract) (restored : Restored) (message_id : Value)
    (content : String) (same : Bool) (r : Resolved)
    → ((d : TaskContract) → c ≡ some d → IsGoal d.goal)
    → resolve_existing w c restored message_id content same ≡ some r
    → IsGoal r.goal
unfolding resolve_existing
existing-IsGoal w none restored message_id content same r v h =
    again-IsGoal w restored message_id content same r h
existing-IsGoal w (some c) restored message_id content same r v h =
    elim (Bool-cases (c.goal == "")) [
      | inl empty ↦ again-IsGoal w restored message_id content same r (ground arith)
      | inr present ↦ let e : c.goal ≡ r.goal = ground arith in subst IsGoal e (v c refl)
    ]

-- The contract that is stored is the one that was resolved.
stored :
    (p : Platform) (n : ℕ) (goal : String)
    → 1 ≤ n
    → (goal == "") ≡ false
    → IsGoal goal
    → normalize_task_contract p
        (some (resolved_value (record { origin_message_id = number n; goal = goal })))
      ≡ some (record { origin_message_id = n; goal = goal })
unfolding normalize_task_contract contract_of get equals fields_of text_of natural_of
stored p n goal positive present v =
    rw (le→leb 1 n positive)
      (rw v.0 (rw (present, prefix_short task_contract_max_chars goal v.1) refl))

-- Where the goal that is resolved for a run is not empty, and the message it comes from has a positive
-- number, the contract is stored as it is, and every later resume of the run resolves the same one,
-- whatever its message says and wherever it comes from. A contract that a resumed run brings along has
-- to be one that neither stripping nor the limit changes.
pub goal_immutable :
    (p : Platform) (w : Wording) (restored : Option Restored) (message_id : Value)
    (content : String) (same_origin : Bool) (n : ℕ) (goal : String)
    → ((old : Restored) (c : TaskContract)
        → restored ≡ some old
        → old.task_contract ≡ some c
        → IsGoal c.goal)
    → resolve_task_contract w restored message_id content same_origin
      ≡ some (record { origin_message_id = number n; goal = goal })
    → 1 ≤ n
    → (goal == "") ≡ false
    → (later : Restored) (later_id : Value) (later_content : String) (later_origin : Bool)
    → later.task_contract
      ≡ normalize_task_contract p
          (some (resolved_value (record { origin_message_id = number n; goal = goal })))
    → resolve_task_contract w (some later) later_id later_content later_origin
      ≡ some (record { origin_message_id = number n; goal = goal })
unfolding resolve_task_contract resolve_existing
goal_immutable p w none message_id content same n goal old h positive present later i c o e =
    let found : resolved message_id content ≡ record { origin_message_id = number n; goal = goal } =
      ground arith in
    let v : IsGoal goal =
      subst (λ (x : Resolved). IsGoal x.goal) found (resolved-IsGoal message_id content) in
    rw (e ∙ stored p n goal positive present v) (rw present refl)
goal_immutable p w (some before) message_id content same n goal old h positive present later i c o
      e =
    let v : IsGoal goal =
      existing-IsGoal w before.task_contract before message_id content same _
        (λ d there. old before d refl there) h in
    rw (e ∙ stored p n goal positive present v) (rw present refl)
