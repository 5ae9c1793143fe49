-- ===== src/Guards/Streak.antt =====
-- The streak of blocked steps counts the steps since the last one that was not blocked or thought.
use autonomous_llm_bot.Prelude.{
  ℕ, ◌+◌, ◌≤◌, ◌≡◌, refl, ap, ◌∙◌, ◌⊎◌, inl, inr, Bool, true, false, not, ◌&&◌, List, [], ◌∷◌, ◌++◌,
  arith, leb, nat_eq, string_eq, length, All,
}
use autonomous_llm_bot.Guards.{
  update_guard_block_streak, should_force_guard_think, StepEnd, end_step,
}

-- The streak after some steps.
unfoldable pub streak_after : ℕ → ℕ → List StepEnd → ℕ
streak_after limit streak [] = streak
streak_after limit streak (e ∷ es) = streak_after limit (end_step limit streak e).1 es

-- None of the steps forces thinking.
abbrev pub Unforced : ℕ → ℕ → List StepEnd → Type 0
Unforced limit streak [] = Unit
Unforced limit streak (e ∷ es) =
    ((end_step limit streak e).0 ≡ false) × Unforced limit (end_step limit streak e).1 es

-- Blocked, and no thinking.
abbrev pub is_stuck : StepEnd → Bool
is_stuck e = e.had_block && not e.think_dispatched

abbrev pub AreStuck : List StepEnd → Type 0
AreStuck = All (λ (e : StepEnd). is_stuck e ≡ true)

streak_after-append :
    (limit streak : ℕ) (xs ys : List StepEnd)
    → streak_after limit streak (xs ++ ys) ≡ streak_after limit (streak_after limit streak xs) ys
unfolding streak_after
streak_after-append limit streak [] ys = refl
streak_after-append limit streak (e ∷ es) ys =
    streak_after-append limit (end_step limit streak e).1 es ys

streak_after-stuck :
    (limit streak : ℕ) (es : List StepEnd)
    → AreStuck es
    → Unforced limit streak es
    → streak_after limit streak es ≡ streak + length es
unfolding streak_after end_step update_guard_block_streak
streak_after-stuck limit streak [] h u = omega arith
streak_after-stuck limit streak (e ∷ es) h u =
    let counted : (end_step limit streak e).1 ≡ streak + 1 = ground arith in
    let rest = streak_after-stuck limit (end_step limit streak e).1 es h.1 u.1 in
    omega (arith, rest, counted)

-- A step that is not stuck, or that forces thinking, ends the streak.
ended :
    (limit streak : ℕ) (e : StepEnd)
    → (is_stuck e ≡ false) ⊎ ((end_step limit streak e).0 ≡ true)
    → (end_step limit streak e).1 ≡ 0
unfolding end_step update_guard_block_streak
ended limit streak e (inl free) = ground arith
ended limit streak e (inr forced) = ground arith

stuck_step :
    (limit n : ℕ) (e : StepEnd)
    → is_stuck e ≡ true
    → (end_step limit n e).0 ≡ (not e.think_pending && leb limit (n + 1))
unfolding end_step update_guard_block_streak should_force_guard_think
stuck_step limit n e h =
    let counted : update_guard_block_streak n e.had_block e.think_dispatched ≡ n + 1 =
      ground arith in
    rw counted refl

free_step :
    (limit n : ℕ) (e : StepEnd) → is_stuck e ≡ false → 1 ≤ limit → (end_step limit n e).0 ≡ false
unfolding end_step update_guard_block_streak should_force_guard_think
free_step limit n e h one =
    let zeroed : update_guard_block_streak n e.had_block e.think_dispatched ≡ 0 = ground arith in
    let low : leb limit 0 ≡ false = ground arith in rw (zeroed, low) (ground arith)

-- Steps since one that was not stuck or that forced thinking, all of them stuck and forcing nothing: a
-- further step that is stuck forces thinking exactly when the step asks for none by itself and there
-- are at least `limit` stuck steps by then, itself included; one that is not stuck forces nothing, for
-- a limit that is not zero.
pub forced_iff_stuck :
    (limit streak : ℕ) (before stuck : List StepEnd) (e last : StepEnd)
    → (is_stuck e ≡ false) ⊎ ((end_step limit (streak_after limit streak before) e).0 ≡ true)
    → AreStuck stuck
    → Unforced limit 0 stuck
    → let reached = streak_after limit streak (before ++ e ∷ stuck) in
      (is_stuck last ≡ true
        → (end_step limit reached last).0
          ≡ (not last.think_pending && leb limit (length stuck + 1)))
      × (is_stuck last ≡ false → 1 ≤ limit → (end_step limit reached last).0 ≡ false)
unfolding streak_after
forced_iff_stuck limit streak before stuck e last start h u =
    let zeroed = ended limit (streak_after limit streak before) e start in
    let after_e : streak_after limit streak (before ++ e ∷ stuck) ≡ streak_after limit 0 stuck =
      streak_after-append limit streak before (e ∷ stuck)
      ∙ ap (λ n. streak_after limit n stuck) zeroed in
    let counted = streak_after-stuck limit 0 stuck h u in
    let reached : streak_after limit streak (before ++ e ∷ stuck) ≡ length stuck =
      after_e ∙ omega (arith, counted) in
    (
      λ stays. rw reached (stuck_step limit (length stuck) last stays),
      λ goes one. rw reached (free_step limit (length stuck) last goes one),
    )
