-- ===== src/Trajectory/Resume.antt =====
-- What an append finds out about the log that is there.
use autonomous_llm_bot.Prelude.{
  ℕ, ◌≤◌, String, ◌≡◌, refl, sym, ap, ◌∙◌, subst, ◌≢◌, inl, inr, Bool, true, false, Option, none,
  some, List, [], ◌∷◌, ◌++◌, arith, nat_eq, string_eq, Option-cases,
}
use autonomous_llm_bot.Json.{Fields, get}
use autonomous_llm_bot.Trajectory.{
  Codec, as_text, as_step, Checked, checked_with, check_record, Scan, take_line, none_pending, scan,
  in_order,
}
use autonomous_llm_bot.Trajectory.Append.{last_record, from_last, is_after}
use autonomous_llm_bot.Trajectory.Chain.{
  scan-goes_on, Linked, tip, scan-stops, tip_checked, current_step, IsSound,
}
use mathlib.Core.List.{append-nil}

checked_with-fields :
    (c : Codec) (parent : Option String) (r : Fields) (i : Option String) (n : Option ℕ)
    (g : Option Bool) (k : Checked)
    → checked_with c parent r i n g ≡ some k
    → (i ≡ some k.id) × (n ≡ some k.step)
checked_with-fields c parent r (some i) (some n) (some g) k e = ground arith
checked_with-fields c parent r none n g k e = cc
checked_with-fields c parent r (some i) none g k e = cc
checked_with-fields c parent r (some i) (some n) none k e = cc

module _ (c : Codec) where
  -- The id and the step of the last record are those that the next one is held against.
  last-tip :
      (parent : Option String) (step : ℕ) (r : Fields) (rs : List Fields)
      → Linked c parent step (r ∷ rs)
      → (from_last as_text "id" (last_record (r ∷ rs)) ≡ (tip c parent step (r ∷ rs)).0)
        × (from_last as_step "step" (last_record (r ∷ rs)) ≡ some (tip c parent step (r ∷ rs)).1)
  unfolding last_record tip check_record
  last-tip parent step r [] (k, e, up, l) =
      rw (tip_checked c parent step r [] k e)
        (checked_with-fields c parent r (as_text (get "id" r)) (as_step (get "step" r)) _ k e)
  last-tip parent step r (q ∷ rs) (k, e, up, l) =
      rw (tip_checked c parent step r (q ∷ rs) k e) (last-tip (some k.id) k.step q rs l)

  pub scan-append :
      (xs ys : List String) (s : Scan)
      → (scan c xs s).1 ≡ true
      → scan c (xs ++ ys) s ≡ scan c ys (scan c xs s).0
  unfolding scan
  scan-append [] ys s h = refl
  scan-append (x ∷ xs) ys s h = elim (Option-cases (take_line c s x)) [
    | inl stop ↦ absurd (false_true (rw (scan-stops c x xs s stop) at h))
    | inr (s', next) ↦
        rw (scan-goes_on c x (xs ++ ys) s s' next, scan-goes_on c x xs s s' next)
          (scan-append xs ys s' (rw (scan-goes_on c x xs s s' next) at h))
  ]
    where
      false_true : false ≢ true
      false_true e = cc

  pub scan_complete :
      (xs : List String) (s : Scan)
      → (scan c xs s).1 ≡ true
      → none_pending (scan c xs s).0.pending ≡ true
  unfolding scan
  scan_complete [] s h = h
  scan_complete (x ∷ xs) s h = elim (Option-cases (take_line c s x)) [
    | inl stop ↦ absurd (false_true (rw (scan-stops c x xs s stop) at h))
    | inr (s', next) ↦
        rw (scan-goes_on c x xs s s' next)
          (scan_complete xs s' (rw (scan-goes_on c x xs s s' next) at h))
  ]
    where
      false_true : false ≢ true
      false_true e = cc

pub none_pending-nil : (rs : List Fields) → none_pending rs ≡ true → rs ≡ []
none_pending-nil [] h = refl
none_pending-nil (r ∷ rs) h = cc

-- Where no group is open, the last record says what the next one must fit.
pub record IsResting (c : Codec) (s : Scan) : Type 0 where
  pub parent : s.expected_parent ≡ from_last as_text "id" (last_record s.records)
  pub order :
      (step : ℕ)
      → 1 ≤ step
      → is_after step (from_last as_step "step" (last_record s.records)) ≡ true
      → in_order s.pending_step s.previous_step step ≡ true

resting :
    (c : Codec) (records : List Fields) (expected : Option String) (previous : ℕ)
    → Linked c none 0 records
    → tip c none 0 records ≡ (expected, previous)
    → IsResting c (record {
      records = records;
      pending = [];
      pending_step = none;
      expected_parent = expected;
      previous_step = previous;
    })
unfolding tip last_record
resting c [] expected previous l t = record {
  parent = sym (ap (λ (x : Option String × ℕ). x.0) t);
  order = λ step positive _. ground (arith, ap (λ (x : Option String × ℕ). x.1) t);
}
resting c (r ∷ rs) expected previous l t =
    let (same_id, same_step) = last-tip c none 0 r rs l in
    record {
      parent = sym (same_id ∙ ap (λ (x : Option String × ℕ). x.0) t);
      order = λ step positive after. ground (
        arith,
        subst (λ o. is_after step o ≡ true) (same_step ∙ ap (λ (x : Option String × ℕ). some x.1) t)
            after,
      );
    }

pub IsSound-IsResting :
    (c : Codec) (s : Scan) → IsSound c s → none_pending s.pending ≡ true → IsResting c s
IsSound-IsResting c s v h =
    by_parts s.pending s.pending_step (none_pending-nil s.pending h) (v.idle h) v.linked v.tip_is
  where
    by_parts :
        (pending : List Fields) (pending_step : Option ℕ)
        → pending ≡ []
        → pending_step ≡ none
        → Linked c none 0 (s.records ++ pending)
        → tip c none 0 (s.records ++ pending)
          ≡ (s.expected_parent, current_step pending_step s.previous_step)
        → IsResting c (record s { pending = pending; pending_step = pending_step })
    by_parts [] none _ _ l t =
        resting c s.records s.expected_parent s.previous_step (rw append-nil at l)
          (rw append-nil at t)
    by_parts (r ∷ rs) o e _ l t = cc
    by_parts [] (some n) _ e l t = cc
