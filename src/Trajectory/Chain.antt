-- ===== src/Trajectory/Chain.antt =====
-- What the reader lets through, whatever the text of the file is.
use autonomous_llm_bot.Prelude.{
  ℕ, ◌≤◌, String, ◌≡◌, refl, ◌∙◌, subst, ◌≢◌, inl, inr, true, false, Option, none, some, List, [],
  ◌∷◌, ◌++◌, arith, if◌then◌else◌, nat_eq, string_eq, Bool-cases, Option-cases, if_induction,
}
use autonomous_llm_bot.Json.{Fields, get}
use autonomous_llm_bot.Trajectory.{
  Codec, Checked, check_record, Scan, initial, in_order, take_checked, is_schema, close_group,
  keep_open, scan, take_object, as_object, take_line, none_pending,
}
use mathlib.Core.List.{append_assoc, append-nil}

-- Each record passes its checks with the id of the one before it as its parent, and no step is
-- smaller than the one before it.
abbrev pub Linked : Codec → Option String → ℕ → List Fields → Type 0
Linked c parent step [] = Unit
Linked c parent step (r ∷ rs) =
    (k : Checked) × (check_record c parent r ≡ some k)
    × (step ≤ k.step)
    × Linked c (some k.id) k.step rs

-- The parent and the step that the next record is held against.
unfoldable pub tip : Codec → Option String → ℕ → List Fields → Option String × ℕ
tip c parent step [] = (parent, step)
tip c parent step (r ∷ rs) = elim (check_record c parent r) [
  | none ↦ (parent, step)
  | some k ↦ tip c (some k.id) k.step rs
]

pub tip_checked :
    (c : Codec) (parent : Option String) (step : ℕ) (r : Fields) (rs : List Fields) (k : Checked)
    → check_record c parent r ≡ some k
    → tip c parent step (r ∷ rs) ≡ tip c (some k.id) k.step rs
unfolding tip
tip_checked c parent step r rs k e = rw (tip, e) refl

append-Linked :
    (c : Codec) (parent : Option String) (step : ℕ) (rs : List Fields) (r : Fields) (k : Checked)
    → Linked c parent step rs
    → check_record c (tip c parent step rs).0 r ≡ some k
    → (tip c parent step rs).1 ≤ k.step
    → Linked c parent step (rs ++ r ∷ [])
unfolding tip
append-Linked c parent step [] r k l checked later = (k, checked, later, tt)
append-Linked c parent step (q ∷ rs) r k (j, e, up, l) checked later = (
  j,
  e,
  up,
  append-Linked c (some j.id) j.step rs r k l (rw (tip_checked c parent step q rs j e) at checked)
      (rw (tip_checked c parent step q rs j e) at later),
)

tip-append :
    (c : Codec) (parent : Option String) (step : ℕ) (rs : List Fields) (r : Fields) (k : Checked)
    → Linked c parent step rs
    → check_record c (tip c parent step rs).0 r ≡ some k
    → tip c parent step (rs ++ r ∷ []) ≡ (some k.id, k.step)
unfolding tip
tip-append c parent step [] r k l checked = tip_checked c parent step r [] k checked
tip-append c parent step (q ∷ rs) r k (j, e, up, l) checked =
    tip_checked c parent step q (rs ++ r ∷ []) j e
    ∙ tip-append c (some j.id) j.step rs r k l (rw (tip_checked c parent step q rs j e) at checked)

-- Everything read so far, in whole groups or not.
abbrev pub all_read : Scan → List Fields
all_read s = s.records ++ s.pending

-- The step that the next record is held against.
abbrev pub current_step : Option ℕ → ℕ → ℕ
current_step none previous = previous
current_step (some pending) previous = pending

pub record IsSound (c : Codec) (s : Scan) : Type 0 where
  pub linked : Linked c none 0 (all_read s)
  pub tip_is :
      tip c none 0 (all_read s) ≡ (s.expected_parent, current_step s.pending_step s.previous_step)
  pub idle : none_pending s.pending ≡ true → s.pending_step ≡ none

in_order-le :
    (pending : Option ℕ) (previous step : ℕ)
    → in_order pending previous step ≡ true
    → current_step pending previous ≤ step
in_order-le none previous step h = ground arith
in_order-le (some p) previous step h = ground arith

pub initial-IsSound : (c : Codec) → IsSound c initial
unfolding tip
initial-IsSound c = record { linked = tt; tip_is = refl; idle = λ _. refl }

some_pending : (rs : List Fields) (r : Fields) → none_pending (rs ++ r ∷ []) ≢ true
some_pending [] r e = cc
some_pending (q ∷ rs) r e = cc

module _ (c : Codec) (s : Scan) (r : Fields) (k : Checked) (v : IsSound c s)
    (checked : check_record c s.expected_parent r ≡ some k)
    (order : in_order s.pending_step s.previous_step k.step ≡ true) where
  here : check_record c (tip c none 0 (all_read s)).0 r ≡ some k
  here = rw v.tip_is checked

  read-Linked : Linked c none 0 (all_read s ++ r ∷ [])
  read-Linked =
      append-Linked c none 0 (all_read s) r k v.linked here
        (rw v.tip_is (in_order-le s.pending_step s.previous_step k.step order))

  closed-IsSound : IsSound c (close_group s r k)
  closed-IsSound = record {
    linked = rw (append-nil, ← append_assoc s.records s.pending (r ∷ [])) read-Linked;
    tip_is =
        rw (append-nil, ← append_assoc s.records s.pending (r ∷ []))
          (tip-append c none 0 (all_read s) r k v.linked here);
    idle = λ _. refl;
  }

  open-IsSound : IsSound c (keep_open s r k)
  open-IsSound = record {
    linked = rw (← append_assoc s.records s.pending (r ∷ [])) read-Linked;
    tip_is =
        rw (← append_assoc s.records s.pending (r ∷ []))
          (tip-append c none 0 (all_read s) r k v.linked here);
    idle = λ e. absurd (some_pending s.pending r e);
  }

take_checked-IsSound :
    (c : Codec) (s s' : Scan) (r : Fields) (k : Option Checked)
    → IsSound c s
    → check_record c s.expected_parent r ≡ k
    → take_checked s r k ≡ some s'
    → IsSound c s'
unfolding take_checked
take_checked-IsSound c s s' r none v checked e = cc
take_checked-IsSound c s s' r (some k) v checked e =
    elim (Bool-cases (in_order s.pending_step s.previous_step k.step)) [
      | inl order ↦ sound order (rw order at e)
      | inr wrong ↦ absurd (some_none (rw wrong at e))
    ]
  where
    some_none : none ≡ some s' → ⊥
    some_none e = cc

    sound :
        in_order s.pending_step s.previous_step k.step ≡ true
        → some (if k.group_end then close_group s r k else keep_open s r k) ≡ some s'
        → IsSound c s'
    sound order e =
        let taken : (if k.group_end then close_group s r k else keep_open s r k) ≡ s' = cc in
        subst (IsSound c) taken (
          if_induction (IsSound c) k.group_end (λ _. closed-IsSound c s r k v checked order)
            (λ _. open-IsSound c s r k v checked order))

take_object-IsSound :
    (c : Codec) (s s' : Scan) (r : Option Fields)
    → IsSound c s
    → take_object c s r ≡ some s'
    → IsSound c s'
unfolding take_object
take_object-IsSound c s s' none v e = cc
take_object-IsSound c s s' (some r) v e = elim (Bool-cases (is_schema c (get "schema" r))) [
  | inl known ↦
      take_checked-IsSound c s s' r (check_record c s.expected_parent r) v refl (rw known at e)
  | inr unknown ↦ absurd (some_none (rw unknown at e))
]
  where
    some_none : none ≡ some s' → ⊥
    some_none e = cc

-- A line that stops the loop, and one that does not.
pub scan-stops :
    (c : Codec) (line : String) (lines : List String) (s : Scan)
    → take_line c s line ≡ none
    → scan c (line ∷ lines) s ≡ (s, false)
unfolding scan
scan-stops c line lines s e = rw (scan, e) refl

pub scan-goes_on :
    (c : Codec) (line : String) (lines : List String) (s s' : Scan)
    → take_line c s line ≡ some s'
    → scan c (line ∷ lines) s ≡ scan c lines s'
unfolding scan
scan-goes_on c line lines s s' e = rw (scan, e) refl

pub scan-IsSound :
    (c : Codec) (lines : List String) (s : Scan) → IsSound c s → IsSound c (scan c lines s).0
unfolding scan take_line
scan-IsSound c [] s v = v
scan-IsSound c (line ∷ lines) s v = elim (Option-cases (take_line c s line)) [
  | inl stop ↦ rw (scan-stops c line lines s stop) v
  | inr (s', next) ↦
      rw (scan-goes_on c line lines s s' next)
        (scan-IsSound c lines s' (take_object-IsSound c s s' (as_object (c.loads line)) v next))
]
