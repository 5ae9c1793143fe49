-- ===== src/Outcome/Settling.antt =====
-- A run settles once, whatever is tried afterwards.
use autonomous_llm_bot.Prelude.{
  String, ◌≡◌, refl, ◌↔◌, inl, inr, true, Option, none, some, List, [], ◌∷◌, ◌++◌, arith, ◌==◌,
  string_eq, Bool-cases, keep, contains, eq_iff,
}
use autonomous_llm_bot.Outcome.{
  RunOutcome, new, settle, is_completed, label, labels, completed, terminal_reasons,
}
use Prim.Native.Char.{char}
use Prim.Native.String.{◌++◌ as append}
use mathlib.Core.List.{append_assoc, append-nil}

abbrev pub Attempt : Type 0
Attempt = String × String

-- A caller that ignores the result, or catches the exception, goes on from the new state.
pub settle_all : RunOutcome → List Attempt → RunOutcome
settle_all o [] = o
settle_all o ((reason, detail) ∷ rest) = settle_all (settle reason detail o).0 rest

-- The attempts whose reason is one of the four.
abbrev pub accepted : List Attempt → List Attempt
accepted = keep (λ a. contains terminal_reasons a.0)

-- What should be on record after some accepted attempts: the first, and the others as ignored.
pub settled_by : List Attempt → RunOutcome
settled_by [] = new
settled_by ((reason, detail) ∷ rest) = record {
  reason = some reason;
  detail = detail;
  ignored_attempts = rest;
}

settled_all :
    (r d : String) (seen rest : List Attempt)
    → settle_all (record { reason = some r; detail = d; ignored_attempts = seen }) rest
      ≡ record { reason = some r; detail = d; ignored_attempts = seen ++ accepted rest }
unfolding settle_all settle keep
settled_all r d seen [] = rw (append-nil seen)
settled_all r d seen ((reason, detail) ∷ rest) =
    elim (Bool-cases (contains terminal_reasons reason)) [
      | inl valid ↦
          rw (valid, ← append_assoc seen ((reason, detail) ∷ []) (accepted rest))
            (settled_all r d (seen ++ (reason, detail) ∷ []) rest)
      | inr invalid ↦ rw invalid (settled_all r d seen rest)
    ]

-- After any attempts on a new run, the first accepted one is the recorded reason and detail, the
-- later accepted ones are the ignored attempts in order, and the others left nothing behind.
pub settle_all_first_wins :
    (attempts : List Attempt) → settle_all new attempts ≡ settled_by (accepted attempts)
unfolding settle_all settle settled_by keep
settle_all_first_wins [] = refl
settle_all_first_wins ((reason, detail) ∷ rest) =
    elim (Bool-cases (contains terminal_reasons reason)) [
      | inl valid ↦ rw valid (settled_all reason detail [] rest)
      | inr invalid ↦ rw invalid (settle_all_first_wins rest)
    ]

labels_iff : (r : String) → (labels r ≡ "✅ 조사 완료") ↔ ((r == completed) ≡ true)
unfolding labels
labels_iff r = (
  ground (
    arith,
    eq_iff "🛑 사용자 중단 — 미완료" "✅ 조사 완료",
    eq_iff (append "⚠" (String.◌∷◌ (char 65039 tt) " 스텝 소진 — 미완료")) "✅ 조사 완료",
    eq_iff "❌ 실패 — 미완료" "✅ 조사 완료",
  ),
  ground arith,
)

label_cases :
    (q : Option String) (detail : String) (ignored : List Attempt)
    → let o : RunOutcome = record { reason = q; detail = detail; ignored_attempts = ignored } in
      (label o ≡ "✅ 조사 완료") ↔ (is_completed o ≡ true)
unfolding label is_completed
label_cases none detail ignored = (ground (arith, eq_iff "진행 중" "✅ 조사 완료"), ground arith)
label_cases (some r) detail ignored = labels_iff r

-- The label of a finished investigation is shown exactly when the run is completed.
pub label-completed_iff : (o : RunOutcome) → (label o ≡ "✅ 조사 완료") ↔ (is_completed o ≡ true)
label-completed_iff o = label_cases o.reason o.detail o.ignored_attempts
