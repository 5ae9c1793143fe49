-- ===== src/RunState/Failures.antt =====
-- What `normalize_known_bad_calls` lets through, and normalising it again.
use mathlib.Core.List.{append_assoc, append-nil}
use autonomous_llm_bot.Prelude.{
  ℕ, suc, ◌+◌, ◌≤◌, ◌<◌, String, ◌≡◌, refl, sym, ap, ◌∙◌, subst, inl, inr, true, false, Option,
  none, some, List, [], ◌∷◌, ◌++◌, arith, leb, le→leb, ◌==◌, nat_eq, string_eq, Option-cases,
  length, length-append, All, eq_iff, if_induction,
}
use autonomous_llm_bot.Dict.{insert, length-insert}
use autonomous_llm_bot.Dict.Unique.{
  IsUnique, insert-IsUnique, Apart, insert_end, Apart-snoc, Apart-nil,
}
use autonomous_llm_bot.Json.{
  Value, text, array, object, Fields, get, text_of, fields_of, natural_of, nonempty_text,
  nonempty_text-eq, nonempty_text-text, number, positive_of,
}
use autonomous_llm_bot.Text
use autonomous_llm_bot.Text.Length.{length-prefix, prefix_short, prefix-ne}
use autonomous_llm_bot.Trajectory.{is_digest}
use autonomous_llm_bot.Guards.{KnownBad, KnownBadCalls}
use autonomous_llm_bot.RunState.{
  failure_count, known_bad_of, known_bad_entry, known_bad_item, known_bad_calls_max_items,
  items_of_values, known_bad_items, collect_known_bad, normalize_known_bad_calls,
}
use autonomous_llm_bot.RunState.Record.{known_bad_value, known_bad_fields, values_of}
use autonomous_llm_bot.RunState.Contract.{positive_of-le}

-- A text that is not empty and within a limit.
abbrev pub IsShort : ℕ → String → Type 0
IsShort n s = ((s == "") ≡ false) × (Text.length s ≤ n)

abbrev pub IsFailure : String × KnownBad → Type 0
IsFailure (f, b) =
    (is_digest f ≡ true)
    × IsShort 32 b.tool
    × IsShort 128 b.target
    × IsShort 32 b.error
    × (1 ≤ b.first_step)
    × (1 ≤ b.count)

prefix-IsShort :
    (n : ℕ) (v : Option Value) (s : String)
    → nonempty_text v ≡ some s
    → IsShort (suc n) (Text.prefix (suc n) s)
prefix-IsShort n v s h = (prefix-ne n s (nonempty_text-eq v s h).1, length-prefix (suc n) s)

count_of-le : (v : Option Value) (n : ℕ) → failure_count v ≡ some n → 1 ≤ n
count_of-le none n h = ground arith
count_of-le (some v) n h = positive_of-le (some v) n h

-- The entries of a record that is kept.
record Parts (t g e : Option String) (s c : Option ℕ) (b : KnownBad) : Type 0 where
  tool : (x : String) × (t ≡ some x) × (Text.prefix 32 x ≡ b.tool)
  target : (x : String) × (g ≡ some x) × (Text.prefix 128 x ≡ b.target)
  error : (x : String) × (e ≡ some x) × (Text.prefix 32 x ≡ b.error)
  first_step : s ≡ some b.first_step
  count : c ≡ some b.count

known_bad-Parts :
    (t g e : Option String) (s c : Option ℕ) (b : KnownBad)
    → known_bad_of t g e s c ≡ some b
    → Parts t g e s c b
unfolding known_bad_of
known_bad-Parts none g e s c b h = absurd (cc)
known_bad-Parts (some t) none e s c b h = absurd (cc)
known_bad-Parts (some t) (some g) none s c b h = absurd (cc)
known_bad-Parts (some t) (some g) (some e) none c b h = absurd (cc)
known_bad-Parts (some t) (some g) (some e) (some s) none b h = absurd (cc)
known_bad-Parts (some t) (some g) (some e) (some s) (some c) b h = record {
  tool = (t, refl, ground arith);
  target = (g, refl, ground arith);
  error = (e, refl, ground arith);
  first_step = ground arith;
  count = ground arith;
}

known_bad_entry-IsFailure :
    (f : String) (fs : Fields) (b : KnownBad)
    → is_digest f ≡ true
    → known_bad_entry (some fs) ≡ some b
    → IsFailure (f, b)
unfolding known_bad_entry
known_bad_entry-IsFailure f fs b d h =
    let p =
      known_bad-Parts (nonempty_text (get "tool" fs)) (nonempty_text (get "target" fs))
        (nonempty_text (get "error" fs)) (positive_of (get "first_step" fs))
        (failure_count (get "count" fs)) b h in
    (
      d,
      subst (IsShort 32) p.tool.2 (prefix-IsShort 31 (get "tool" fs) p.tool.0 p.tool.1),
      subst (IsShort 128) p.target.2 (prefix-IsShort 127 (get "target" fs) p.target.0 p.target.1),
      subst (IsShort 32) p.error.2 (prefix-IsShort 31 (get "error" fs) p.error.0 p.error.1),
      positive_of-le (get "first_step" fs) b.first_step p.first_step,
      count_of-le (get "count" fs) b.count p.count,
    )

no_entry : known_bad_entry none ≡ none
unfolding known_bad_entry
no_entry = refl

known_bad_item-IsFailure :
    (x : Value × Value) (f : String) (b : KnownBad)
    → known_bad_item x ≡ some (f, b)
    → IsFailure (f, b)
unfolding known_bad_item
known_bad_item-IsFailure (v, w) f b h = elim (Option-cases (text_of (some v))) [
  | inl other ↦ absurd (ground arith)
  | inr (g, found) ↦ elim (Option-cases (fields_of (some w))) [
    | inl other ↦ absurd (ground (arith, no_entry))
    | inr (fs, entry) ↦ elim (Option-cases (known_bad_entry (some fs))) [
      | inl none_here ↦ absurd (ground arith)
      | inr (c, made) ↦ known_bad_entry-IsFailure f fs b (ground arith) (ground arith)
    ]
  ]
]

known_bad_some :
    (t g e : Option String) (s c : Option ℕ) (b : KnownBad)
    → t ≡ some b.tool
    → g ≡ some b.target
    → e ≡ some b.error
    → s ≡ some b.first_step
    → c ≡ some b.count
    → Text.length b.tool ≤ 32
    → Text.length b.target ≤ 128
    → Text.length b.error ≤ 32
    → known_bad_of t g e s c ≡ some b
unfolding known_bad_of
known_bad_some t g e s c b t' g' e' s' c' i j k =
    rw (t', g', e', s', c')
      (rw (prefix_short 32 b.tool i, prefix_short 128 b.target j, prefix_short 32 b.error k) refl)

number_again : (n : ℕ) → 1 ≤ n → positive_of (some (number n)) ≡ some n
unfolding natural_of
number_again n h = rw (le→leb 1 n h) refl

known_bad_entry_again :
    (f : String) (b : KnownBad)
    → IsFailure (f, b)
    → known_bad_entry (some (known_bad_fields b)) ≡ some b
unfolding known_bad_entry get
known_bad_entry_again f b h =
    known_bad_some (nonempty_text (some (text b.tool))) (nonempty_text (some (text b.target)))
      (nonempty_text (some (text b.error))) (positive_of (some (number b.first_step)))
      (positive_of (some (number b.count))) b (nonempty_text-text b.tool h.1.0)
      (nonempty_text-text b.target h.2.0) (nonempty_text-text b.error h.3.0)
      (number_again b.first_step h.4) (number_again b.count h.5) h.1.1 h.2.1 h.3.1

known_bad_item_again :
    (f : String) (b : KnownBad)
    → IsFailure (f, b)
    → known_bad_item (text f, object (known_bad_fields b)) ≡ some (f, b)
unfolding known_bad_item text_of fields_of
known_bad_item_again f b h = rw (known_bad_entry_again f b h, known_bad_item) (rw h.0 refl)

-- Entries that are kept, at most so many, each under a fingerprint of its own.
pub record AreFailures (d : KnownBadCalls) : Type 0 where
  pub valid : All IsFailure d
  pub unique : IsUnique d
  pub few : length d ≤ known_bad_calls_max_items

insert-failures :
    (f : String) (b : KnownBad) (d : KnownBadCalls)
    → IsFailure (f, b)
    → All IsFailure d
    → All IsFailure (insert f b d)
unfolding insert
insert-failures f b [] h v = (h, tt)
insert-failures f b ((g, c) ∷ d) h v =
    if_induction (λ (e : KnownBadCalls). All IsFailure e) (g == f)
      (λ same. (subst (λ (x : String). IsFailure (x, b)) (sym ((eq_iff g f).0 same)) h, v.1))
      (λ _. (v.0, insert-failures f b d h v.1))

collect-AreFailures :
    (xs : List (Value × Value)) (d : KnownBadCalls)
    → AreFailures d
    → length d < known_bad_calls_max_items
    → AreFailures (collect_known_bad xs d)
unfolding collect_known_bad
collect-AreFailures [] d v h = v
collect-AreFailures (x ∷ xs) d v h = elim (Option-cases (known_bad_item x)) [
  | inl dropped ↦ rw (dropped, collect_known_bad) (collect-AreFailures xs d v h)
  | inr ((f, b), kept) ↦
      let grown : AreFailures (insert f b d) = record {
        valid = insert-failures f b d (known_bad_item-IsFailure x f b kept) v.valid;
        unique = insert-IsUnique f b d v.unique;
        few = omega (arith, length-insert f b d, h);
      } in
      rw (kept, collect_known_bad)
        (if_induction AreFailures (leb known_bad_calls_max_items (length (insert f b d)))
          (λ _. grown) (λ room. collect-AreFailures xs (insert f b d) grown (ground arith)))
]

-- Whatever is normalised, at most 20 failures come out, with distinct fingerprints of 64 hexadecimal
-- digits, texts that are not empty and within their limits, and a step and a count that are positive.
pub normalize_known_bad_calls-AreFailures :
    (v : Option Value) → AreFailures (normalize_known_bad_calls v)
unfolding normalize_known_bad_calls
normalize_known_bad_calls-AreFailures v =
    collect-AreFailures (known_bad_items v) []
      (record { valid = tt; unique = tt; few = omega arith }) (omega arith)

no_more {ℓ} : {A : Type ℓ} (xs : List A) → length xs ≡ 0 → xs ≡ []
no_more [] h = refl
no_more (x ∷ xs) h = absurd (omega arith)

collect_again :
    (d e : KnownBadCalls)
    → All IsFailure e
    → IsUnique e
    → Apart d e
    → length d + length e ≤ known_bad_calls_max_items
    → collect_known_bad (items_of_values (values_of known_bad_value e)) d ≡ d ++ e
unfolding collect_known_bad items_of_values values_of
collect_again d [] v u a few = rw append-nil refl
collect_again d ((f, b) ∷ e) v u a few =
    rw (known_bad_item_again f b v.0, collect_known_bad)
      (rw (insert_end f b d a.0) (
        if_induction (λ (r : KnownBadCalls). r ≡ d ++ ((f, b) ∷ e))
          (leb known_bad_calls_max_items (length (d ++ ((f, b) ∷ []))))
          (λ full.
            ap (λ (r : KnownBadCalls). d ++ ((f, b) ∷ r))
              (sym (no_more e (ground (arith, length-append d ((f, b) ∷ []))))))
          (λ _.
            collect_again (d ++ ((f, b) ∷ [])) e v.1 u.1 (Apart-snoc f b d e u.0 a.1)
              (omega (arith, length-append d ((f, b) ∷ []), few))
            ∙ append_assoc d ((f, b) ∷ []) e)))

-- Normalising what has been normalised and written changes nothing.
pub failures_again :
    (d : KnownBadCalls)
    → AreFailures d
    → normalize_known_bad_calls (some (array (values_of known_bad_value d))) ≡ d
unfolding normalize_known_bad_calls known_bad_items
failures_again d v = collect_again [] d v.valid v.unique (Apart-nil d) (omega (arith, v.few))
