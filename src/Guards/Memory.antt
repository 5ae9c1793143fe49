-- ===== src/Guards/Memory.antt =====
-- The memory of calls that failed for good: its bound, what it blocks, and what a write clears.
use autonomous_llm_bot.Prelude.{
  ℕ, ◌+◌, ◌≤◌, String, ◌≡◌, refl, ap, subst, ◌≢◌, true, false, not, ◌||◌, Option, none, some, [],
  ◌∷◌, arith, ltb, ◌==◌, nat_eq, string_eq, ==_refl, ==_false, length, contains, eq_iff,
  if_induction, Distinct,
}
use autonomous_llm_bot.Json.{truthy, text, Fields, no_fields, field, get}
use autonomous_llm_bot.Dict.{keys, lookup, insert, lookup-insert_self, length-insert, remove}
use autonomous_llm_bot.Guards.{
  Library, known_bad_calls_max, KnownBad, KnownBadCalls, evict, tool_loop_guard_tools,
  tool_fingerprint, Blocked, bumped, remember, record_known_bad, known_bad_block, fresh_entry,
  known_failure, found_under, forget, invalidate_known_bad,
}

evict_small : (d : KnownBadCalls) → length d ≤ known_bad_calls_max → evict d ≡ d
unfolding evict
evict_small [] h = refl
evict_small (x ∷ d) h = ground arith

length-evict : (d : KnownBadCalls) → length (evict d) ≤ known_bad_calls_max
unfolding evict
length-evict [] = omega arith
length-evict (x ∷ d) = ground (arith, length-evict d)

-- A write to a memory within its bound is still there once the oldest entries are dropped.
lookup-evict :
    (f : String) (e : KnownBad) (known : KnownBadCalls)
    → length known ≤ known_bad_calls_max
    → lookup f (evict (insert f e known)) ≡ some e
unfolding evict insert lookup
lookup-evict f e [] h = ground (arith, ==_refl f)
lookup-evict f e ((j, w) ∷ d) h =
    if_induction (λ xs. lookup f (evict xs) ≡ some e) (j == f)
      (λ same. rw (evict_small ((j, e) ∷ d) h, same) refl)
      λ other.
        if_induction (λ xs. lookup f xs ≡ some e)
          (ltb known_bad_calls_max (length ((j, w) ∷ insert f e d)))
          (λ _.
            rw (evict_small (insert f e d) (omega (arith, length-insert f e d, h)))
              (lookup-insert_self f e d))
          (λ _. rw other (lookup-insert_self f e d))

contains-insert-keys :
    (f x : String) (e : KnownBad) (d : KnownBadCalls)
    → contains (keys (insert f e d)) x ≡ (contains (keys d) x || (f == x))
unfolding contains insert
contains-insert-keys f x e [] = ground arith
contains-insert-keys f x e ((j, w) ∷ d) =
    ground (arith, contains-insert-keys f x e d, eq_iff j f, eq_iff j x, eq_iff f x)

insert-Distinct :
    (f : String) (e : KnownBad) (d : KnownBadCalls)
    → Distinct (keys d)
    → Distinct (keys (insert f e d))
unfolding contains insert
insert-Distinct f e [] h = (refl, tt)
insert-Distinct f e ((j, w) ∷ d) h =
    if_induction (λ (xs : KnownBadCalls). Distinct (keys xs)) (j == f) (λ _. h)
      λ other. (
        ground (arith, contains-insert-keys f j e d, eq_iff j f, eq_iff f j, h.0),
        insert-Distinct f e d h.1,
      )

evict-Distinct : (d : KnownBadCalls) → Distinct (keys d) → Distinct (keys (evict d))
unfolding evict
evict-Distinct [] h = tt
evict-Distinct (x ∷ d) h =
    if_induction (λ (xs : KnownBadCalls). Distinct (keys xs))
      (ltb known_bad_calls_max (length (x ∷ d))) (λ _. evict-Distinct d h.1) (λ _. h)

-- Within its bound, and no fingerprint twice.
abbrev pub IsBounded : KnownBadCalls → Type 0
IsBounded known = (length known ≤ known_bad_calls_max) × Distinct (keys known)

-- Whatever is recorded, a memory of at most 20 calls with distinct fingerprints stays one.
pub record_known_bad-IsBounded :
    (lib : Library) (known : KnownBadCalls) (tool_name : String) (args : Option Fields)
    (error target : String) (step : ℕ)
    → IsBounded known
    → IsBounded (record_known_bad lib tool_name args error target step known)
unfolding record_known_bad remember
record_known_bad-IsBounded lib known tool_name none error target step h = h
record_known_bad-IsBounded lib known tool_name (some args) error target step h =
    if_induction IsBounded (not (contains tool_loop_guard_tools tool_name)) (λ _. h)
      λ _. by_fingerprint (tool_fingerprint lib tool_name args)
  where
    fresh : KnownBad
    fresh = fresh_entry lib tool_name args error target step

    by_fingerprint : (f : Option String) → IsBounded (remember f fresh known)
    by_fingerprint none = h
    by_fingerprint (some f) =
        let e = bumped fresh (lookup f known) in
        (
          length-evict (insert f e known),
          evict-Distinct (insert f e known) (insert-Distinct f e known h.1),
        )

-- The count and the first step that a call is blocked with, once it has failed at `step`.
abbrev pub after_failure : ℕ → Option KnownBad → ℕ × ℕ
after_failure step none = (1, step)
after_failure step (some old) = (old.count + 1, old.first_step)

abbrev pub blocked_as : String → ℕ × ℕ → Blocked
blocked_as tool_name (count, first_step) = record {
  reason = "known_failure";
  tool = tool_name;
  limit = known_bad_calls_max;
  count = count;
  first_step = some first_step;
}

module _ (lib : Library) (known : KnownBadCalls) where
  -- Once a call of a guarded tool is recorded in a memory within its bound, the same call is blocked:
  -- with one failure more than before, and the step of the first one that is remembered.
  pub record_known_bad-blocks :
      (tool_name f : String) (args : Fields) (error target : String) (step : ℕ)
      → length known ≤ known_bad_calls_max
      → contains tool_loop_guard_tools tool_name ≡ true
      → tool_fingerprint lib tool_name args ≡ some f
      → known_bad_block lib
          (record_known_bad lib tool_name (some args) error target step known)
          tool_name
          (some args)
        ≡ some (blocked_as tool_name (after_failure step (lookup f known)))
  unfolding record_known_bad remember known_bad_block
  record_known_bad-blocks tool_name f args error target step h guarded same =
      rw (guarded, same, lookup-evict f _ known h) (bumped_lem (lookup f known))
    where
      bumped_lem :
          (old : Option KnownBad)
          → known_failure tool_name
              (some (bumped (fresh_entry lib tool_name args error target step) old))
            ≡ some (blocked_as tool_name (after_failure step old))
      bumped_lem none = refl
      bumped_lem (some old) = refl

lookup-remove :
    (f : String) (known : KnownBadCalls) → Distinct (keys known) → lookup f (remove f known) ≡ none
unfolding lookup remove contains
lookup-remove f [] d = refl
lookup-remove f ((j, w) ∷ known) d =
    if_induction (λ (xs : KnownBadCalls). lookup f xs ≡ none) (j == f) {x = known}
      {y = (j, w) ∷ remove f known}
      (λ same.
        absent known (subst (λ x. contains (keys known) x ≡ false) ((eq_iff j f).0 same) d.0))
      (λ other. rw other (lookup-remove f known d.1))
  where
    absent : (xs : KnownBadCalls) → contains (keys xs) f ≡ false → lookup f xs ≡ none
    absent [] h = refl
    absent ((i, v) ∷ xs) h = ground (arith, absent xs)

lookup-remove_ne :
    (f g : String) (known : KnownBadCalls) → f ≢ g → lookup f (remove g known) ≡ lookup f known
unfolding lookup remove
lookup-remove_ne f g [] ne = refl
lookup-remove_ne f g ((j, w) ∷ known) ne =
    ground (arith, lookup-remove_ne f g known ne, eq_iff j f, eq_iff j g, eq_iff f g)

-- The arguments that name a file and nothing else.
abbrev pub only_path : String → Fields
only_path path = field "path" (text path) no_fields

module _ (lib : Library) (known : KnownBadCalls) (path : String) (written : Fields)
    (named : path ≢ "") (same_path : get "path" written ≡ some (text path)) where
  -- After a write to a file, with a memory of distinct fingerprints, reading the whole file is not
  -- blocked.
  pub write-unblocks :
      Distinct (keys known)
      → known_bad_block lib
          (invalidate_known_bad lib "write_file" (some written) known)
          "read_file"
          (some (only_path path))
        ≡ none
  unfolding known_bad_block invalidate_known_bad truthy contains
  write-unblocks d =
      rw (same_path, ==_false path "" named)
        (by_fingerprint (tool_fingerprint lib "read_file" (only_path path)))
    where
      by_fingerprint :
          (f : Option String) → known_failure "read_file" (found_under f (forget f known)) ≡ none
      by_fingerprint none = refl
      by_fingerprint (some f) = rw (lookup-remove f known d) refl

  -- Any other read, also one of the same file with an offset or a limit, is blocked after the write
  -- as it was before it, wherever its fingerprint differs from that of reading the whole file.
  pub write_keeps_other_blocks :
      (args : Fields)
      → tool_fingerprint lib "read_file" args ≢ tool_fingerprint lib "read_file" (only_path path)
      → known_bad_block lib
          (invalidate_known_bad lib "write_file" (some written) known)
          "read_file"
          (some args)
        ≡ known_bad_block lib known "read_file" (some args)
  unfolding known_bad_block invalidate_known_bad truthy contains
  write_keeps_other_blocks args differ =
      rw (same_path, ==_false path "" named)
        (ap (known_failure "read_file") (
          by_fingerprints (tool_fingerprint lib "read_file" args)
            (tool_fingerprint lib "read_file" (only_path path)) differ))
    where
      by_fingerprints :
          (f g : Option String) → f ≢ g → found_under f (forget g known) ≡ found_under f known
      by_fingerprints none g ne = refl
      by_fingerprints (some f) none ne = refl
      by_fingerprints (some f) (some g) ne = lookup-remove_ne f g known (λ e. ne (ap some e))
