-- ===== src/Payload/Shortened.antt =====
-- What is sent of a payload that is too long and has groups to spare.
use autonomous_llm_bot.Prelude.{
  ℕ, zero, suc, ◌+◌, ◌-◌, ◌≤◌, ◌<◌, min, max, ◌≡◌, refl, sym, ap, ◌∙◌, subst, inl, inr, Bool, false,
  List, [], ◌∷◌, ◌++◌, arith, leb, if◌then◌else◌, leb→le, ◌==◌, nat_eq, string_eq, length, take,
  drop, is_nil, nat_lt_cases,
}
use autonomous_llm_bot.Json.{Value}
use autonomous_llm_bot.Payload.{Message, Texts}
use autonomous_llm_bot.Payload.Rebuild.{validate_chat_payload}
use autonomous_llm_bot.Payload.Bound.{
  group_indices, nth, nth_last, total_chars, notice, retained, choose, shortened,
  bound_agent_payload, count_below, groups_from,
}
use autonomous_llm_bot.Payload.Bounded.{
  Leads, choose_bounds, choose_fits, group_starts, group-Leads, choose_largest, quiet_prefix,
  count_below_group,
}

module _ {ℓ} {A : Type ℓ} where
  append-take-drop : (n : ℕ) (xs : List A) → take n xs ++ drop n xs ≡ xs
  unfolding take drop
  append-take-drop zero xs = refl
  append-take-drop (suc n) [] = refl
  append-take-drop (suc n) (x ∷ xs) = ap (λ (ys : List A). x ∷ ys) (append-take-drop n xs)

total_chars-append :
    (len : Value → ℕ) (xs ys : List Message)
    → total_chars len (xs ++ ys) ≡ total_chars len xs + total_chars len ys
unfolding total_chars
total_chars-append len [] ys = omega arith
total_chars-append len (x ∷ xs) ys = omega (arith, total_chars-append len xs ys)

abbrev pub group_count : List Message → ℕ
group_count ms = length (group_indices ms)

-- The last k groups.
abbrev pub last_groups : ℕ → List Message → List Message
last_groups k ms = drop (nth_last k (group_indices ms)) ms

-- `out` is the payload `ms` with the last `kept` of its groups behind the messages in front of its
-- first group, and between them a notice that gives their numbers.
pub record IsShortened (t : Texts) (len : Value → ℕ) (keep_recent max_chars : ℕ)
    (ms out : List Message) : Type 0 where
  pub kept : ℕ
  pub prefix : List Message
  pub at_least_one : 1 ≤ kept
  pub within : kept ≤ max 1 keep_recent
  pub some_dropped : kept < group_count ms
  pub begins : (rest : List Message) × (ms ≡ prefix ++ rest)
  pub quiet : group_indices prefix ≡ []
  pub counted : group_count (last_groups kept ms) ≡ kept
  pub leads : Leads (last_groups kept ms)
  pub fits : 1 < kept → total_chars len prefix + total_chars len (last_groups kept ms) ≤ max_chars
  pub largest :
      (k : ℕ)
      → kept < k
      → k ≤ min (group_count ms) keep_recent
      → max_chars < total_chars len prefix + total_chars len (last_groups k ms)
  pub sent :
      out
      ≡ (validate_chat_payload t
          (prefix ++ (notice t (group_count ms - kept) kept ∷ last_groups kept ms))).messages

starts_at :
    (ms : List Message) (i : ℕ)
    → i < group_count ms
    → (group_count (drop (nth i (group_indices ms)) ms) + i ≡ group_count ms)
      × Leads (drop (nth i (group_indices ms)) ms)
starts_at ms i h =
    let e : nth i (group_indices ms) - 0 ≡ nth i (group_indices ms) = omega arith in
    (rw e at (group_starts 0 i ms h).1, rw e at (group-Leads 0 i ms h))

prefix_quiet :
    (ms : List Message)
    → 0 < group_count ms
    → group_indices (take (nth 0 (group_indices ms)) ms) ≡ []
prefix_quiet ms h =
    let e : nth 0 (group_indices ms) - 0 ≡ nth 0 (group_indices ms) = omega arith in
    rw e at (quiet_prefix 0 ms h)

-- What `shortened` builds for the last k groups.
shortened_lem :
    (t : Texts) (k : ℕ) (ms : List Message)
    → 1 ≤ k
    → k < group_count ms
    → shortened t (nth_last k (group_indices ms)) ms
      ≡ take (nth 0 (group_indices ms)) ms ++ (notice t (group_count ms - k) k ∷ last_groups k ms)
unfolding shortened
shortened_lem t k ms one few =
    let dropped = count_below_group 0 (group_count ms - k) ms (omega arith) in
    let rest : group_count ms - (group_count ms - k) ≡ k = omega arith in rw (dropped, rest) refl

when_groups {ℓ} :
    {A : Type ℓ} (a b : A) (ms : List Message) (n : ℕ)
    → group_count ms ≡ n
    → 0 < n
    → (if is_nil ms then a else b) ≡ b
unfolding groups_from
when_groups a b [] n e h = absurd (omega arith)
when_groups a b (m ∷ ms) n e h = refl

-- The branch of `bound_agent_payload` that shortens.
sent_lem :
    (t : Texts) (len : Value → ℕ) (keep_recent max_chars k : ℕ) (ms : List Message)
    → max_chars < total_chars len ms
    → retained len keep_recent max_chars ms ≡ k
    → 1 ≤ k
    → k < group_count ms
    → bound_agent_payload t len keep_recent max_chars ms
      ≡ (validate_chat_payload t (shortened t (nth_last k (group_indices ms)) ms)).messages
unfolding bound_agent_payload
sent_lem t len keep_recent max_chars k ms long e one few =
    let dropped = count_below_group 0 (group_count ms - k) ms (omega arith) in
    let nonzero : (count_below (nth_last k (group_indices ms)) (group_indices ms) == 0) ≡ false =
      rw dropped (ground arith) in
    let too_long : leb (total_chars len ms) max_chars ≡ false = ground arith in
    let several : leb (group_count ms) 1 ≡ false = ground arith in
    rw (e, nonzero, too_long, several) (when_groups _ _ ms (group_count ms) refl (omega arith))

module _ (t : Texts) (len : Value → ℕ) (keep_recent max_chars : ℕ) (ms : List Message)
    (long : max_chars < total_chars len ms) (more : 1 < group_count ms) where
  abbrev front : List Message
  front = take (nth 0 (group_indices ms)) ms

  abbrev fitting : ℕ → Bool
  fitting k = leb (total_chars len front + total_chars len (last_groups k ms)) max_chars

  abbrev kept_groups : ℕ
  kept_groups = choose fitting (min (group_count ms) keep_recent)

  fits_if_more :
      1 < kept_groups
      → total_chars len front + total_chars len (last_groups kept_groups ms) ≤ max_chars
  fits_if_more h = leb→le _ _ (choose_fits fitting (min (group_count ms) keep_recent) h)

  all_groups :
      total_chars len front + total_chars len (last_groups (group_count ms) ms) ≡ total_chars len ms
  all_groups =
      let zeroth : group_count ms - group_count ms ≡ 0 = omega arith in
      rw zeroth (
        sym (total_chars-append len front (drop (nth 0 (group_indices ms)) ms))
        ∙ ap (total_chars len) (append-take-drop (nth 0 (group_indices ms)) ms))

  bounds : (1 ≤ kept_groups) × (kept_groups ≤ max 1 (min (group_count ms) keep_recent))
  bounds = choose_bounds fitting (min (group_count ms) keep_recent)

  all_kept : kept_groups ≡ group_count ms → ⊥
  all_kept e = omega (
    arith,
    subst (λ k. total_chars len front + total_chars len (last_groups k ms) ≤ max_chars) e
        (fits_if_more (rw e more)),
    all_groups,
    long,
  )

  spare : kept_groups < group_count ms
  spare = elim (nat_lt_cases kept_groups (group_count ms)) [
    | inl l ↦ l
    | inr g ↦ absurd (all_kept (omega (arith, bounds, more, g)))
  ]

  retained_lem : retained len keep_recent max_chars ms ≡ kept_groups
  unfolding retained
  retained_lem = refl

  larger :
      (k : ℕ)
      → fitting k ≡ false
      → max_chars < total_chars len front + total_chars len (last_groups k ms)
  larger k h = ground arith

  found : group_count ms - kept_groups < group_count ms
  found = omega (arith, bounds, more)

  -- A payload that is too long, and has more than one group, is sent without its oldest groups: what is
  -- in front of the first group stays, then comes a notice that counts the dropped and the kept groups,
  -- then the last groups, and `validate_chat_payload` repairs the whole. At least one group is kept, at
  -- most `keep_recent` or one, and as many as fit with what is in front; one is kept even if it does
  -- not fit.
  pub bound_agent_payload-IsShortened :
      IsShortened t len keep_recent max_chars ms
        (bound_agent_payload t len keep_recent max_chars ms)
  bound_agent_payload-IsShortened = record {
    kept = kept_groups;
    prefix = front;
    at_least_one = bounds.0;
    within = omega (arith, bounds);
    some_dropped = spare;
    begins = (drop (nth 0 (group_indices ms)) ms, sym (append-take-drop _ ms));
    quiet = prefix_quiet ms (omega arith);
    counted = omega (arith, (starts_at ms (group_count ms - kept_groups) found).0, spare);
    leads = (starts_at ms (group_count ms - kept_groups) found).1;
    fits = fits_if_more;
    largest = λ k m l. larger k (choose_largest fitting (min (group_count ms) keep_recent) k m l);
    sent =
        sent_lem t len keep_recent max_chars kept_groups ms long retained_lem bounds.0 spare
        ∙ ap (λ (p : List Message). (validate_chat_payload t p).messages)
            (shortened_lem t kept_groups ms bounds.0 spare);
  }
