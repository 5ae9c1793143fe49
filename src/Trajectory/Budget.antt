-- ===== src/Trajectory/Budget.antt =====
-- The source of a summary keeps within its budget, and takes whole steps from the front.
use autonomous_llm_bot.Prelude.{
  ℕ, ◌+◌, ◌-◌, ◌≤◌, max, String, ◌≡◌, refl, sym, ap, ◌∙◌, ◌≢◌, ◌⊎◌, inl, inr, ◌||◌, List, [], ◌∷◌,
  ◌++◌, map, arith, ltb, if◌then◌else◌, ◌==◌, nat_eq, string_eq, if_induction, is_nil,
}
use autonomous_llm_bot.Json.{Value}
use autonomous_llm_bot.Text
use autonomous_llm_bot.Trajectory.{Codec, Decoded}
use autonomous_llm_bot.Text.Length.{length-append_text}
use autonomous_llm_bot.Trajectory.Source.{
  Grouped, group_lines, block_of, select_blocks, trusted_through, procedural_source,
}
use mathlib.Core.List.{append-nil, append_assoc}
use Prim.Native.String.{◌++◌ as append}

abbrev joined : List String → ℕ
joined xs = Text.length (Text.join "\n" xs)

joined-append :
    (xs : List String) (b : String)
    → joined (xs ++ b ∷ []) ≡ joined xs + (Text.length b + (if is_nil xs then 0 else 1))
unfolding Text.join
joined-append [] b = omega arith
joined-append (x ∷ []) b =
    omega (arith, length-append_text x (append "\n" b), length-append_text "\n" b)
joined-append (x ∷ y ∷ xs) b = omega (
  arith,
  length-append_text x (append "\n" (Text.join "\n" (y ∷ (xs ++ b ∷ [])))),
  length-append_text "\n" (Text.join "\n" (y ∷ (xs ++ b ∷ []))),
  length-append_text x (append "\n" (Text.join "\n" (y ∷ xs))),
  length-append_text "\n" (Text.join "\n" (y ∷ xs)),
  joined-append (y ∷ xs) b,
)

-- What the last loop takes of some groups: the front of them, up to one that does not fit, and the
-- step that it then reaches through.
pub record Takes (max_chars : ℕ) (groups : Grouped) (selected : List String) (through : ℕ)
    (result : List String × ℕ) : Type 0 where
  pub picked : Grouped
  pub left : Grouped
  pub all_groups : groups ≡ picked ++ left
  pub in_order : result.0 ≡ selected ++ map block_of picked
  pub fits : joined result.0 ≤ max_chars
  pub reaches :
      ((left ≡ []) × (result.1 ≡ through))
      ⊎ ((step : ℕ) × (ls : List String) × (more : Grouped) × (left ≡ (step, ls) ∷ more)
          × (result.1 ≡ step - 1))

select_blocks-Takes :
    (max_chars : ℕ) (groups : Grouped) (selected : List String) (used through : ℕ)
    → used ≡ joined selected
    → used ≤ max_chars
    → Takes max_chars groups selected through (select_blocks max_chars groups selected used through)
unfolding select_blocks
select_blocks-Takes max_chars [] selected used through same room = record {
  picked = [];
  left = [];
  all_groups = refl;
  in_order = sym (append-nil selected);
  fits = omega arith;
  reaches = inl (refl, refl);
}
select_blocks-Takes max_chars (g ∷ rest) selected used through same room =
    if_induction (Takes max_chars (g ∷ rest) selected through) (ltb (max_chars - used) cost)
      (λ _. record {
        picked = [];
        left = g ∷ rest;
        all_groups = refl;
        in_order = sym (append-nil selected);
        fits = omega arith;
        reaches = inr (g.0, g.1, rest, refl, refl);
      })
      λ enough.
        let later =
          select_blocks-Takes max_chars rest (selected ++ block_of g ∷ []) (used + cost) through
            (omega (arith, joined-append selected (block_of g), same)) (ground arith) in
        record {
          picked = g ∷ later.picked;
          left = later.left;
          all_groups = ap (◌∷◌ g) later.all_groups;
          in_order =
              later.in_order ∙ append_assoc selected (block_of g ∷ []) (map block_of later.picked);
          fits = later.fits;
          reaches = later.reaches;
        }
  where
    cost : ℕ
    cost = Text.length (block_of g) + (if is_nil selected then 0 else 1)

-- The groups that the source of the steps from `start` on is taken from.
abbrev pub groups_of : Codec → (Value → String) → Decoded → ℕ → ℕ → Grouped
groups_of c show d end_step start =
    let start_step = max 1 start in
    group_lines c show start_step (trusted_through d start_step end_step) d.records []

-- What a source and the step that it reaches through say of the groups.
abbrev pub IsFront : Grouped → ℕ → ℕ → String × ℕ → Type 0
IsFront groups max_chars start_step (source, through) =
    (picked : Grouped) × (left : Grouped) × (groups ≡ picked ++ left)
    × (source ≡ Text.join "\n" (map block_of picked))
    × (Text.length source ≤ max_chars)
    × (start_step - 1 ≤ through)
    × ((step : ℕ) (ls : List String) (more : Grouped)
        → left ≡ (step, ls) ∷ more
        → through ≡ max (start_step - 1) (step - 1))

Takes-IsFront :
    (groups : Grouped) (max_chars start_step through : ℕ) (result : List String × ℕ)
    → Takes max_chars groups [] through result
    → IsFront groups max_chars start_step (Text.join "\n" result.0, max (start_step - 1) result.1)
Takes-IsFront groups max_chars start_step through result t = (
  t.picked,
  t.left,
  t.all_groups,
  ap (Text.join "\n") t.in_order,
  t.fits,
  omega arith,
  λ step ls more e. reached step ls more e t.reaches,
)
  where
    reached :
        (step : ℕ) (ls : List String) (more : Grouped)
        → t.left ≡ (step, ls) ∷ more
        → ((t.left ≡ []) × (result.1 ≡ through))
          ⊎ ((step : ℕ) × (ls : List String) × (more : Grouped) × (t.left ≡ (step, ls) ∷ more)
              × (result.1 ≡ step - 1))
        → max (start_step - 1) result.1 ≡ max (start_step - 1) (step - 1)
    reached step ls more e (inl (nothing, _)) = cc
    reached step ls more e (inr (step', ls', more', e', through_step)) =
        let same : step' ≡ step = cc in rw (through_step, same) refl

-- For a budget that is not zero, and an end that is not in front of the start: the source is the
-- blocks of a front part of the groups, joined, and within the budget; it reaches through the step
-- before that of the first group left out, and at least through the step before the start.
pub procedural_source-prefix :
    (c : Codec) (show : Value → String) (d : Decoded) (end_step max_chars start : ℕ)
    → max_chars ≢ 0
    → max 1 start ≤ end_step
    → IsFront
        (groups_of c show d end_step start)
        max_chars
        (max 1 start)
        (procedural_source c show d end_step max_chars start)
unfolding procedural_source Text.join
procedural_source-prefix c show d end_step max_chars start some_room in_front =
    if_induction (IsFront groups max_chars (max 1 start))
      (max_chars == 0 || ltb end_step (max 1 start)) (λ empty. absurd (ground arith))
      λ _.
        Takes-IsFront groups max_chars (max 1 start) _ _
          (select_blocks-Takes max_chars groups [] 0 _ refl (omega arith))
  where
    groups : Grouped
    groups = groups_of c show d end_step start
