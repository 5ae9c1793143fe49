-- ===== src/Payload/Bounded.antt =====
-- `bound_agent_payload` keeps as many of the last groups as fit.
use autonomous_llm_bot.Prelude.{
  ℕ, zero, suc, ◌+◌, ◌-◌, ◌≤◌, ◌<◌, max, ◌≡◌, refl, ◌∙◌, inl, inr, Bool, true, false, List, [], ◌∷◌,
  arith, nat_eq, string_eq, Bool-cases, length, take, drop,
}
use autonomous_llm_bot.Payload.{Message}
use autonomous_llm_bot.Payload.Announce.{announces}
use autonomous_llm_bot.Payload.Bound.{groups_from, nth, choose, count_below}

-- The position of the i-th group splits the payload in front of a message that announces calls, and
-- leaves the groups from the i-th on.
abbrev pub StartsAt : ℕ → ℕ → List Message → Type 0
StartsAt first i ms =
    (first ≤ nth i (groups_from first ms))
    × (length (groups_from 0 (drop (nth i (groups_from first ms) - first) ms)) + i
        ≡ length (groups_from 0 ms))

-- The first message announces calls.
abbrev pub Leads : List Message → Type 0
Leads [] = ⊥
Leads (m ∷ ms) = announces m ≡ true

pub length-groups_from :
    (a b : ℕ) (ms : List Message) → length (groups_from a ms) ≡ length (groups_from b ms)
unfolding groups_from
length-groups_from a b [] = refl
length-groups_from a b (m ∷ ms) = ground (arith, length-groups_from (a + 1) (b + 1) ms)

-- A message in front moves every group by one.
StartsAt-skip :
    (first x i : ℕ) (m : Message) (ms : List Message)
    → (first + 1 ≤ x)
      × (length (groups_from 0 (drop (x - (first + 1)) ms)) + i ≡ length (groups_from 0 ms))
    → (first ≤ x)
      × (length (groups_from 0 (drop (x - first) (m ∷ ms))) + i ≡ length (groups_from 1 ms))
unfolding drop
StartsAt-skip first x i m ms ih =
    let step : x - first ≡ suc (x - (first + 1)) = omega arith in
    rw step (omega arith, ih.1 ∙ length-groups_from 0 1 ms)

pub group_starts :
    (first i : ℕ) (ms : List Message) → i < length (groups_from first ms) → StartsAt first i ms
unfolding groups_from nth drop
group_starts first i [] h = absurd (omega arith)
group_starts first zero (m ∷ ms) h = elim (Bool-cases (announces m)) [
  | inl starts ↦
      let none_before : first - first ≡ 0 = omega arith in
      rw starts (omega arith, rw (none_before, starts) (omega (arith, length-groups_from 0 1 ms)))
  | inr quiet ↦
      rw quiet (StartsAt-skip first _ zero m ms (group_starts (first + 1) zero ms (rw quiet at h)))
]
group_starts first (suc i) (m ∷ ms) h = elim (Bool-cases (announces m)) [
  | inl starts ↦
      let shorter : i < length (groups_from (first + 1) ms) = ground arith in
      let skip = StartsAt-skip first _ i m ms (group_starts (first + 1) i ms shorter) in
      rw starts (skip.0, omega (arith, skip.1))
  | inr quiet ↦
      rw quiet
        (StartsAt-skip first _ (suc i) m ms (group_starts (first + 1) (suc i) ms (rw quiet at h)))
]

Leads-skip :
    (first i : ℕ) (m : Message) (ms : List Message)
    → i < length (groups_from (first + 1) ms)
    → Leads (drop (nth i (groups_from (first + 1) ms) - (first + 1)) ms)
    → Leads (drop (nth i (groups_from (first + 1) ms) - first) (m ∷ ms))
unfolding drop
Leads-skip first i m ms h l =
    let x = nth i (groups_from (first + 1) ms) in
    let later : first + 1 ≤ x = (group_starts (first + 1) i ms h).0 in
    let step : x - first ≡ suc (x - (first + 1)) = omega arith in rw step l

pub group-Leads :
    (first i : ℕ) (ms : List Message)
    → i < length (groups_from first ms)
    → Leads (drop (nth i (groups_from first ms) - first) ms)
unfolding groups_from nth drop
group-Leads first i [] h = absurd (omega arith)
group-Leads first zero (m ∷ ms) h = elim (Bool-cases (announces m)) [
  | inl starts ↦
      let none_before : first - first ≡ 0 = omega arith in rw starts (rw none_before starts)
  | inr quiet ↦
      let shorter : zero < length (groups_from (first + 1) ms) = rw quiet at h in
      rw quiet (Leads-skip first zero m ms shorter (group-Leads (first + 1) zero ms shorter))
]
group-Leads first (suc i) (m ∷ ms) h = elim (Bool-cases (announces m)) [
  | inl starts ↦
      let shorter : i < length (groups_from (first + 1) ms) = ground arith in
      rw starts (Leads-skip first i m ms shorter (group-Leads (first + 1) i ms shorter))
  | inr quiet ↦
      let shorter : suc i < length (groups_from (first + 1) ms) = rw quiet at h in
      rw quiet (Leads-skip first (suc i) m ms shorter (group-Leads (first + 1) (suc i) ms shorter))
]

module _ (fits : ℕ → Bool) where
  pub choose_bounds : (hi : ℕ) → (1 ≤ choose fits hi) × (choose fits hi ≤ max 1 hi)
  unfolding choose
  choose_bounds zero = omega arith
  choose_bounds (suc k) = ground (arith, choose_bounds k)

  pub choose_fits : (hi : ℕ) → 1 < choose fits hi → fits (choose fits hi) ≡ true
  unfolding choose
  choose_fits zero h = absurd (omega arith)
  choose_fits (suc k) h = ground (arith, choose_fits k)

  pub choose_largest : (hi k : ℕ) → choose fits hi < k → k ≤ hi → fits k ≡ false
  unfolding choose
  choose_largest zero k h l = absurd (omega (arith, choose_bounds 0))
  choose_largest (suc hi) k h l = ground (arith, choose_largest hi k)

-- No group stands in front of the first.
pub quiet_prefix :
    (first : ℕ) (ms : List Message)
    → 0 < length (groups_from first ms)
    → groups_from first (take (nth 0 (groups_from first ms) - first) ms) ≡ []
unfolding groups_from nth take
quiet_prefix first [] h = absurd (omega arith)
quiet_prefix first (m ∷ ms) h = elim (Bool-cases (announces m)) [
  | inl starts ↦
      let none_before : first - first ≡ 0 = omega arith in rw starts (rw none_before refl)
  | inr quiet ↦
      let more : 0 < length (groups_from (first + 1) ms) = rw quiet at h in
      let later : first + 1 ≤ nth 0 (groups_from (first + 1) ms) =
        (group_starts (first + 1) 0 ms more).0 in
      let step : nth 0 (groups_from (first + 1) ms) - first
          ≡ suc (nth 0 (groups_from (first + 1) ms) - (first + 1)) =
        omega arith in
      rw quiet (rw (step, quiet) (quiet_prefix (first + 1) ms more))
]

count_below_none :
    (start first : ℕ) (ms : List Message)
    → start ≤ first
    → count_below start (groups_from first ms) ≡ 0
unfolding count_below groups_from
count_below_none start first [] h = refl
count_below_none start first (m ∷ ms) h = ground (arith, count_below_none start (first + 1) ms)

pub count_below_group :
    (first i : ℕ) (ms : List Message)
    → i < length (groups_from first ms)
    → count_below (nth i (groups_from first ms)) (groups_from first ms) ≡ i
unfolding count_below groups_from nth
count_below_group first i [] h = absurd (omega arith)
count_below_group first zero (m ∷ ms) h =
    ground (arith, count_below_none first (first + 1) ms, count_below_group (first + 1) zero ms)
count_below_group first (suc i) (m ∷ ms) h = ground (
  arith,
  count_below_group (first + 1) i ms,
  group_starts (first + 1) i ms,
  count_below_group (first + 1) (suc i) ms,
)
