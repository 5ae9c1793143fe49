-- ===== src/Payload/Settled.antt =====
-- Cutting at the last message with calls leaves only messages whose calls are answered.
use autonomous_llm_bot.Prelude.{
  ℕ, zero, suc, String, ◌≡◌, refl, inl, inr, true, false, List, [], ◌∷◌, arith, if◌then◌else◌, ◌==◌,
  nat_eq, string_eq, Bool-cases, drop, all, any, if_induction, is_nil,
}
use autonomous_llm_bot.Json.{Value}
use autonomous_llm_bot.Payload.{Message}
use autonomous_llm_bot.Payload.Tail.{
  has_calls, settled_ids, is_settled, cut_unsettled, add_settled, drop_results,
}

-- The ids that are answered before the next message with calls.
abbrev pub near_ids : List Message → List String
near_ids [] = []
near_ids (m ∷ ms) = let rest = near_ids ms in if has_calls m then [] else add_settled m rest

-- Every call has its result behind it, and before the calls of any later message.
abbrev pub GroupsSettled : List Message → Type 0
GroupsSettled [] = Unit
GroupsSettled (m ∷ ms) = (all (is_settled (near_ids ms)) m.tool_calls ≡ true) × GroupsSettled ms

-- The same, but for the last message with calls.
abbrev pub EarlierSettled : List Message → Type 0
EarlierSettled [] = Unit
EarlierSettled (m ∷ ms) =
    (any has_calls ms ≡ true → all (is_settled (near_ids ms)) m.tool_calls ≡ true)
    × EarlierSettled ms

near_ids-cut :
    (ms : List Message) → any has_calls ms ≡ true → near_ids (cut_unsettled ms) ≡ near_ids ms
unfolding cut_unsettled any
near_ids-cut [] h = absurd (cc)
near_ids-cut (m ∷ ms) h = elim (Bool-cases (any has_calls ms)) [
  | inl later ↦ ground (arith, near_ids-cut ms later)
  | inr last ↦ let calls : has_calls m ≡ true = ground arith in ground arith
]

near_ids-all : (ms : List Message) → any has_calls ms ≡ false → near_ids ms ≡ settled_ids ms
unfolding settled_ids any
near_ids-all [] h = refl
near_ids-all (m ∷ ms) h = ground (arith, near_ids-all ms)

quiet_all :
    (ids : List String) (calls : List Value)
    → is_nil calls ≡ true
    → all (is_settled ids) calls ≡ true
unfolding all
quiet_all ids [] h = refl
quiet_all ids (v ∷ vs) h = absurd (cc)

quiet_settled : (ms : List Message) → any has_calls ms ≡ false → GroupsSettled ms
unfolding any all
quiet_settled [] h = tt
quiet_settled (m ∷ ms) h =
    (quiet_all (near_ids ms) m.tool_calls (ground arith), quiet_settled ms (ground arith))

pub cut_unsettled-GroupsSettled :
    (ms : List Message) → EarlierSettled ms → GroupsSettled (cut_unsettled ms)
unfolding cut_unsettled
cut_unsettled-GroupsSettled [] e = tt
cut_unsettled-GroupsSettled (m ∷ ms) e = elim (Bool-cases (any has_calls ms)) [
  | inl later ↦
      rw later (rw (near_ids-cut ms later) (e.0 later), cut_unsettled-GroupsSettled ms e.1)
  | inr last ↦ rw last (
      if_induction GroupsSettled (all (is_settled (settled_ids ms)) m.tool_calls)
        (λ s. (rw (near_ids-all ms last) s, quiet_settled ms last)) (λ _. tt))
]

pub EarlierSettled-drop :
    (n : ℕ) (ms : List Message) → EarlierSettled ms → EarlierSettled (drop n ms)
unfolding drop
EarlierSettled-drop zero ms e = e
EarlierSettled-drop (suc n) [] e = e
EarlierSettled-drop (suc n) (m ∷ ms) e = EarlierSettled-drop n ms e.1

pub EarlierSettled-drop_results :
    (ms : List Message) → EarlierSettled ms → EarlierSettled (drop_results ms)
unfolding drop_results
EarlierSettled-drop_results [] e = e
EarlierSettled-drop_results (m ∷ ms) e =
    if_induction EarlierSettled (m.role == "tool") (λ _. EarlierSettled-drop_results ms e.1)
      (λ _. e)
